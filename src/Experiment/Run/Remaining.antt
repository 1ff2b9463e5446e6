-- ===== src/Experiment/Run/Remaining.antt =====
-- The loop of tools/experiment.py resumed: only the jobs whose records are not done matter.
use sunstorm_xactserver.Base.{
  ◌≡◌, refl, ap, Bool, true, false, Option, none, some, List, [], ◌∷◌, arith, All, string_eq, ◌==◌,
  if◌then◌else◌, Bool-cases, Option-cases, inl, inr,
}
use sunstorm_xactserver.Experiment.Jobs.{Job}
use sunstorm_xactserver.Experiment.Progress.{Csv, done, as_text}
use sunstorm_xactserver.Experiment.Values.{Floats, ParameterValue, str}
use sunstorm_xactserver.Experiment.Run.{World, Options, Session, Ending, step, run_jobs}
use sunstorm_xactserver.Experiment.Run.Rounds.{status_for, IsDone}
use sunstorm_xactserver.Experiment.Run.Resume.{IsFreeJob, step_done, step_keeps}

module _ (F : Floats) (csv : Csv F) where
  abbrev is_done : Option (ParameterValue F) → Bool
  is_done (some (str status)) = status == done
  is_done (some other) = false
  is_done none = false

  is_done-IsDone :
      (status : Option (ParameterValue F)) → is_done status ≡ true → IsDone F csv status
  is_done-IsDone none h = absurd (cc)
  is_done-IsDone (some (str status)) h = ground arith
  is_done-IsDone (some other) h = absurd (cc)

  abbrev is_job_done : Session F csv → Job F → Bool
  is_job_done s job = is_done (status_for F csv (as_text F job.metadata) s.progress)

  -- The jobs that a test does not take out.
  abbrev without : (Job F → Bool) → List (Job F) → List (Job F)
  without test [] = []
  without test (job ∷ rest) =
      let others = without test rest in if test job then others else job ∷ others

  -- The jobs whose records are not done.
  abbrev pub remaining_jobs : Session F csv → List (Job F) → List (Job F)
  remaining_jobs s jobs = without (is_job_done s) jobs

  module _ (world : World F) (o : Options) where
    -- The test takes out only jobs that are done in the session.
    abbrev TakesOutDone : (Job F → Bool) → Session F csv → Job F → Type 0
    TakesOutDone test s job =
        IsFreeJob F csv world o job
        × (test job ≡ true → IsDone F csv (status_for F csv (as_text F job.metadata) s.progress))

    TakesOutDone-step :
        (test : Job F → Bool) (job : Job F) (s : Session F csv) (jobs : List (Job F))
        → (step F csv world o job s).0 ≡ none
        → All (TakesOutDone test s) jobs
        → All (TakesOutDone test (step F csv world o job s).1) jobs
    TakesOutDone-step test job s [] go h = tt
    TakesOutDone-step test job s (other ∷ jobs) go ((free, here), h) = (
      (
        free,
        λ out.
            (step_keeps F csv world o job s (as_text F other.metadata) free go (here out)
                (inl refl)).1
              refl,
      ),
      TakesOutDone-step test job s jobs go h,
    )

    run_jobs-without :
        (test : Job F → Bool) (jobs : List (Job F)) (s : Session F csv)
        → All (TakesOutDone test s) jobs
        → run_jobs F csv world o jobs s ≡ run_jobs F csv world o (without test jobs) s
    unfolding run_jobs
    run_jobs-without test [] s h = refl
    run_jobs-without test (job ∷ rest) s (here, h) = elim (Bool-cases (test job)) [
      | inl out ↦
          let same = step_done F csv world o job s (here.1 out) in
          rw (out, ap (λ (r : Option Ending × Session F csv). r.0) same, run_jobs)
            (rw (ap (λ (r : Option Ending × Session F csv). r.1) same)
              (run_jobs-without test rest s h))
      | inr kept ↦ rw kept (elim (Option-cases (step F csv world o job s).0) [
        | inl go ↦
            rw (go, run_jobs)
              (run_jobs-without test rest _ (TakesOutDone-step test job s rest go h))
        | inr (ending, stop) ↦ rw (stop, run_jobs) refl
      ])
    ]

    TakesOutDone-is_job_done :
        (s : Session F csv) (jobs : List (Job F))
        → All (IsFreeJob F csv world o) jobs
        → All (TakesOutDone (is_job_done s) s) jobs
    TakesOutDone-is_job_done s [] free = tt
    TakesOutDone-is_job_done s (job ∷ jobs) (here, free) =
        ((here, is_done-IsDone _), TakesOutDone-is_job_done s jobs free)

    -- A run does exactly what a run over the jobs whose records are not done at its start does: it
    -- ends the same way, with the same records, calls and submitted tags. No job's metadata has a
    -- key twice or a key of the loop's own fields.
    pub run_jobs_resumed :
        (jobs : List (Job F)) (s : Session F csv)
        → All (IsFreeJob F csv world o) jobs
        → run_jobs F csv world o jobs s ≡ run_jobs F csv world o (remaining_jobs s jobs) s
    run_jobs_resumed jobs s free =
        run_jobs-without (is_job_done s) jobs s (TakesOutDone-is_job_done s jobs free)
