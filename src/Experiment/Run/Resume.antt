-- ===== src/Experiment/Run/Resume.antt =====
-- The statuses after the loop of tools/experiment.py, and a second run over the same jobs.
use mathlib.Core.Option.{some-injective}
use sunstorm_xactserver.Base.{
  ℕ, ◌≡◌, ◌≢◌, refl, sym, ◌∙◌, ap, subst, ◌||◌, Option, none, some, List, [], ◌∷◌, All, string_eq,
  ◌==◌, ==-refl, Bool-cases, Option-cases, inl, inr,
}
use sunstorm_xactserver.Experiment.Jobs.{Job}
use sunstorm_xactserver.Experiment.Progress.{Csv, Metadata, done, error, pending, as_text}
use sunstorm_xactserver.Experiment.Progress.Records.{
  IsFree, find_record-get_or_insert, get_or_insert_cases,
}
use sunstorm_xactserver.Experiment.Values.{Floats, ParameterValue, str}
use sunstorm_xactserver.Experiment.Run.{
  World, Options, Session, Attempt, completed, raised, broke, Ending, finished, status_of, attempt,
  settle, by_status, step, run_jobs,
}
use sunstorm_xactserver.Experiment.Run.Rounds.{
  status_for, IsDone, IsSettled, status_for-eq, found_of_status_for, Effect-found, IsSettled-of_eq,
  Effect-IsSettled, StaysSettled, Effect-StaysSettled, get_or_insert_keeps, Effect-step,
}

module _ (F : Floats) (csv : Csv F) where
  module _ (world : World F) (o : Options) where
    -- The job's record is settled once the loop goes on.
    step-IsSettled :
        (job : Job F) (s : Session F csv)
        → IsFree (as_text F job.metadata)
        → (step F csv world o job s).0 ≡ none
        → IsSettled F csv
            (status_for F csv (as_text F job.metadata) (step F csv world o job s).1.progress)
    step-IsSettled job s free e =
        let effect = Effect-step F csv world o job s e in
        let m = as_text F job.metadata in
        IsSettled-of_eq F csv _
          (status_for-eq F csv m _ (
            Effect-found F csv m effect free
            ∙ find_record-get_or_insert F csv job.metadata s.saved free.distinct))
          (Effect-IsSettled F csv effect)

    -- A step that goes on keeps every done record done, and every settled record settled.
    pub step_keeps :
        (job : Job F) (s : Session F csv) (m : Metadata) {w : ParameterValue F}
        → IsFree m
        → (step F csv world o job s).0 ≡ none
        → status_for F csv m s.progress ≡ some w
        → IsSettled F csv (some w)
        → StaysSettled F csv w (status_for F csv m (step F csv world o job s).1.progress)
    step_keeps job s m {w} free e h settled =
        let (j, found, st) = found_of_status_for F csv m s.progress h in
        let (found', st') = get_or_insert_keeps F csv job.metadata s.saved m found st in
        let effect = Effect-step F csv world o job s e in
        subst (StaysSettled F csv w)
          (sym (
            status_for-eq F csv m (step F csv world o job s).1.progress
              (Effect-found F csv m effect free ∙ found')))
          (Effect-StaysSettled F csv j w effect st' settled)

    step_keeps_IsSettled :
        (job : Job F) (s : Session F csv) (m : Metadata)
        → IsFree m
        → (step F csv world o job s).0 ≡ none
        → IsSettled F csv (status_for F csv m s.progress)
        → IsSettled F csv (status_for F csv m (step F csv world o job s).1.progress)
    step_keeps_IsSettled job s m free e (inl h) = (step_keeps job s m free e h (inl refl)).0
    step_keeps_IsSettled job s m free e (inr h) = (step_keeps job s m free e h (inr refl)).0

    abbrev pub IsFreeJob : Job F → Type 0
    IsFreeJob job = IsFree (as_text F job.metadata)

    settle-ne-finished :
        (i : ℕ) (r : Attempt × Session F csv) → (settle F csv world o i r).0 ≢ some finished
    unfolding settle
    settle-ne-finished i (completed, s) e = cc
    settle-ne-finished i (raised, s) e = cc
    settle-ne-finished i (broke, s) e = cc

    by_status-ne-finished :
        (job : Job F) (i : ℕ) (status : Option (ParameterValue F)) (s : Session F csv)
        → (by_status F csv world o job i status s).0 ≢ some finished
    unfolding by_status
    by_status-ne-finished job i none s e = cc
    by_status-ne-finished job i (some (str status)) s e = elim (Bool-cases (status == done)) [
      | inl t ↦ cc (rw t at e)
      | inr t ↦ elim (Bool-cases (status == error || status == pending)) [
        | inl u ↦ settle-ne-finished i (attempt F csv world o job i s) (rw (t, u) at e)
        | inr u ↦ cc (rw (t, u) at e)
      ]
    ]
    by_status-ne-finished job i (some other) s e = cc

    step-ne-finished :
        (job : Job F) (s : Session F csv) → (step F csv world o job s).0 ≢ some finished
    unfolding step
    step-ne-finished job s = by_status-ne-finished job _ _ _

    -- A loop that comes to its end has gone on behind its first job.
    run_jobs-cons :
        (job : Job F) (rest : List (Job F)) (s : Session F csv)
        → (run_jobs F csv world o (job ∷ rest) s).0 ≡ finished
        → ((step F csv world o job s).0 ≡ none)
          × (run_jobs F csv world o (job ∷ rest) s
              ≡ run_jobs F csv world o rest (step F csv world o job s).1)
    unfolding run_jobs
    run_jobs-cons job rest s e = elim (Option-cases (step F csv world o job s).0) [
      | inl go ↦ (go, rw (go, run_jobs))
      | inr (ending, stop) ↦
          let last : ending ≡ finished = rw (stop, run_jobs) at e in
          absurd (step-ne-finished job s (stop ∙ ap some last))
    ]

    run_jobs_keeps_IsSettled :
        (jobs : List (Job F)) (s : Session F csv) (m : Metadata)
        → IsFree m
        → (run_jobs F csv world o jobs s).0 ≡ finished
        → IsSettled F csv (status_for F csv m s.progress)
        → IsSettled F csv (status_for F csv m (run_jobs F csv world o jobs s).1.progress)
    run_jobs_keeps_IsSettled [] s m free e h = unfold run_jobs in h
    run_jobs_keeps_IsSettled (job ∷ rest) s m free e h =
        let (go, same) = run_jobs-cons job rest s e in
        rw same (
          run_jobs_keeps_IsSettled rest (step F csv world o job s).1 m free (rw same at e)
            (step_keeps_IsSettled job s m free go h))

    abbrev pub AllSettled : List (Job F) → Session F csv → Type 0
    AllSettled jobs s =
        All (λ job. IsSettled F csv (status_for F csv (as_text F job.metadata) s.progress)) jobs

    abbrev pub AllDone : List (Job F) → Session F csv → Type 0
    AllDone jobs s =
        All (λ job. IsDone F csv (status_for F csv (as_text F job.metadata) s.progress)) jobs

    -- When the loop has come to the end of the jobs, the record of every job is done or in error:
    -- none is left pending, whatever failed on the way. No job's metadata has a key twice or a
    -- key of the loop's own fields.
    pub run_jobs-IsSettled :
        (jobs : List (Job F)) (s : Session F csv)
        → All IsFreeJob jobs
        → (run_jobs F csv world o jobs s).0 ≡ finished
        → AllSettled jobs (run_jobs F csv world o jobs s).1
    run_jobs-IsSettled [] s free e = tt
    run_jobs-IsSettled (job ∷ rest) s (here, free) e =
        let (go, same) = run_jobs-cons job rest s e in
        let s1 = (step F csv world o job s).1 in
        subst (λ (r : Ending × Session F csv). AllSettled (job ∷ rest) r.1) (sym same)
          (
            run_jobs_keeps_IsSettled rest s1 (as_text F job.metadata) here (rw same at e)
                (step-IsSettled job s here go),
            run_jobs-IsSettled rest s1 free (rw same at e),
          )

    by_status-done :
        (job : Job F) (i : ℕ) (s : Session F csv)
        → by_status F csv world o job i (some (str done)) s ≡ (none, s)
    unfolding by_status
    by_status-done job i s = rw (==-refl done)

    pub step_done :
        (job : Job F) (s : Session F csv)
        → IsDone F csv (status_for F csv (as_text F job.metadata) s.progress)
        → step F csv world o job s ≡ (none, s)
    unfolding step
    step_done job s h =
        let (i, found, st) = found_of_status_for F csv (as_text F job.metadata) s.progress h in
        elim (get_or_insert_cases F csv job.metadata s.saved) [
          | inl (k, e, same) ↦
              let at_k : status_of F csv k s.progress ≡ some (str done) =
                ap (λ j. status_of F csv j s.progress) (some-injective k i (sym e ∙ found)) ∙ st in
              rw (same, at_k) (by_status-done job k s)
          | inr (e, added) ↦ absurd (cc)
        ]

    -- A run over jobs whose records are all done runs no benchmark and changes nothing.
    pub run_jobs_done :
        (jobs : List (Job F)) (s : Session F csv)
        → AllDone jobs s
        → run_jobs F csv world o jobs s ≡ (finished, s)
    unfolding run_jobs
    run_jobs_done [] s h = refl
    run_jobs_done (job ∷ rest) s (here, h) =
        let same = step_done job s here in
        rw (ap (λ (r : Option Ending × Session F csv). r.0) same, run_jobs)
          (rw (ap (λ (r : Option Ending × Session F csv). r.1) same) (run_jobs_done rest s h))
