-- ===== src/Experiment/Run/Filed.antt =====
-- When the loop of tools/experiment.py has changed a record, the progress file holds all records.
use sunstorm_xactserver.Base.{
  ℕ, ◌≡◌, ◌≢◌, refl, sym, subst, ◌⊎◌, not, ◌&&◌, ◌||◌, ◌==◌, Option, none, some, List, [], ◌∷◌,
  string_eq, Bool-cases, Option-cases, inl, inr,
}
use sunstorm_xactserver.Experiment.Jobs.{Job}
use sunstorm_xactserver.Experiment.Progress.{
  Csv, Record, Progress, done, error, pending, fieldnames, write_progress, save, get_or_insert,
}
use sunstorm_xactserver.Experiment.Progress.Records.{get_or_insert_cases}
use sunstorm_xactserver.Experiment.Values.{Floats, ParameterValue, str}
use sunstorm_xactserver.Experiment.Run.{
  World, Options, Session, Attempt, completed, raised, broke, prepare, execute, attempt, settle,
  by_status, step, run_jobs,
}
use sunstorm_xactserver.Experiment.Run.Finish.{prepare-ne-broke, execute-ne-broke}

module _ (F : Floats) (csv : Csv F) where
  -- If there are records, the file is what `save` writes of them.
  abbrev IsSaved : Progress F csv → Type 0
  IsSaved p = p.progress ≢ [] → p.file ≡ some (csv.write (fieldnames F p.progress) p.progress)

  write_progress-some :
      (rs : List (Record F)) (old : Option csv.File)
      → rs ≢ []
      → write_progress F csv rs old ≡ some (csv.write (fieldnames F rs) rs)
  unfolding write_progress
  write_progress-some [] old h = absurd (h refl)
  write_progress-some (r ∷ rs) old h = refl

  save-IsSaved : (p : Progress F csv) → IsSaved (save F csv p)
  unfolding save
  save-IsSaved p h = write_progress-some p.progress p.file h

  module _ (world : World F) (o : Options) (p0 : Progress F csv) where
    -- Nothing has changed since the start, or all has been saved.
    abbrev IsFiled : Session F csv → Type 0
    IsFiled s = (s.saved ≡ p0) ⊎ IsSaved s.saved

    attempt_broke :
        (job : Job F) (i : ℕ) (s : Session F csv)
        → (attempt F csv world o job i s).0 ≡ broke
        → (attempt F csv world o job i s).1 ≡ s
    unfolding attempt
    attempt_broke job i s h = elim (Bool-cases (o.interactive && not (world.confirm s.calls))) [
      | inl e ↦ rw e refl
      | inr e ↦
          absurd (
            go (prepare F csv world o job i s) (prepare-ne-broke F csv world o job i s) (rw e at h))
    ]
      where
        after : Attempt × Session F csv → Attempt × Session F csv
        after r = elim r.0 [
          | completed ↦ execute F csv world o job i r.1
          | raised ↦ (raised, r.1)
          | broke ↦ (broke, r.1)
        ]

        go : (r : Attempt × Session F csv) → r.0 ≢ broke → (after r).0 ≡ broke → ⊥
        go (completed, s1) ne e = execute-ne-broke F csv world o job i s1 e
        go (raised, s1) ne e = ne e
        go (broke, s1) ne e = ne e

    settle-IsFiled :
        (i : ℕ) (s : Session F csv) (r : Attempt × Session F csv)
        → (r.0 ≡ broke → r.1 ≡ s)
        → IsFiled s
        → IsFiled (settle F csv world o i r).1
    unfolding settle
    settle-IsFiled i s (completed, s1) same h = inr (save-IsSaved _)
    settle-IsFiled i s (raised, s1) same h = inr (save-IsSaved _)
    settle-IsFiled i s (broke, s1) same h = subst IsFiled (sym (same refl)) h

    by_status-IsFiled :
        (job : Job F) (i : ℕ) (status : Option (ParameterValue F)) (s : Session F csv)
        → IsFiled s
        → IsFiled (by_status F csv world o job i status s).1
    unfolding by_status
    by_status-IsFiled job i none s h = h
    by_status-IsFiled job i (some (str status)) s h = elim (Bool-cases (status == done)) [
      | inl t ↦ rw t h
      | inr t ↦ elim (Bool-cases (status == error || status == pending)) [
        | inl u ↦
            rw (t, u) (settle-IsFiled i s (attempt F csv world o job i s) (attempt_broke job i s) h)
        | inr u ↦ rw (t, u) h
      ]
    ]
    by_status-IsFiled job i (some other) s h = h

    get_or_insert-IsFiled :
        (job : Job F) (s : Session F csv)
        → IsFiled s
        → IsFiled (record s { saved = (get_or_insert F csv job.metadata s.saved).1 })
    get_or_insert-IsFiled job s h = elim (get_or_insert_cases F csv job.metadata s.saved) [
      | inl (i, e, kept) ↦ rw kept h
      | inr (e, added) ↦ rw added (inr (save-IsSaved _))
    ]

    step-IsFiled :
        (job : Job F) (s : Session F csv) → IsFiled s → IsFiled (step F csv world o job s).1
    unfolding step
    step-IsFiled job s h = by_status-IsFiled job _ _ _ (get_or_insert-IsFiled job s h)

    pub run_jobs-IsFiled :
        (jobs : List (Job F)) (s : Session F csv)
        → IsFiled s
        → IsFiled (run_jobs F csv world o jobs s).1
    unfolding run_jobs
    run_jobs-IsFiled [] s h = h
    run_jobs-IsFiled (job ∷ rest) s h = elim (Option-cases (step F csv world o job s).0) [
      | inl e ↦ rw (e, run_jobs) (run_jobs-IsFiled rest _ (step-IsFiled job s h))
      | inr (e', e) ↦ rw (e, run_jobs) (step-IsFiled job s h)
    ]
