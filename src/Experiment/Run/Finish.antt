-- ===== src/Experiment/Run/Finish.antt =====
-- How the loop of tools/experiment.py ends when it asks nothing.
use mathlib.Core.Option.{some-injective}
use native.Mathlib.Decide.{ℕ_discrete}
use sunstorm_xactserver.Base.{
  ℕ, suc, ◌≡◌, ◌≢◌, refl, sym, ◌∙◌, ap, subst, ◌⊎◌, false, Option, none, some, List, [], ◌∷◌, ◌++◌,
  arith, All, length, string_eq, Bool-cases, Option-cases, inl, inr,
}
use sunstorm_xactserver.Base.Int.{is_zero}
use sunstorm_xactserver.Experiment.Jobs.{Job}
use sunstorm_xactserver.Experiment.Progress.{
  Csv, Metadata, Record, Progress, pending, as_text, is_subset, find_record, new_record, save,
  get_or_insert,
}
use sunstorm_xactserver.Experiment.Progress.Records.{
  IsFree, find_record-append, find_record-get_or_insert, get_or_insert_cases, new_record-pending,
}
use sunstorm_xactserver.Experiment.Values.{Floats, ParameterValue, str}
use sunstorm_xactserver.Experiment.Run.{
  World, Options, Session, Attempt, completed, raised, broke, finished, status_of, create_call,
  load_call, execute_call, reload, prepare, execute, attempt, settle, by_status, step, run_jobs,
}
use sunstorm_xactserver.Experiment.Run.Status.{status_of-append, status_of-length}
use sunstorm_xactserver.Experiment.Run.Resume.{IsFreeJob, AllSettled, run_jobs-IsSettled}
use sunstorm_xactserver.Experiment.Run.Rounds.{
  IsSettled, Effect, Effect-found, Effect-IsSettled, Effect-other, Effect-step,
}

module _ (F : Floats) (csv : Csv F) where
  -- One of the three statuses that the loop knows.
  abbrev IsKnown : Option (ParameterValue F) → Type 0
  IsKnown status = IsSettled F csv status ⊎ (status ≡ some (str pending))

  -- Every record that some metadata finds has a status that the loop knows.
  abbrev pub AllKnown : List (Record F) → Type 0
  AllKnown rs =
      (m : Metadata) (i : ℕ)
      → IsFree m
      → find_record F m rs ≡ some i
      → IsKnown (status_of F csv i rs)

  Effect-IsKnown :
      {i : ℕ} (j : ℕ) {rs rs' : List (Record F)}
      → Effect F csv i rs rs'
      → IsKnown (status_of F csv j rs)
      → IsKnown (status_of F csv j rs')
  Effect-IsKnown {i} j {rs} {rs'} effect known = elim (ℕ_discrete i j) [
    | yes q ↦ subst (λ k. IsKnown (status_of F csv k rs')) q (inl (Effect-IsSettled F csv effect))
    | no q ↦ subst IsKnown (sym (Effect-other F csv j effect q)) known
  ]

  Effect-AllKnown :
      {i : ℕ} {rs rs' : List (Record F)} → Effect F csv i rs rs' → AllKnown rs → AllKnown rs'
  Effect-AllKnown effect known m j free found =
      Effect-IsKnown j effect (known m j free (sym (Effect-found F csv m effect free) ∙ found))

  find_record_last :
      (m : Metadata) (rs : List (Record F)) (r : Record F) {j : ℕ}
      → find_record F m rs ≡ none
      → find_record F m (rs ++ r ∷ []) ≡ some j
      → j ≡ length rs
  unfolding find_record
  find_record_last m [] r h e = ground (arith, h, e)
  find_record_last m (q ∷ rs) r {j} h e = elim (Bool-cases (is_subset F m q)) [
    | inl t ↦ absurd (ground (arith, t, h))
    | inr t ↦ elim (Option-cases (find_record F m rs)) [
      | inr (k, f) ↦ absurd (ground (arith, t, f, h))
      | inl n ↦ elim (Option-cases (find_record F m (rs ++ r ∷ []))) [
        | inl f ↦ absurd (ground (arith, t, f, e))
        | inr (k, f) ↦
            let last = find_record_last m rs r n f in
            let next : j ≡ suc k = ground (arith, t, f, e) in omega arith
      ]
    ]
  ]

  IsKnown-append :
      (j : ℕ) (rs new : List (Record F))
      → IsKnown (status_of F csv j rs)
      → IsKnown (status_of F csv j (rs ++ new))
  IsKnown-append j rs new (inl (inl h)) = inl (inl (status_of-append F csv j rs new h))
  IsKnown-append j rs new (inl (inr h)) = inl (inr (status_of-append F csv j rs new h))
  IsKnown-append j rs new (inr h) = inr (status_of-append F csv j rs new h)

  append-AllKnown :
      (rs : List (Record F)) (m : Metadata)
      → IsFree m
      → AllKnown rs
      → AllKnown (rs ++ new_record F m ∷ [])
  append-AllKnown rs m free known n j free' found = elim (Option-cases (find_record F n rs)) [
    | inl e ↦ inr (
        ap (λ k. status_of F csv k (rs ++ new_record F m ∷ []))
          (find_record_last n rs (new_record F m) e found)
        ∙ status_of-length F csv rs (new_record F m)
        ∙ new_record-pending F m free)
    | inr (k, e) ↦
        let same : k ≡ j =
          some-injective k j (sym (find_record-append F n rs (new_record F m ∷ []) e) ∙ found) in
        subst (λ i. IsKnown (status_of F csv i (rs ++ new_record F m ∷ []))) same
          (IsKnown-append k rs (new_record F m ∷ []) (known n k free' e))
  ]

  module _ (world : World F) (o : Options) where
    reload-ne-broke :
        (job : Job F) (i : ℕ) (s : Session F csv) → (reload F csv world o job i s).0 ≢ broke
    unfolding reload
    reload-ne-broke job i s =
        elim (Option-cases (world.bench s.calls (create_call F csv world o job))) [
          | inl e ↦ rw e (λ x. cc)
          | inr (r, e) ↦
              rw e
                (elim (Option-cases (
                  world.bench (s.calls ++ create_call F csv world o job ∷ [])
                    (load_call F csv world o job))) [
                      | inl e' ↦ rw e' (λ x. cc)
                      | inr (r', e') ↦ rw e' (λ x. cc)
                    ])
        ]

    pub prepare-ne-broke :
        (job : Job F) (i : ℕ) (s : Session F csv) → (prepare F csv world o job i s).0 ≢ broke
    unfolding prepare
    prepare-ne-broke job i s = elim (Bool-cases o.skip_create_load) [
      | inl e ↦ rw e (λ x. cc)
      | inr e ↦ rw e (elim (Bool-cases (is_zero s.reload_counter)) [
        | inl z ↦ rw z (reload-ne-broke job i s)
        | inr z ↦ rw z (λ x. cc)
      ])
    ]

    pub execute-ne-broke :
        (job : Job F) (i : ℕ) (s : Session F csv) → (execute F csv world o job i s).0 ≢ broke
    unfolding execute
    execute-ne-broke job i s =
        elim (Option-cases (world.bench s.calls (execute_call F csv world o job))) [
          | inl e ↦ rw e (λ x. cc)
          | inr (r, e) ↦ rw e (λ x. cc)
        ]

    module _ (batch : o.interactive ≡ false) where
      attempt-ne-broke :
          (job : Job F) (i : ℕ) (s : Session F csv) → (attempt F csv world o job i s).0 ≢ broke
      unfolding attempt
      attempt-ne-broke job i s =
          rw batch (go (prepare F csv world o job i s) (prepare-ne-broke job i s))
        where
          after : Attempt × Session F csv → Attempt × Session F csv
          after r = elim r.0 [
            | completed ↦ execute F csv world o job i r.1
            | raised ↦ (raised, r.1)
            | broke ↦ (broke, r.1)
          ]

          go : (r : Attempt × Session F csv) → r.0 ≢ broke → (after r).0 ≢ broke
          go (completed, s1) ne = execute-ne-broke job i s1
          go (raised, s1) ne = ne
          go (broke, s1) ne = ne

      settle_goes_on :
          (i : ℕ) (r : Attempt × Session F csv) → r.0 ≢ broke → (settle F csv world o i r).0 ≡ none
      unfolding settle
      settle_goes_on i (completed, s) ne = refl
      settle_goes_on i (raised, s) ne = refl
      settle_goes_on i (broke, s) ne = absurd (ne refl)

      by_status_goes_on :
          (job : Job F) (i : ℕ) (status : Option (ParameterValue F)) (s : Session F csv)
          → IsKnown status
          → (by_status F csv world o job i status s).0 ≡ none
      unfolding by_status string_eq
      by_status_goes_on job i status s (inl (inl h)) = rw h refl
      by_status_goes_on job i status s (inl (inr h)) =
          rw h (settle_goes_on i (attempt F csv world o job i s) (attempt-ne-broke job i s))
      by_status_goes_on job i status s (inr h) =
          rw h (settle_goes_on i (attempt F csv world o job i s) (attempt-ne-broke job i s))

      get_or_insert-AllKnown :
          (job : Job F) (p : Progress F csv)
          → IsFreeJob F csv world o job
          → AllKnown p.progress
          → AllKnown (get_or_insert F csv job.metadata p).1.progress
      unfolding save
      get_or_insert-AllKnown job p free known = elim (get_or_insert_cases F csv job.metadata p) [
        | inl (i, e, same) ↦ rw same known
        | inr (e, added) ↦ rw added (append-AllKnown p.progress (as_text F job.metadata) free known)
      ]

      step_goes_on :
          (job : Job F) (s : Session F csv)
          → IsFreeJob F csv world o job
          → AllKnown s.progress
          → (step F csv world o job s).0 ≡ none
      unfolding step
      step_goes_on job s free known =
          let known' = get_or_insert-AllKnown job s.saved free known in
          by_status_goes_on job _ _ _ (
            known' (as_text F job.metadata) _ free
              (find_record-get_or_insert F csv job.metadata s.saved free.distinct))

      -- A run that is not interactive, from records with the statuses that the loop knows, comes
      -- to the end of the jobs whatever `benchmark.main` does, and then every job's record is
      -- done or in error. No job's metadata has a key twice or a key of the loop's own fields.
      pub run_jobs_finish :
          (jobs : List (Job F)) (s : Session F csv)
          → All (IsFreeJob F csv world o) jobs
          → AllKnown s.progress
          → ((run_jobs F csv world o jobs s).0 ≡ finished)
            × AllSettled F csv world o jobs (run_jobs F csv world o jobs s).1
      unfolding run_jobs
      run_jobs_finish jobs s free known =
          let ended = go jobs s free known in
          (ended, run_jobs-IsSettled F csv world o jobs s free ended)
        where
          go :
              (js : List (Job F)) (s1 : Session F csv)
              → All (IsFreeJob F csv world o) js
              → AllKnown s1.progress
              → (run_jobs F csv world o js s1).0 ≡ finished
          go [] s1 free1 known1 = refl
          go (job ∷ rest) s1 (here, free1) known1 =
              let on = step_goes_on job s1 here known1 in
              let later =
                Effect-AllKnown (Effect-step F csv world o job s1 on)
                  (get_or_insert-AllKnown job s1.saved here known1) in
              rw (on, run_jobs) (go rest (step F csv world o job s1).1 free1 later)
