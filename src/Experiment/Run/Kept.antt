-- ===== src/Experiment/Run/Kept.antt =====
-- What every part of the loop of tools/experiment.py keeps, the whole loop keeps.
use sunstorm_xactserver.Base.{
  ℕ, ◌≡◌, refl, String, true, not, ◌&&◌, ◌||◌, ◌==◌, Option, none, some, List, [], ◌∷◌, ◌++◌, All,
  contains, string_eq, Bool-cases, Option-cases, inl, inr,
}
use sunstorm_xactserver.Base.Int.{ℤ, is_zero}
use sunstorm_xactserver.Experiment.Jobs.{Job}
use sunstorm_xactserver.Experiment.Progress.{Csv, done, error, pending, save, get_or_insert}
use sunstorm_xactserver.Experiment.Progress.File.{measured}
use sunstorm_xactserver.Experiment.Values.{Floats, ParameterValue, str, bool}
use sunstorm_xactserver.Experiment.Run.{
  Call, World, Options, Session, Attempt, completed, raised, broke, set_field, create_call,
  load_call, execute_call, reload, prepare, execute, attempt, settle, by_status, step, run_jobs,
  submit,
}

module _ (F : Floats) (csv : Csv F) (world : World F) (o : Options) where
  abbrev pub called : Call → Session F csv → Session F csv
  called c s = record s { calls = s.calls ++ c ∷ [] }

  -- A predicate that holds after each single change that the body of the `try` makes, if it held
  -- before.
  pub record IsKept (J : Job F → Type 0) (P : Session F csv → Type 0) : Type 0 where
    pub creates :
        (job : Job F) (s : Session F csv)
        → J job
        → P s
        → P (called (create_call F csv world o job) s)
    pub loads :
        (job : Job F) (s : Session F csv) → J job → P s → P (called (load_call F csv world o job) s)
    pub executes :
        (job : Job F) (s : Session F csv)
        → J job
        → P s
        → P (called (execute_call F csv world o job) s)
    pub measures :
        (i : ℕ) (k : String) (v : ParameterValue F) (s : Session F csv)
        → contains measured k ≡ true
        → P s
        → P (set_field F csv i k v s)
    pub tags :
        (i : ℕ) (tag : String) (s : Session F csv) → P s → P (set_field F csv i "tag" (str tag) s)
    pub counts : (z : ℤ) (s : Session F csv) → P s → P (record s { reload_counter = z })
    pub submits : (tag : String) (s : Session F csv) → P s → P (submit F csv world o tag s)

  -- The same of the other changes; the jobs are those with `J`.
  pub record IsKeptAround (J : Job F → Type 0) (P : Session F csv → Type 0) : Type 0 where
    pub body : IsKept J P
    pub marks :
        (i : ℕ) (status : String) (s : Session F csv)
        → P s
        → P (set_field F csv i "status" (str status) s)
    pub saves : (s : Session F csv) → P s → P (record s { saved = save F csv s.saved })
    pub inserts :
        (job : Job F) (s : Session F csv)
        → J job
        → P s
        → P (record s { saved = (get_or_insert F csv job.metadata s.saved).1 })

  module _ {J : Job F → Type 0} {P : Session F csv → Type 0} (kept : IsKept J P) where
    reload-IsKept :
        (job : Job F) (i : ℕ) (s : Session F csv) → J job → P s → P (reload F csv world o job i s).1
    unfolding reload string_eq
    reload-IsKept job i s fits h =
        let s1 = called (create_call F csv world o job) s in
        let h1 = kept.creates job s fits h in
        let h2 = kept.loads job s1 fits h1 in
        elim (Option-cases (world.bench s.calls (create_call F csv world o job))) [
          | inl e ↦ rw e h1
          | inr (r, e) ↦
              rw e (elim (Option-cases (world.bench s1.calls (load_call F csv world o job))) [
                | inl e' ↦ rw e' h2
                | inr (r', e') ↦ rw e' (
                    kept.counts o.reload_every _ (kept.measures i "reloaded" (bool true) _ refl h2))
              ])
        ]

    prepare-IsKept :
        (job : Job F) (i : ℕ) (s : Session F csv)
        → J job
        → P s
        → P (prepare F csv world o job i s).1
    unfolding prepare
    prepare-IsKept job i s fits h = elim (Bool-cases o.skip_create_load) [
      | inl e ↦ rw e h
      | inr e ↦ rw e (elim (Bool-cases (is_zero s.reload_counter)) [
        | inl z ↦ rw z (reload-IsKept job i s fits h)
        | inr z ↦ rw z h
      ])
    ]

    execute-IsKept :
        (job : Job F) (i : ℕ) (s : Session F csv)
        → J job
        → P s
        → P (execute F csv world o job i s).1
    unfolding execute string_eq
    execute-IsKept job i s fits h =
        let h1 = kept.executes job s fits h in
        elim (Option-cases (world.bench s.calls (execute_call F csv world o job))) [
          | inl e ↦ rw e h1
          | inr (r, e) ↦ rw e (
              kept.submits job.tag _ (
                kept.tags i job.tag _ (
                  kept.measures i "goodput" r.goodput _ refl
                    (kept.measures i "throughput" r.throughput _ refl h1))))
        ]

    pub attempt-IsKept :
        (job : Job F) (i : ℕ) (s : Session F csv)
        → J job
        → P s
        → P (attempt F csv world o job i s).1
    unfolding attempt
    attempt-IsKept job i s fits h =
        elim (Bool-cases (o.interactive && not (world.confirm s.calls))) [
          | inl e ↦ rw e h
          | inr e ↦ rw e (go (prepare F csv world o job i s) (prepare-IsKept job i s fits h))
        ]
      where
        after : Attempt × Session F csv → Attempt × Session F csv
        after r = elim r.0 [
          | completed ↦ execute F csv world o job i r.1
          | raised ↦ (raised, r.1)
          | broke ↦ (broke, r.1)
        ]

        go : (r : Attempt × Session F csv) → P r.1 → P (after r).1
        go (completed, s1) h1 = execute-IsKept job i s1 fits h1
        go (raised, s1) h1 = h1
        go (broke, s1) h1 = h1

  module _ {J : Job F → Type 0} {P : Session F csv → Type 0} (kept : IsKeptAround J P) where
    settle-IsKept : (i : ℕ) (r : Attempt × Session F csv) → P r.1 → P (settle F csv world o i r).1
    unfolding settle
    settle-IsKept i (completed, s) h = kept.saves _ (kept.body.counts _ _ (kept.marks i done s h))
    settle-IsKept i (raised, s) h = kept.saves _ (kept.body.counts _ _ (kept.marks i error s h))
    settle-IsKept i (broke, s) h = h

    by_status-IsKept :
        (job : Job F) (i : ℕ) (status : Option (ParameterValue F)) (s : Session F csv)
        → J job
        → P s
        → P (by_status F csv world o job i status s).1
    unfolding by_status
    by_status-IsKept job i none s fits h = h
    by_status-IsKept job i (some (str status)) s fits h = elim (Bool-cases (status == done)) [
      | inl t ↦ rw t h
      | inr t ↦ elim (Bool-cases (status == error || status == pending)) [
        | inl u ↦
            rw (t, u)
              (settle-IsKept i (attempt F csv world o job i s)
                (attempt-IsKept kept.body job i s fits h))
        | inr u ↦ rw (t, u) h
      ]
    ]
    by_status-IsKept job i (some other) s fits h = h

    step-IsKept : (job : Job F) (s : Session F csv) → J job → P s → P (step F csv world o job s).1
    unfolding step
    step-IsKept job s fits h = by_status-IsKept job _ _ _ fits (kept.inserts job s fits h)

    pub run_jobs-IsKept :
        (jobs : List (Job F)) (s : Session F csv)
        → All J jobs
        → P s
        → P (run_jobs F csv world o jobs s).1
    unfolding run_jobs
    run_jobs-IsKept [] s fit h = h
    run_jobs-IsKept (job ∷ rest) s (here, fit) h =
        elim (Option-cases (step F csv world o job s).0) [
          | inl e ↦ rw (e, run_jobs) (run_jobs-IsKept rest _ fit (step-IsKept job s here h))
          | inr (e', e) ↦ rw (e, run_jobs) (step-IsKept job s here h)
        ]
