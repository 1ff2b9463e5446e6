-- ===== src/Experiment/Run/Reload.antt =====
-- How often the loop of tools/experiment.py reloads the database, read off the calls it made.
use mathlib.Core.List.{foldl, foldl-append}
use sunstorm_xactserver.Base.{
  ℕ, suc, ◌+◌, zero, ◌≤◌, ◌<◌, ◌≡◌, refl, ◌∙◌, String, Bool, true, false, not, ◌&&◌, Option, none,
  some, List, [], ◌∷◌, ◌++◌, ◌||◌, ◌==◌, arith, string_eq, if◌then◌else◌, Bool-cases, Option-cases,
  inl, inr,
}
use sunstorm_xactserver.Base.Int.{ℤ, pos, negsuc, is_zero, pred}
use sunstorm_xactserver.Experiment.Jobs.{Job}
use sunstorm_xactserver.Experiment.Progress.{Csv, Progress, done, error, pending}
use sunstorm_xactserver.Experiment.Values.{Floats, ParameterValue, str}
use sunstorm_xactserver.Experiment.Run.{
  Call, World, Options, Session, Attempt, completed, raised, broke, set_field, create_call,
  load_call, execute_call, reload, prepare, execute, attempt, settle, by_status, step, run_jobs,
  submit, start,
}

-- The number of benchmarks since the last load, after one more call.
count : ℕ → Call → ℕ
count n [] = n
count n (op ∷ rest) =
    if op == "execute" then suc n else if op == "load" || op == "sload" then 0 else n

-- The number of `execute` calls behind the last `load` or `sload` call.
pub since_load : List Call → ℕ
unfolding count
since_load = foldl count 0

since_load-append :
    (cs : List Call) (c : Call) → since_load (cs ++ c ∷ []) ≡ count (since_load cs) c
unfolding since_load
since_load-append cs c = rw foldl-append

count-create : (n : ℕ) (rest : List String) → count n ("create" ∷ rest) ≡ n
unfolding count string_eq
count-create n rest = refl

count-execute : (n : ℕ) (rest : List String) → count n ("execute" ∷ rest) ≡ suc n
unfolding count string_eq
count-execute n rest = refl

count-load :
    (n : ℕ) (sload : Bool) (rest : List String)
    → count n ((if sload then "sload" else "load") ∷ rest) ≡ 0
unfolding count string_eq
count-load n true rest = refl
count-load n false rest = refl

-- With the counter at `z`, at most `n` benchmarks will have run when it comes to 0.
abbrev Within : ℕ → ℤ → ℕ → Type 0
Within n (pos k) ran = ran + k ≤ n
Within n (negsuc k) ran = ⊥

-- The same with the counter not at 0.
abbrev Ahead : ℕ → ℤ → ℕ → Type 0
Ahead n (pos k) ran = (0 < k) × (ran + k ≤ n)
Ahead n (negsuc k) ran = ⊥

module _ (F : Floats) (csv : Csv F) (world : World F) (o : Options) (n : ℕ) where
  abbrev IsWithin : Session F csv → Type 0
  IsWithin s = Within n s.reload_counter (since_load s.calls)

  abbrev AfterPrepare : Attempt × Session F csv → Type 0
  AfterPrepare (completed, s) = Ahead n s.reload_counter (since_load s.calls)
  AfterPrepare (raised, s) = since_load s.calls ≤ n
  AfterPrepare (broke, s) = ⊥

  -- The benchmark has been counted, and the counter has not been taken down yet.
  abbrev AfterAttempt : Attempt × Session F csv → Type 0
  AfterAttempt (completed, s) = Within n (pred s.reload_counter) (since_load s.calls)
  AfterAttempt (raised, s) = since_load s.calls ≤ n
  AfterAttempt (broke, s) = IsWithin s

  le_of_Within : (z : ℤ) (ran : ℕ) → Within n z ran → ran ≤ n
  le_of_Within (pos k) ran h = omega arith
  le_of_Within (negsuc k) ran h = absurd h

  Ahead-of_Within : (z : ℤ) (ran : ℕ) → is_zero z ≡ false → Within n z ran → Ahead n z ran
  Ahead-of_Within (pos k) ran e h = (ground arith, h)
  Ahead-of_Within (negsuc k) ran e h = absurd h

  -- A benchmark more is made good by the counter that is taken down.
  Within-suc : (z : ℤ) (ran : ℕ) → Ahead n z ran → Within n (pred z) (suc ran) × (suc ran ≤ n)
  Within-suc (pos zero) ran h = absurd (omega arith)
  Within-suc (pos (suc k)) ran h = omega arith
  Within-suc (negsuc k) ran h = absurd h

  since-create :
      (job : Job F) (cs : List Call)
      → since_load (cs ++ create_call F csv world o job ∷ []) ≡ since_load cs
  since-create job cs = since_load-append cs _ ∙ count-create (since_load cs) _

  since-load :
      (job : Job F) (cs : List Call) → since_load (cs ++ load_call F csv world o job ∷ []) ≡ 0
  since-load job cs = since_load-append cs _ ∙ count-load (since_load cs) o.sload _

  since-execute :
      (job : Job F) (cs : List Call)
      → since_load (cs ++ execute_call F csv world o job ∷ []) ≡ suc (since_load cs)
  unfolding execute_call
  since-execute job cs = since_load-append cs _ ∙ count-execute (since_load cs) _

  pub submit-calls :
      (tag : String) (s : Session F csv) → (submit F csv world o tag s).calls ≡ s.calls
  unfolding submit
  submit-calls tag s = ground arith

  submit-counter :
      (tag : String) (s : Session F csv)
      → (submit F csv world o tag s).reload_counter ≡ s.reload_counter
  unfolding submit
  submit-counter tag s = ground arith

  module _ (positive : 0 < n) (every : o.reload_every ≡ pos n)
      (loads : o.skip_create_load ≡ false) where
    AfterPrepare-reload :
        (job : Job F) (i : ℕ) (s : Session F csv)
        → IsWithin s
        → AfterPrepare (reload F csv world o job i s)
    unfolding reload set_field
    AfterPrepare-reload job i s h =
        elim (Option-cases (world.bench s.calls (create_call F csv world o job))) [
          | inl e ↦ rw (e, since-create job s.calls) (le_of_Within s.reload_counter _ h)
          | inr (r, e) ↦ rw e (elim (Option-cases (world.bench cs1 (load_call F csv world o job))) [
            | inl e' ↦ rw (e', since-load job cs1) (omega arith)
            | inr (r', e') ↦ rw (e', since-load job cs1, every) (omega arith)
          ])
        ]
      where
        cs1 : List Call
        cs1 = s.calls ++ create_call F csv world o job ∷ []

    AfterPrepare-prepare :
        (job : Job F) (i : ℕ) (s : Session F csv)
        → IsWithin s
        → AfterPrepare (prepare F csv world o job i s)
    unfolding prepare
    AfterPrepare-prepare job i s h = rw loads (elim (Bool-cases (is_zero s.reload_counter)) [
      | inl e ↦ rw e (AfterPrepare-reload job i s h)
      | inr e ↦ rw e (Ahead-of_Within s.reload_counter _ e h)
    ])

    AfterAttempt-execute :
        (job : Job F) (i : ℕ) (s : Session F csv)
        → Ahead n s.reload_counter (since_load s.calls)
        → AfterAttempt (execute F csv world o job i s)
    unfolding execute set_field
    AfterAttempt-execute job i s h =
        let ran = Within-suc s.reload_counter _ h in
        elim (Option-cases (world.bench s.calls (execute_call F csv world o job))) [
          | inl e ↦ rw (e, since-execute job s.calls) ran.1
          | inr (r, e) ↦ rw (e, submit-calls, submit-counter, since-execute job s.calls) ran.0
        ]

    AfterAttempt-attempt :
        (job : Job F) (i : ℕ) (s : Session F csv)
        → IsWithin s
        → AfterAttempt (attempt F csv world o job i s)
    unfolding attempt
    AfterAttempt-attempt job i s h =
        elim (Bool-cases (o.interactive && not (world.confirm s.calls))) [
          | inl e ↦ rw e h
          | inr e ↦ rw e (go (prepare F csv world o job i s) (AfterPrepare-prepare job i s h))
        ]
      where
        go :
            (r : Attempt × Session F csv)
            → AfterPrepare r
            → AfterAttempt (elim r.0 [
              | completed ↦ execute F csv world o job i r.1
              | raised ↦ (raised, r.1)
              | broke ↦ (broke, r.1)
            ])
        go (completed, s1) p = AfterAttempt-execute job i s1 p
        go (raised, s1) p = p
        go (broke, s1) p = absurd p

    IsWithin-settle :
        (i : ℕ) (r : Attempt × Session F csv)
        → AfterAttempt r
        → IsWithin (settle F csv world o i r).1
    unfolding settle set_field
    IsWithin-settle i (completed, s) h = h
    IsWithin-settle i (raised, s) h = omega arith
    IsWithin-settle i (broke, s) h = h

    IsWithin-by_status :
        (job : Job F) (i : ℕ) (status : Option (ParameterValue F)) (s : Session F csv)
        → IsWithin s
        → IsWithin (by_status F csv world o job i status s).1
    unfolding by_status
    IsWithin-by_status job i none s h = h
    IsWithin-by_status job i (some (str status)) s h = elim (Bool-cases (status == done)) [
      | inl e ↦ rw e h
      | inr e ↦ rw e (elim (Bool-cases (status == error || status == pending)) [
        | inl t ↦
            rw t
              (IsWithin-settle i (attempt F csv world o job i s) (AfterAttempt-attempt job i s h))
        | inr t ↦ rw t h
      ])
    ]
    IsWithin-by_status job i (some other) s h = h

    IsWithin-step :
        (job : Job F) (s : Session F csv) → IsWithin s → IsWithin (step F csv world o job s).1
    unfolding step
    IsWithin-step job s h = IsWithin-by_status job _ _ _ h

    IsWithin-run_jobs :
        (jobs : List (Job F)) (s : Session F csv)
        → IsWithin s
        → IsWithin (run_jobs F csv world o jobs s).1
    unfolding run_jobs
    IsWithin-run_jobs [] s h = h
    IsWithin-run_jobs (job ∷ rest) s h = elim (Option-cases (step F csv world o job s).0) [
      | inl e ↦ rw (e, run_jobs) (IsWithin-run_jobs rest _ (IsWithin-step job s h))
      | inr (e', e) ↦ rw (e, run_jobs) (IsWithin-step job s h)
    ]

    -- From a start with the counter at 0, with `reload_every` positive, with loading not skipped, and
    -- whatever fails on the way, at most `reload_every` benchmarks are executed behind the last load
    -- of the database.
    pub since_load-le-reload_every :
        (jobs : List (Job F)) (p : Progress F csv)
        → since_load (run_jobs F csv world o jobs (start F csv p)).1.calls ≤ n
    unfolding start
    since_load-le-reload_every jobs p =
        le_of_Within _ _ (IsWithin-run_jobs jobs (start F csv p) (unfold since_load in omega arith))
