-- ===== src/Experiment/Run/Rounds.antt =====
-- What one round of the loop of tools/experiment.py does to the records.
use mathlib.Core.Option.{some-injective}
use native.Mathlib.Decide.{ℕ_discrete}
use sunstorm_xactserver.Base.{
  ℕ, ◌≡◌, ◌≢◌, refl, sym, ◌∙◌, ap, subst, ◌⊎◌, String, ◌||◌, Option, none, some, List, arith,
  modify, string_eq, ◌==◌, Bool-cases, Option-cases, inl, inr,
}
use sunstorm_xactserver.Base.Dict.{Dict, insert}
use sunstorm_xactserver.Experiment.Jobs.{Job}
use sunstorm_xactserver.Experiment.Progress.{
  Csv, Metadata, Record, Progress, done, error, pending, find_record, save, get_or_insert,
}
use sunstorm_xactserver.Experiment.Progress.Records.{
  IsFree, find_record-insert, find_record-append, get_or_insert_cases,
}
use sunstorm_xactserver.Experiment.Values.{Floats, ParameterValue, str}
use sunstorm_xactserver.Experiment.Run.{
  World, Options, Session, Attempt, completed, raised, broke, set_field, status_of, attempt, settle,
  by_status, step,
}
use sunstorm_xactserver.Experiment.Run.Status.{
  Same, Same-attempt, status_of-insert_self, status_of-insert_ne, status_of-append,
}

module _ (F : Floats) (csv : Csv F) where
  -- The status of the record that the metadata finds.
  abbrev pub status_for : Metadata → List (Record F) → Option (ParameterValue F)
  status_for m rs = elim (find_record F m rs) [ none ↦ none | some i ↦ status_of F csv i rs ]

  abbrev pub IsDone : Option (ParameterValue F) → Type 0
  IsDone status = status ≡ some (str done)

  abbrev pub IsSettled : Option (ParameterValue F) → Type 0
  IsSettled status = (status ≡ some (str done)) ⊎ (status ≡ some (str error))

  -- What a round of the loop does to the records, if it goes on: nothing to a record that is
  -- done, or else the record's status is written over records that look the same.
  pub data Effect (i : ℕ) (rs rs' : List (Record F)) : Type 0 where
    kept : IsDone (status_of F csv i rs) → rs' ≡ rs → Effect i rs rs'
    written :
        (mid : List (Record F)) (w new : ParameterValue F)
        → Same F csv rs mid
        → status_of F csv i rs ≡ some w
        → w ≢ str done
        → IsSettled (some new)
        → rs' ≡ modify i (insert "status" new) mid
        → Effect i rs rs'

  pub status_for-eq :
      (m : Metadata) (rs : List (Record F)) {i : ℕ}
      → find_record F m rs ≡ some i
      → status_for m rs ≡ status_of F csv i rs
  status_for-eq m rs e = rw (e, status_for)

  pub found_of_status_for :
      (m : Metadata) (rs : List (Record F)) {w : ParameterValue F}
      → status_for m rs ≡ some w
      → (i : ℕ) × (find_record F m rs ≡ some i) × (status_of F csv i rs ≡ some w)
  found_of_status_for m rs h = elim (Option-cases (find_record F m rs)) [
    | inl e ↦ absurd (cc (rw (e, status_for) at h))
    | inr (i, e) ↦ (i, e, rw (e, status_for) at h)
  ]

  pub Effect-found :
      {i : ℕ} {rs rs' : List (Record F)} (m : Metadata)
      → Effect i rs rs'
      → IsFree m
      → find_record F m rs' ≡ find_record F m rs
  Effect-found m (kept d e) free = rw e
  Effect-found {i} m (written mid w new same st ne final e) free =
      rw e (find_record-insert F m i "status" new mid free.status ∙ same.found m free)

  pub IsSettled-of_eq :
      {a : Option (ParameterValue F)} (b : Option (ParameterValue F))
      → a ≡ b
      → IsSettled b
      → IsSettled a
  IsSettled-of_eq b e h = subst IsSettled (sym e) h

  pub Effect-IsSettled :
      {i : ℕ} {rs rs' : List (Record F)} → Effect i rs rs' → IsSettled (status_of F csv i rs')
  Effect-IsSettled (kept d e) = inl (rw e d)
  Effect-IsSettled {i} (written mid w new same st ne final e) =
      IsSettled-of_eq (some new)
        (rw e (status_of-insert_self F csv i new mid (same.statuses i ∙ st))) final

  pub Effect-other :
      {i : ℕ} (j : ℕ) {rs rs' : List (Record F)}
      → Effect i rs rs'
      → i ≢ j
      → status_of F csv j rs' ≡ status_of F csv j rs
  Effect-other j (kept d e) ne = rw e
  Effect-other {i} j (written mid w new same st differ final e) ne =
      rw e (status_of-insert_ne F csv i j new mid ne ∙ same.statuses j)

  Effect-IsDone :
      {i : ℕ} {rs rs' : List (Record F)}
      → Effect i rs rs'
      → IsDone (status_of F csv i rs)
      → IsDone (status_of F csv i rs')
  Effect-IsDone (kept d e) h = rw e d
  Effect-IsDone (written mid w new same st ne final e) h =
      absurd (ne (some-injective w (str done) (sym st ∙ h)))

  -- A status that was settled is so still, and one that was done is done still.
  abbrev pub StaysSettled : ParameterValue F → Option (ParameterValue F) → Type 0
  StaysSettled w status = IsSettled status × (w ≡ str done → IsDone status)

  pub Effect-StaysSettled :
      {i : ℕ} (j : ℕ) {rs rs' : List (Record F)} (w : ParameterValue F)
      → Effect i rs rs'
      → status_of F csv j rs ≡ some w
      → IsSettled (some w)
      → StaysSettled w (status_of F csv j rs')
  Effect-StaysSettled {i} j {rs} {rs'} w effect st settled = elim (ℕ_discrete i j) [
    | yes q ↦
        subst (λ k. StaysSettled w (status_of F csv k rs')) q
          (
            Effect-IsSettled effect,
            λ d. Effect-IsDone effect (ap (λ k. status_of F csv k rs) q ∙ st ∙ ap some d),
          )
    | no q ↦
        let same = Effect-other j effect q ∙ st in
        (IsSettled-of_eq (some w) same settled, λ d. same ∙ ap some d)
  ]

  -- Adding a record moves none that was there.
  pub get_or_insert_keeps :
      (metadata : Dict String (ParameterValue F)) (p : Progress F csv) (m : Metadata) {j : ℕ}
      {w : ParameterValue F}
      → find_record F m p.progress ≡ some j
      → status_of F csv j p.progress ≡ some w
      → let p' = (get_or_insert F csv metadata p).1 in
        (find_record F m p'.progress ≡ some j) × (status_of F csv j p'.progress ≡ some w)
  unfolding save
  get_or_insert_keeps metadata p m {j} found st = elim (get_or_insert_cases F csv metadata p) [
    | inl (i, e, same) ↦ rw same (found, st)
    | inr (e, added) ↦
        rw added
          (find_record-append F m p.progress _ found, status_of-append F csv j p.progress _ st)
  ]

  module _ (world : World F) (o : Options) where
    Effect-settle :
        (i : ℕ) (rs : List (Record F)) (w : ParameterValue F) (r : Attempt × Session F csv)
        → Same F csv rs r.1.progress
        → status_of F csv i rs ≡ some w
        → w ≢ str done
        → (settle F csv world o i r).0 ≡ none
        → Effect i rs (settle F csv world o i r).1.progress
    unfolding settle set_field
    Effect-settle i rs w (completed, s) same st ne e =
        written s.progress w (str done) same st ne (inl refl) refl
    Effect-settle i rs w (raised, s) same st ne e =
        written s.progress w (str error) same st ne (inr refl) refl
    Effect-settle i rs w (broke, s) same st ne e = absurd (cc)

    Effect-by_status :
        (job : Job F) (i : ℕ) (status : Option (ParameterValue F)) (s : Session F csv)
        → status ≡ status_of F csv i s.progress
        → (by_status F csv world o job i status s).0 ≡ none
        → Effect i s.progress (by_status F csv world o job i status s).1.progress
    unfolding by_status
    Effect-by_status job i none s st e = absurd (cc)
    Effect-by_status job i (some (str status)) s st e = elim (Bool-cases (status == done)) [
      | inl t ↦ rw t (kept (ground (arith, st)) refl)
      | inr t ↦ elim (Bool-cases (status == error || status == pending)) [
        | inl u ↦
            rw (t, u)
              (Effect-settle i s.progress (str status) (attempt F csv world o job i s)
                (Same-attempt F csv world o job i s) (sym st) (ground arith) (rw (t, u) at e))
        | inr u ↦ absurd (cc (rw (t, u) at e))
      ]
    ]
    Effect-by_status job i (some other) s st e = absurd (cc)

    pub Effect-step :
        (job : Job F) (s : Session F csv)
        → (step F csv world o job s).0 ≡ none
        → let (i, p) = get_or_insert F csv job.metadata s.saved in
          Effect i p.progress (step F csv world o job s).1.progress
    unfolding step
    Effect-step job s e = Effect-by_status job _ _ _ refl e
