-- ===== src/Experiment/Run/Status.antt =====
-- What the loop does to the statuses of the records: the part of the proofs about one job.
use text.Mathlib.TextEquality.{eq_iff}
use sunstorm_xactserver.Base.{
  ℕ, zero, suc, ◌≡◌, ◌≢◌, ◌⊎◌, ◌==◌, refl, ◌∙◌, ap, String, true, false, some, List, [], ◌∷◌, ◌++◌,
  arith, length, modify, contains, string_eq, Bool-cases, inl, inr,
}
use sunstorm_xactserver.Base.Dict.{keys, lookup, insert, lookup-insert}
use sunstorm_xactserver.Experiment.Jobs.{Job}
use sunstorm_xactserver.Experiment.Progress.{Csv, Metadata, Record, find_record}
use sunstorm_xactserver.Experiment.Progress.File.{measured}
use sunstorm_xactserver.Experiment.Run.Kept.{IsKept, attempt-IsKept}
use sunstorm_xactserver.Experiment.Progress.Records.{IsFree, find_record-insert}
use sunstorm_xactserver.Experiment.Values.{Floats, ParameterValue, str}
use sunstorm_xactserver.Experiment.Run.{
  World, Options, Session, set_field, status_of, attempt, submit,
}

reloaded_ne : ◌≢◌ {A = String} "reloaded" "status"
reloaded_ne = ground (arith, eq_iff "reloaded" "status")

throughput_ne : ◌≢◌ {A = String} "throughput" "status"
throughput_ne = ground (arith, eq_iff "throughput" "status")

goodput_ne : ◌≢◌ {A = String} "goodput" "status"
goodput_ne = ground (arith, eq_iff "goodput" "status")

tag_ne : ◌≢◌ {A = String} "tag" "status"
tag_ne = ground (arith, eq_iff "tag" "status")

measured_cases :
    (k : String)
    → contains measured k ≡ true
    → (k ≡ "reloaded") ⊎ ((k ≡ "throughput") ⊎ (k ≡ "goodput"))
measured_cases k h = elim (Bool-cases (k == "reloaded")) [
  | inl e ↦ inl (ground (arith, e))
  | inr e ↦ elim (Bool-cases (k == "throughput")) [
    | inl e' ↦ inr (inl (ground (arith, e')))
    | inr e' ↦ inr (inr (ground (arith, e, e', h)))
  ]
]

module _ (F : Floats) (csv : Csv F) where
  -- Lists of records between which the loop cannot tell: the same records are found, and they
  -- have the same statuses.
  pub record Same (rs rs' : List (Record F)) : Type 0 where
    pub found : (m : Metadata) → IsFree m → find_record F m rs' ≡ find_record F m rs
    pub statuses : (j : ℕ) → status_of F csv j rs' ≡ status_of F csv j rs

  Same-refl : (rs : List (Record F)) → Same rs rs
  Same-refl rs = record { found = λ m free. refl; statuses = λ j. refl }

  Same-trans : {rs rs' rs'' : List (Record F)} → Same rs rs' → Same rs' rs'' → Same rs rs''
  Same-trans a b = record {
    found = λ m free. b.found m free ∙ a.found m free;
    statuses = λ j. b.statuses j ∙ a.statuses j;
  }

  status_of-insert :
      (i j : ℕ) (k : String) (v : ParameterValue F) (rs : List (Record F))
      → k ≢ "status"
      → status_of F csv j (modify i (insert k v) rs) ≡ status_of F csv j rs
  unfolding status_of
  status_of-insert i j k v [] h = refl
  status_of-insert zero zero k v (r ∷ rs) h = ground (arith, lookup-insert "status" k v r)
  status_of-insert zero (suc j) k v (r ∷ rs) h = refl
  status_of-insert (suc i) zero k v (r ∷ rs) h = refl
  status_of-insert (suc i) (suc j) k v (r ∷ rs) h = status_of-insert i j k v rs h

  Same-insert :
      (i : ℕ) (k : String) (v : ParameterValue F) (rs : List (Record F))
      → k ≢ "status"
      → ((m : Metadata) → IsFree m → contains (keys m) k ≡ false)
      → Same rs (modify i (insert k v) rs)
  Same-insert i k v rs ne absent = record {
    found = λ m free. find_record-insert F m i k v rs (absent m free);
    statuses = λ j. status_of-insert i j k v rs ne;
  }

  Same-measured :
      (i : ℕ) (k : String) (v : ParameterValue F) (rs : List (Record F))
      → (k ≡ "reloaded") ⊎ ((k ≡ "throughput") ⊎ (k ≡ "goodput"))
      → Same rs (modify i (insert k v) rs)
  Same-measured i k v rs (inl e) =
      rw e (Same-insert i "reloaded" v rs reloaded_ne (λ m free. free.reloaded))
  Same-measured i k v rs (inr (inl e)) =
      rw e (Same-insert i "throughput" v rs throughput_ne (λ m free. free.throughput))
  Same-measured i k v rs (inr (inr e)) =
      rw e (Same-insert i "goodput" v rs goodput_ne (λ m free. free.goodput))

  -- Writing the status of a record: that record has it, and no other one changes.
  pub status_of-insert_self :
      (i : ℕ) (v : ParameterValue F) (rs : List (Record F)) {w : ParameterValue F}
      → status_of F csv i rs ≡ some w
      → status_of F csv i (modify i (insert "status" v) rs) ≡ some v
  unfolding status_of
  status_of-insert_self i v [] h = cc
  status_of-insert_self zero v (r ∷ rs) h = ground (arith, lookup-insert "status" "status" v r)
  status_of-insert_self (suc i) v (r ∷ rs) h = status_of-insert_self i v rs h

  pub status_of-insert_ne :
      (i j : ℕ) (v : ParameterValue F) (rs : List (Record F))
      → i ≢ j
      → status_of F csv j (modify i (insert "status" v) rs) ≡ status_of F csv j rs
  unfolding status_of
  status_of-insert_ne i j v [] h = refl
  status_of-insert_ne zero zero v (r ∷ rs) h = absurd (h refl)
  status_of-insert_ne zero (suc j) v (r ∷ rs) h = refl
  status_of-insert_ne (suc i) zero v (r ∷ rs) h = refl
  status_of-insert_ne (suc i) (suc j) v (r ∷ rs) h =
      status_of-insert_ne i j v rs (λ e. h (ap suc e))

  -- A status that is there is not moved by records that are added.
  pub status_of-append :
      (j : ℕ) (rs new : List (Record F)) {w : ParameterValue F}
      → status_of F csv j rs ≡ some w
      → status_of F csv j (rs ++ new) ≡ some w
  unfolding status_of
  status_of-append j [] new h = cc
  status_of-append zero (r ∷ rs) new h = h
  status_of-append (suc j) (r ∷ rs) new h = status_of-append j rs new h

  pub status_of-length :
      (rs : List (Record F)) (r : Record F)
      → status_of F csv (length rs) (rs ++ r ∷ []) ≡ lookup "status" r
  unfolding status_of
  status_of-length [] r = refl
  status_of-length (q ∷ rs) r = status_of-length rs r

  module _ (world : World F) (o : Options) where
    pub submit-progress :
        (tag : String) (s : Session F csv) → (submit F csv world o tag s).progress ≡ s.progress
    unfolding submit
    submit-progress tag s = ground arith

    Same-IsKept :
        (rs : List (Record F)) → IsKept F csv world o (λ job. Unit {0}) (λ s. Same rs s.progress)
    unfolding set_field
    Same-IsKept rs = record {
      creates = λ job s _ h. h;
      loads = λ job s _ h. h;
      executes = λ job s _ h. h;
      measures = λ i k v s e h. Same-trans h (Same-measured i k v s.progress (measured_cases k e));
      tags = λ i tag s h.
          Same-trans h (Same-insert i "tag" (str tag) s.progress tag_ne (λ m free. free.tag));
      counts = λ z s h. h;
      submits = λ tag s h. rw (submit-progress tag s) h;
    }

    -- The body of the `try` leaves alone which records are found, and their statuses.
    pub Same-attempt :
        (job : Job F) (i : ℕ) (s : Session F csv)
        → Same s.progress (attempt F csv world o job i s).1.progress
    Same-attempt job i s =
        attempt-IsKept F csv world o (Same-IsKept s.progress) job i s tt (Same-refl s.progress)
