-- ===== src/Experiment/Run/Rows.antt =====
-- The records of a run of tools/experiment.py all have the keys of the jobs' metadata, and texts
-- in all fields but the measured ones.
use sunstorm_xactserver.Base.{
  ℕ, zero, suc, ◌≡◌, refl, sym, ◌∙◌, ◌⊎◌, String, true, false, ◌==◌, some, List, [], ◌∷◌, arith,
  All, All-append, contains, modify, string_eq, Bool-cases, Option-cases, inl, inr,
}
use sunstorm_xactserver.Base.Dict.{keys, lookup, insert, lookup-insert, contains-keys}
use sunstorm_xactserver.Experiment.Progress.{
  Csv, Metadata, Record, Progress, get_or_insert, pending, as_text, fresh_fields, new_record, save,
}
use sunstorm_xactserver.Experiment.Progress.File.{measured, IsRow}
use sunstorm_xactserver.Experiment.Progress.Records.{
  IsFree, lookup-as_values, lookup-as_values-none, lookup-new_record, get_or_insert_cases,
}
use sunstorm_xactserver.Experiment.Values.{Floats, ParameterValue, str}
use sunstorm_xactserver.Experiment.Jobs.{Job}
use sunstorm_xactserver.Experiment.Run.{World, Options, Session, set_field, run_jobs}
use sunstorm_xactserver.Experiment.Run.Kept.{IsKeptAround, run_jobs-IsKept}
use sunstorm_xactserver.Experiment.Run.Status.{submit-progress}

module _ (F : Floats) (names : List String) where
  -- What the loop may write: a text, or anything to a measured field.
  abbrev IsFit : String → ParameterValue F → Type 0
  IsFit k v = (contains measured k ≡ true) ⊎ ((t : String) × (v ≡ str t))

  IsRow-insert :
      (k : String) (v : ParameterValue F) (r : Record F)
      → IsFit k v
      → IsRow F names r
      → IsRow F names (insert k v r)
  IsRow-insert k v r fit valid = record {
    texts = λ j w other e. elim (Bool-cases (j == k)) [
      | inl same ↦ go j w fit other same (rw (lookup-insert j k v r, same) at e)
      | inr differ ↦ valid.texts j w other (rw (lookup-insert j k v r, differ) at e)
    ];
    covers = λ j known. rw (lookup-insert j k v r) (elim (Bool-cases (j == k)) [
      | inl same ↦ rw same (λ e. cc)
      | inr differ ↦ rw differ (valid.covers j known)
    ]);
  }
    where
      go :
          (j : String) (w : ParameterValue F)
          → IsFit k v
          → contains measured j ≡ false
          → (j == k) ≡ true
          → some v ≡ some w
          → (t : String) × (w ≡ str t)
      go j w (inl h) other same e = absurd (ground (arith, h, other, same))
      go j w (inr (t, q)) other same e = (t, cc)

  IsRow-modify :
      (i : ℕ) (k : String) (v : ParameterValue F) (rs : List (Record F))
      → IsFit k v
      → All (IsRow F names) rs
      → All (IsRow F names) (modify i (insert k v) rs)
  IsRow-modify i k v [] fit h = tt
  IsRow-modify zero k v (r ∷ rs) fit (here, h) = (IsRow-insert k v r fit here, h)
  IsRow-modify (suc i) k v (r ∷ rs) fit (here, h) = (here, IsRow-modify i k v rs fit h)

  fresh_texts :
      (k : String) (v : ParameterValue F)
      → contains measured k ≡ false
      → lookup k (fresh_fields F) ≡ some v
      → (t : String) × (v ≡ str t)
  fresh_texts k v other e = elim (Bool-cases (k == "status")) [
    | inl same ↦ (pending, ground (arith, same, e))
    | inr differ ↦ absurd (ground (arith, differ, e, other))
  ]

  IsRow-new_record : (m : Metadata) → IsFree m → keys m ≡ names → IsRow F names (new_record F m)
  IsRow-new_record m free same = record {
    texts = λ k v other e. elim (Option-cases (lookup k m)) [
      | inl n ↦
          fresh_texts k v other
            (rw (lookup-as_values-none F k m n) at (sym (lookup-new_record F m k free) ∙ e))
      | inr (t, q) ↦ (t, ground (arith, lookup-as_values F k m q, lookup-new_record F m k free, e))
    ];
    covers = λ k known e. elim (Option-cases (lookup k m)) [
      | inl n ↦ contains-keys k m (rw same known) n
      | inr (t, q) ↦
          absurd (ground (arith, lookup-as_values F k m q, lookup-new_record F m k free, e))
    ];
  }

  module _ (csv : Csv F) (world : World F) (o : Options) where
    abbrev AllRows : List (Record F) → Type 0
    AllRows rs = All (IsRow F names) rs

    -- The metadata of the jobs has these names, and no key of the loop's own fields.
    abbrev pub IsNamedJob : Job F → Type 0
    IsNamedJob job = IsFree (as_text F job.metadata) × (keys (as_text F job.metadata) ≡ names)

    get_or_insert-AllRows :
        (job : Job F) (p : Progress F csv)
        → IsNamedJob job
        → AllRows p.progress
        → AllRows (get_or_insert F csv job.metadata p).1.progress
    unfolding save
    get_or_insert-AllRows job p (free, same) h = elim (get_or_insert_cases F csv job.metadata p) [
      | inl (i, e, kept) ↦ rw kept h
      | inr (e, added) ↦ rw added (
          All-append (IsRow F names) p.progress _ h
            (IsRow-new_record (as_text F job.metadata) free same, tt))
    ]

    AllRows-IsKept : IsKeptAround F csv world o IsNamedJob (λ s. AllRows s.progress)
    unfolding set_field save
    AllRows-IsKept = record {
      body = record {
        creates = λ job s _ h. h;
        loads = λ job s _ h. h;
        executes = λ job s _ h. h;
        measures = λ i k v s e h. IsRow-modify i k v s.progress (inl e) h;
        tags = λ i tag s h. IsRow-modify i "tag" (str tag) s.progress (inr (tag, refl)) h;
        counts = λ z s h. h;
        submits = λ tag s h. rw submit-progress h;
      };
      marks =
          λ i status s h. IsRow-modify i "status" (str status) s.progress (inr (status, refl)) h;
      saves = λ s h. h;
      inserts = λ job s named h. get_or_insert-AllRows job s.saved named h;
    }

    pub run_jobs-AllRows :
        (jobs : List (Job F)) (s : Session F csv)
        → All IsNamedJob jobs
        → AllRows s.progress
        → AllRows (run_jobs F csv world o jobs s).1.progress
    run_jobs-AllRows jobs s named h = run_jobs-IsKept F csv world o AllRows-IsKept jobs s named h
