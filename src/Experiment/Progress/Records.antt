-- ===== src/Experiment/Progress/Records.antt =====
-- How `get_or_insert` of tools/experiment.py finds records.
use mathlib.Core.Option.{some-injective}
use sunstorm_xactserver.Base.{
  ℕ, zero, suc, ◌≡◌, refl, sym, ◌∙◌, ap, String, true, false, none, some, List, [], ◌∷◌, ◌++◌,
  arith, length, modify, contains, Distinct, string_eq, Bool-cases, Option-cases, ◌⊎◌, inl, inr,
}
use sunstorm_xactserver.Base.Dict.{
  Dict, keys, lookup, insert, NodupKeys, lookup-insert, lookup-update, lookup-none,
  NodupKeys-of_Distinct, or_else,
}
use sunstorm_xactserver.Experiment.Values.{Floats, ParameterValue, str, eq_value}
use sunstorm_xactserver.Experiment.Progress.{
  Metadata, Record, Csv, Progress, pending, is_subset, find_record, as_values, fresh_fields,
  new_record, save, as_text, get_or_insert,
}

-- Metadata that has no key among the fields that the loop keeps in a record.
pub record IsFree (m : Metadata) : Type 0 where
  pub status : contains (keys m) "status" ≡ false
  pub reloaded : contains (keys m) "reloaded" ≡ false
  pub throughput : contains (keys m) "throughput" ≡ false
  pub goodput : contains (keys m) "goodput" ≡ false
  pub tag : contains (keys m) "tag" ≡ false
  pub distinct : Distinct (keys m)

module _ (F : Floats) where
  is_subset-insert :
      (m : Metadata) (k : String) (v : ParameterValue F) (r : Record F)
      → contains (keys m) k ≡ false
      → is_subset F m (insert k v r) ≡ is_subset F m r
  unfolding is_subset
  is_subset-insert [] k v r h = refl
  is_subset-insert ((j, w) ∷ m) k v r h =
      ground (arith, lookup-insert j k v r, is_subset-insert m k v r)

  pub find_record-insert :
      (m : Metadata) (i : ℕ) (k : String) (v : ParameterValue F) (rs : List (Record F))
      → contains (keys m) k ≡ false
      → find_record F m (modify i (insert k v) rs) ≡ find_record F m rs
  unfolding find_record
  find_record-insert m i k v [] h = refl
  find_record-insert m zero k v (r ∷ rs) h = rw (is_subset-insert m k v r h)
  find_record-insert m (suc i) k v (r ∷ rs) h = rw (find_record-insert m i k v rs h)

  -- A record that is found stays the one that is found when others are added behind.
  pub find_record-append :
      (m : Metadata) (rs new : List (Record F)) {i : ℕ}
      → find_record F m rs ≡ some i
      → find_record F m (rs ++ new) ≡ some i
  unfolding find_record
  find_record-append m [] new h = cc
  find_record-append m (r ∷ rs) new {i} h = elim (Bool-cases (is_subset F m r)) [
    | inl e ↦ ground arith
    | inr e ↦ elim (Option-cases (find_record F m rs)) [
      | inl n ↦ ground arith
      | inr (j, f) ↦ ground (arith, find_record-append m rs new f)
    ]
  ]

  find_record-append_new :
      (m : Metadata) (rs : List (Record F)) (r : Record F)
      → find_record F m rs ≡ none
      → is_subset F m r ≡ true
      → find_record F m (rs ++ r ∷ []) ≡ some (length rs)
  unfolding find_record
  find_record-append_new m [] r h e = rw e
  find_record-append_new m (q ∷ rs) r h e = elim (Bool-cases (is_subset F m q)) [
    | inl t ↦ ground arith
    | inr t ↦ elim (Option-cases (find_record F m rs)) [
      | inl n ↦ ground (arith, find_record-append_new m rs r n e)
      | inr (j, f) ↦ ground arith
    ]
  ]

  eq_value-str : (s : String) → eq_value F (str s) (str s) ≡ true
  unfolding eq_value
  eq_value-str s = ground arith

  pub lookup-as_values :
      (k : String) (m : Metadata) {v : String}
      → lookup k m ≡ some v
      → lookup k (as_values F m) ≡ some (str v)
  unfolding as_values
  lookup-as_values k [] h = cc
  lookup-as_values k ((j, w) ∷ m) {v} h = ground (arith, lookup-as_values k m {v = v})

  pub lookup-as_values-none :
      (k : String) (m : Metadata) → lookup k m ≡ none → lookup k (as_values F m) ≡ none
  unfolding as_values
  lookup-as_values-none k [] h = refl
  lookup-as_values-none k ((j, w) ∷ m) h = ground (arith, lookup-as_values-none k m)

  NodupKeys-as_values : (m : Metadata) → NodupKeys m → NodupKeys (as_values F m)
  unfolding as_values
  NodupKeys-as_values [] u = tt
  NodupKeys-as_values ((k, v) ∷ m) (new, u) =
      (lookup-as_values-none k m new, NodupKeys-as_values m u)

  is_subset_of_lookup :
      (m : Metadata) (r : Record F)
      → NodupKeys m
      → ((k v : String) → lookup k m ≡ some v → lookup k r ≡ some (str v))
      → is_subset F m r ≡ true
  unfolding is_subset
  is_subset_of_lookup [] r u h = refl
  is_subset_of_lookup ((j, w) ∷ m) r (new, u) h =
      rw (h j w (ground arith), eq_value-str w)
        (is_subset_of_lookup m r u (λ k v e. h k v (ground (arith, e, new))))

  -- The record that is added holds the metadata, and it is pending.
  new_record_matches : (m : Metadata) → NodupKeys m → is_subset F m (new_record F m) ≡ true
  unfolding new_record
  new_record_matches m u = is_subset_of_lookup m (new_record F m) u λ k v e.
      rw (lookup-update k _ (as_values F m) (NodupKeys-as_values m u), lookup-as_values k m e)

  -- A field of the record that is added: that of the metadata, or else a fresh one.
  pub lookup-new_record :
      (m : Metadata) (k : String)
      → IsFree m
      → lookup k (new_record F m) ≡ or_else (lookup k (as_values F m)) (lookup k (fresh_fields F))
  unfolding new_record
  lookup-new_record m k free =
      lookup-update k (fresh_fields F) (as_values F m)
        (NodupKeys-as_values m (NodupKeys-of_Distinct m free.distinct))

  pub new_record-pending :
      (m : Metadata) → IsFree m → lookup "status" (new_record F m) ≡ some (str pending)
  new_record-pending m free =
      lookup-new_record m "status" free
      ∙ rw (lookup-as_values-none "status" m (lookup-none "status" m free.status)) (ground arith)

  module _ (csv : Csv F) where
    -- The record is there and nothing changes, or a new one is added at the end and saved.
    pub get_or_insert_cases :
        (metadata : Dict String (ParameterValue F)) (p : Progress F csv)
        → ((i : ℕ) × (find_record F (as_text F metadata) p.progress ≡ some i)
            × (get_or_insert F csv metadata p ≡ (i, p)))
          ⊎ ((find_record F (as_text F metadata) p.progress ≡ none)
              × (get_or_insert F csv metadata p ≡ (
                length p.progress,
                save F csv
                    (record p { progress = p.progress ++ new_record F (as_text F metadata) ∷ [] }),
              )))
    unfolding get_or_insert
    get_or_insert_cases metadata p =
        elim (Option-cases (find_record F (as_text F metadata) p.progress)) [
          | inl e ↦ inr (e, rw (e, get_or_insert))
          | inr (i, e) ↦ inl (i, e, rw (e, get_or_insert))
        ]

    -- The index that is returned is that of the record for the metadata.
    pub find_record-get_or_insert :
        (metadata : Dict String (ParameterValue F)) (p : Progress F csv)
        → Distinct (keys (as_text F metadata))
        → let (i, p') = get_or_insert F csv metadata p in
          find_record F (as_text F metadata) p'.progress ≡ some i
    unfolding save
    find_record-get_or_insert metadata p distinct = elim (get_or_insert_cases metadata p) [
      | inl (i, e, same) ↦ rw same e
      | inr (e, added) ↦
          let m = as_text F metadata in
          rw added (
            find_record-append_new m p.progress (new_record F m) e
              (new_record_matches m (NodupKeys-of_Distinct m distinct)))
    ]

    -- Asking again for the same metadata, with no key twice, gives the same record and changes
    -- nothing.
    get_or_insert_again :
        (metadata : Dict String (ParameterValue F)) (p : Progress F csv)
        → Distinct (keys (as_text F metadata))
        → get_or_insert F csv metadata (get_or_insert F csv metadata p).1
          ≡ get_or_insert F csv metadata p
    get_or_insert_again metadata p distinct =
        let found = find_record-get_or_insert metadata p distinct in
        elim (get_or_insert_cases metadata (get_or_insert F csv metadata p).1) [
          | inl (i, e, same) ↦
              same
              ∙ ap (λ j. (j, (get_or_insert F csv metadata p).1))
                  (some-injective _ _ (sym e ∙ found))
          | inr (e, added) ↦ absurd (cc)
        ]
