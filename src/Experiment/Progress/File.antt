-- ===== src/Experiment/Progress/File.antt =====
-- What a progress file of tools/experiment.py gives back when it is read again.
use text.Mathlib.TextEquality.{path_by_compare}
use sunstorm_xactserver.Base.{
  ℕ, zero, suc, get_elem?, ◌≡◌, ◌≢◌, refl, ◌∙◌, String, true, false, ◌||◌, ◌==◌, Option, none, some,
  List, [], ◌∷◌, map, arith, All, contains, string_eq, Option-cases, inl, inr,
}
use sunstorm_xactserver.Base.Dict.{Dict, keys, lookup, contains_of_lookup}
use sunstorm_xactserver.Experiment.Progress.{
  Metadata, Record, Csv, add_name, add_names, fieldnames, is_subset, find_record, as_values,
}
use sunstorm_xactserver.Experiment.Values.{Floats, ParameterValue, str, show_value}

contains-add_name :
    (k name : String) (xs : List String)
    → contains (add_name name xs) k ≡ (k == name || contains xs k)
unfolding add_name
contains-add_name k name [] = refl
contains-add_name k name (x ∷ xs) =
    ground (arith, contains-add_name k name xs, path_by_compare name x)

contains-add_names :
    (k : String) (names xs : List String)
    → contains (add_names names xs) k ≡ (contains names k || contains xs k)
unfolding add_names
contains-add_names k [] xs = refl
contains-add_names k (name ∷ names) xs =
    contains-add_names k names (add_name name xs) ∙ rw (contains-add_name k name xs) (ground arith)

-- The fields that hold more than texts.
abbrev pub measured : List String
measured = "reloaded" ∷ "throughput" ∷ "goodput" ∷ []

module _ (F : Floats) where
  abbrev pub HasColumns : List String → Record F → Type 0
  HasColumns names r = (k : String) → contains (keys r) k ≡ true → contains names k ≡ true

  -- Whatever is a key of a record is a column of the file.
  pub fieldnames-HasColumns : (rs : List (Record F)) → All (HasColumns (fieldnames F rs)) rs
  unfolding fieldnames
  fieldnames-HasColumns [] = tt
  fieldnames-HasColumns (r ∷ rs) = (
    λ k h. contains-add_names k (keys r) (fieldnames F rs) ∙ rw h refl,
    go rs (fieldnames-HasColumns rs),
  )
    where
      go :
          (qs : List (Record F))
          → All (HasColumns (fieldnames F rs)) qs
          → All (HasColumns (add_names (keys r) (fieldnames F rs))) qs
      go [] h = tt
      go (q ∷ qs) (here, h) = (
        λ k e. contains-add_names k (keys r) (fieldnames F rs) ∙ rw (here k e) (ground arith),
        go qs h,
      )

  -- A field of a row: the text of the value, and nothing for a key that the record does not have.
  abbrev cell : Record F → String → String
  cell r k = elim (lookup k r) [ none ↦ "" | some v ↦ show_value F v ]

  -- A row of the file, as a dict.
  pub row : List String → Record F → Dict String String
  row [] r = []
  row (k ∷ names) r = (k, cell r k) ∷ row names r

  lookup-row :
      (k : String) (names : List String) (r : Record F)
      → contains names k ≡ true
      → lookup k (as_values F (row names r)) ≡ some (str (cell r k))
  unfolding row as_values
  lookup-row k [] r h = cc
  lookup-row k (j ∷ names) r h = ground (arith, lookup-row k names r)

  abbrev field_at : String → ℕ → List (Record F) → Option (ParameterValue F)
  field_at k i rs = elim (get_elem? rs i) [ none ↦ none | some r ↦ lookup k r ]

  -- A record of a run: it has the keys of the jobs' metadata, and all but the measured fields are
  -- texts.
  pub record IsRow (names : List String) (r : Record F) : Type 0 where
    pub texts :
        (k : String) (v : ParameterValue F)
        → contains measured k ≡ false
        → lookup k r ≡ some v
        → (t : String) × (v ≡ str t)
    pub covers : (k : String) → contains names k ≡ true → lookup k r ≢ none

  -- A row of the file, as `load` makes a record of it.
  abbrev pub read_back : List String → Record F → Record F
  read_back columns r = as_values F (row columns r)

  -- What the csv module does with these records: each row comes back as the texts of its fields.
  abbrev pub ReadsBack : Csv F → List (Record F) → Type 0
  ReadsBack csv rs = csv.read (csv.write (fieldnames F rs) rs) ≡ map (row (fieldnames F rs)) rs

  module _ (names columns : List String) where
    -- A text is read back as it was.
    lookup-read_back :
        (k : String) (r : Record F) {v : ParameterValue F}
        → IsRow names r
        → HasColumns columns r
        → contains measured k ≡ false
        → lookup k r ≡ some v
        → lookup k (read_back columns r) ≡ some v
    unfolding show_value
    lookup-read_back k r {v} valid has other e =
        let (t, same) = valid.texts k v other e in
        lookup-row k columns r (has k (contains_of_lookup k r (λ n. cc)))
        ∙ rw (e, cell) (rw same refl)

    -- Metadata that a run may ask for: among the names, and not measured.
    abbrev IsNamed : Metadata → Type 0
    IsNamed m =
        (k : String)
        → contains (keys m) k ≡ true
        → (contains names k ≡ true) × (contains measured k ≡ false)

    is_subset-read_back :
        (m : Metadata) (r : Record F)
        → IsNamed m
        → IsRow names r
        → HasColumns columns r
        → is_subset F m (read_back columns r) ≡ is_subset F m r
    unfolding is_subset
    is_subset-read_back [] r named valid has = refl
    is_subset-read_back ((k, v) ∷ m) r named valid has =
        let (known, other) = named k (ground arith) in
        elim (Option-cases (lookup k r)) [
          | inl n ↦ absurd (valid.covers k known n)
          | inr (w, e) ↦ rw (
            e,
            lookup-read_back k r valid has other e,
            is_subset-read_back m r (λ j h. named j (ground (arith, h))) valid has,
          )
        ]

    pub find_record-read_back :
        (m : Metadata) (rs : List (Record F))
        → IsNamed m
        → All (IsRow names) rs
        → All (HasColumns columns) rs
        → find_record F m (map (read_back columns) rs) ≡ find_record F m rs
    unfolding find_record
    find_record-read_back m [] named valid has = refl
    find_record-read_back m (r ∷ rs) named (here, valid) (has, later) =
        rw (is_subset-read_back m r named here has, find_record-read_back m rs named valid later)

    pub lookup_at-read_back :
        (k : String) (i : ℕ) (rs : List (Record F)) {v : ParameterValue F}
        → contains measured k ≡ false
        → All (IsRow names) rs
        → All (HasColumns columns) rs
        → field_at k i rs ≡ some v
        → field_at k i (map (read_back columns) rs) ≡ some v
    lookup_at-read_back k i [] other valid has e = cc
    lookup_at-read_back k zero (r ∷ rs) other (here, valid) (has, later) e =
        lookup-read_back k r here has other e
    lookup_at-read_back k (suc i) (r ∷ rs) other (here, valid) (has, later) e =
        lookup_at-read_back k i rs other valid later e
