-- ===== src/Experiment/Progress.antt =====
-- `class Progress` of tools/experiment.py. A record that a method returns is an object of the
-- list, which the caller goes on to change: it is named here by its index. The csv module is a
-- parameter.
pub mod Records
pub mod File
use Prim.Native.String.{compare}
use Prim.Native.Nat.{Ordering}
use sunstorm_xactserver.Base.{
  ℕ, zero, suc, String, Bool, true, false, ◌&&◌, Option, none, some, List, [], ◌∷◌, ◌++◌, map,
  length, string_eq, if◌then◌else◌,
}
use sunstorm_xactserver.Base.Dict.{Dict, keys, lookup, insert, update}
use sunstorm_xactserver.Experiment.Values.{Floats, ParameterValue, str, bool, eq_value, show_value}

-- `csv.DictWriter` (header and rows) and `csv.DictReader` on the file that it wrote.
pub record Csv (F : Floats) : Type 1 where
  pub File : Type 0
  pub write : List String → List (Dict String (ParameterValue F)) → File
  pub read : File → List (Dict String String)

abbrev pub done : String
done = "done"

abbrev pub error : String
error = "error"

abbrev pub pending : String
pending = "pending"

abbrev pub Metadata : Type 0
Metadata = Dict String String

abbrev pub Record : Floats → Type 0
Record F = Dict String (ParameterValue F)

-- The records in memory, and the file.
pub record Progress (F : Floats) (csv : Csv F) : Type 0 where
  pub progress : List (Record F)
  pub file : Option csv.File

-- One name into a sorted list without repetition.
add_name : String → List String → List String
add_name name [] = name ∷ []
add_name name (x ∷ xs) = elim (compare name x) [
  | Ordering.lt ↦ name ∷ x ∷ xs
  | Ordering.eq ↦ x ∷ xs
  | Ordering.gt ↦ x ∷ add_name name xs
]

add_names : List String → List String → List String
unfolding add_name
add_names [] xs = xs
add_names (name ∷ names) xs = add_names names (add_name name xs)

module _ (F : Floats) where
  -- `sorted(set().union(*keys))`
  pub fieldnames : List (Record F) → List String
  unfolding add_names
  fieldnames [] = []
  fieldnames (r ∷ rs) = add_names (keys r) (fieldnames rs)

  -- `{k: str(v) for k, v in metadata.items()}`
  unfoldable pub as_text : Dict String (ParameterValue F) → Metadata
  unfolding show_value
  as_text [] = []
  as_text ((k, v) ∷ rest) = (k, show_value F v) ∷ as_text rest

  -- `metadata.items() <= record.items()`
  pub is_subset : Metadata → Record F → Bool
  unfolding eq_value
  is_subset [] r = true
  is_subset ((k, v) ∷ rest) r =
      elim (lookup k r) [ none ↦ false | some w ↦ eq_value F (str v) w ] && is_subset rest r

  -- The loop that looks for the first record with the metadata, and gives its index.
  unfoldable pub find_record : Metadata → List (Record F) → Option ℕ
  unfolding is_subset
  find_record m [] = none
  find_record m (r ∷ rs) =
      let later = find_record m rs in
      if is_subset m r then some 0 else elim later [ none ↦ none | some i ↦ some (suc i) ]

  pub as_values : Metadata → Record F
  as_values [] = []
  as_values ((k, v) ∷ rest) = (k, str v) ∷ as_values rest

  abbrev pub fresh_fields : Record F
  fresh_fields = ("status", str pending) ∷ ("reloaded", bool false) ∷ []

  pub new_record : Metadata → Record F
  unfolding as_values
  new_record m = update fresh_fields (as_values m)

  module _ (csv : Csv F) where
    -- An empty list is not written.
    unfoldable pub write_progress : List (Record F) → Option csv.File → Option csv.File
    unfolding fieldnames
    write_progress [] old = old
    write_progress (r ∷ rs) old = some (csv.write (fieldnames (r ∷ rs)) (r ∷ rs))

    unfoldable pub save : Progress F csv → Progress F csv
    save p = record p { file = write_progress p.progress p.file }

    -- Whether there was a file, and the progress after.
    unfoldable pub load : Progress F csv → Bool × Progress F csv
    unfolding as_values
    load p = elim p.file [
      | none ↦ (false, p)
      | some f ↦ (true, record p { progress = map as_values (csv.read f) })
    ]

    -- The index of the record for the metadata; a record that is added is saved at once.
    unfoldable pub get_or_insert :
        Dict String (ParameterValue F) → Progress F csv → ℕ × Progress F csv
    unfolding as_text find_record new_record save
    get_or_insert metadata p =
        let m = as_text metadata in
        elim (find_record m p.progress) [
          | some i ↦ (i, p)
          | none ↦
              (length p.progress, save (record p { progress = p.progress ++ new_record m ∷ [] }))
        ]
