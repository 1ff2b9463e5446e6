-- ===== src/Experiment/Values.antt =====
-- Parameter values of an experiment file: the type aliases and `to_named_value` of
-- tools/experiment.py. Python's floats are a parameter: their type, `str` and `==`.
use sunstorm_xactserver.Base.{
  String, ◌<>◌, Bool, true, false, Option, none, some, List, [], ◌∷◌, ◌==◌, string_eq,
}
use sunstorm_xactserver.Base.Int.{ℤ, pos, eqb_ℤ}
use sunstorm_xactserver.Base.Text.{show_ℤ, split}

pub record Floats : Type 1 where
  pub Float : Type 0
  pub show_float : Float → String
  pub eq_float : Float → Float → Bool
  pub eq_int : Float → ℤ → Bool

-- What `raise ValueError` says in this program.
pub data Error : Type 0 where
  match_not_list params_mismatch missing_status : Error
  unknown_match unknown_set none_value unknown_status : String → Error

pub data ParameterValue (F : Floats) : Type 0 where
  str : String → ParameterValue F
  int : ℤ → ParameterValue F
  float : F.Float → ParameterValue F
  bool : Bool → ParameterValue F

-- The key `value` is there, and YAML's null is `none`.
pub record NamedParameterValue (F : Floats) : Type 0 where
  pub name : String
  pub value : Option (ParameterValue F)

-- A value as the file gives it: a scalar or null, or an object that has a name.
pub data RawValue (F : Floats) : Type 0 where
  literal : Option (ParameterValue F) → RawValue F
  named : NamedParameterValue F → RawValue F

pub data Number (F : Floats) : Type 0 where
  whole : ℤ → Number F
  real : F.Float → Number F

abbrev last_or : String → List String → String
last_or d [] = d
last_or d (x ∷ xs) = last_or x xs

module _ (F : Floats) where
  -- A `bool` counts as 0 or 1 among Python's numbers.
  number : ParameterValue F → Option (Number F)
  number (str _) = none
  number (int z) = some (whole z)
  number (float x) = some (real x)
  number (bool true) = some (whole (pos 1))
  number (bool false) = some (whole (pos 0))

  eq_number : Number F → Number F → Bool
  eq_number (whole a) (whole b) = eqb_ℤ a b
  eq_number (whole a) (real y) = F.eq_int y a
  eq_number (real x) (whole b) = F.eq_int x b
  eq_number (real x) (real y) = F.eq_float x y

  -- Python's `==` on scalars: a number never equals a text.
  unfoldable pub eq_value : ParameterValue F → ParameterValue F → Bool
  unfolding number eq_number
  eq_value (str a) (str b) = a == b
  eq_value a b = elim (number a) [
    | none ↦ false
    | some m ↦ elim (number b) [ none ↦ false | some n ↦ eq_number m n ]
  ]

  -- `==` where either side may be `None`
  unfoldable pub eq_option : Option (ParameterValue F) → Option (ParameterValue F) → Bool
  unfolding eq_value
  eq_option none none = true
  eq_option (some a) (some b) = eq_value a b
  eq_option _ _ = false

  -- `str(value)`
  unfoldable pub show_value : ParameterValue F → String
  unfolding show_ℤ
  show_value (str s) = s
  show_value (int z) = show_ℤ z
  show_value (float x) = F.show_float x
  show_value (bool true) = "True"
  show_value (bool false) = "False"

  pub show_option : Option (ParameterValue F) → String
  unfolding show_value
  show_option none = "None"
  show_option (some v) = show_value v

  -- The text behind the last dot of the parameter, and then the value.
  unfoldable pub to_named_value : String → RawValue F → NamedParameterValue F
  unfolding show_option split
  to_named_value param (named v) = v
  to_named_value param (literal value) = record {
    name = last_or param (split b'.' param) <> show_option value;
    value = value;
  }
