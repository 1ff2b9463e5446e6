-- ===== src/Experiment/Replace.antt =====
-- `replace_values` of tools/experiment.py: the rules that rewrite one parameter combination.
pub mod Match
pub mod Effect
use sunstorm_xactserver.Base.{
  String, Bool, true, false, Option, none, some, List, [], ◌∷◌, ◌||◌, ◌==◌, string_eq,
  if◌then◌else◌,
}
use sunstorm_xactserver.Base.Dict.{Dict, lookup, insert}
use sunstorm_xactserver.Base.Result.{Result, ok, err, ◌>>=◌}
use sunstorm_xactserver.Experiment.Values.{
  Floats, Error, match_not_list, unknown_match, unknown_set, ParameterValue, NamedParameterValue,
  RawValue, eq_option, to_named_value,
}

-- What one parameter is compared with: the name of an object, or else the value.
pub data Condition (F : Floats) : Type 0 where
  by_name : String → Condition F
  by_value : Option (ParameterValue F) → Condition F

-- `replace.get("match") or []`: the conditions, or something true that is not a list.
pub data Matcher (F : Floats) : Type 0 where
  conditions : List (Dict String (Condition F)) → Matcher F
  not_a_list : Matcher F

pub record Replace (F : Floats) : Type 0 where
  pub matcher : Matcher F
  pub assign : Dict String (RawValue F)

abbrev pub Combination : Floats → Type 0
Combination F = Dict String (NamedParameterValue F)

module _ (F : Floats) where
  -- The `if`/`elif` that clears `match_and`, negated.
  pub holds : Condition F → NamedParameterValue F → Bool
  unfolding eq_option
  holds (by_name name) v = name == v.name
  holds (by_value value) v = eq_option F value v.value

  -- The loop over one AND clause. It leaves at the first mismatch, with the rest unread.
  pub match_clause : Dict String (Condition F) → Combination F → Result Error Bool
  unfolding holds
  match_clause [] c = ok true
  match_clause ((param, condition) ∷ rest) c = elim (lookup param c) [
    | none ↦ err (unknown_match param)
    | some v ↦ elim (holds condition v) [ true ↦ match_clause rest c | false ↦ ok false ]
  ]

  -- The loop over the OR-ed clauses. It reads all of them, also once one has matched.
  pub match_any : List (Dict String (Condition F)) → Bool → Combination F → Result Error Bool
  unfolding match_clause
  match_any [] match_or c = ok match_or
  match_any (clause ∷ rest) match_or c =
      match_clause clause c >>= λ match_and. match_any rest (match_or || match_and) c

  abbrev is_empty : List (Dict String (Condition F)) → Bool
  is_empty [] = true
  is_empty (_ ∷ _) = false

  -- Without conditions the rule applies to every combination.
  unfoldable pub is_match : Matcher F → Combination F → Result Error Bool
  unfolding match_any
  is_match not_a_list c = err match_not_list
  is_match (conditions cs) c = match_any cs (is_empty cs) c

  pub assign_all : Dict String (RawValue F) → Combination F → Result Error (Combination F)
  unfolding to_named_value
  assign_all [] c = ok c
  assign_all ((param, value) ∷ rest) c = elim (lookup param c) [
    | none ↦ err (unknown_set param)
    | some _ ↦ assign_all rest (insert param (to_named_value F param value) c)
  ]

  unfoldable pub replace_one : Replace F → Combination F → Result Error (Combination F)
  unfolding is_match assign_all
  replace_one r c =
      is_match r.matcher c >>= λ matched. if matched then assign_all r.assign c else ok c

  -- The rules in order, each on what the rules before it left.
  unfoldable pub replace_values : List (Replace F) → Combination F → Result Error (Combination F)
  unfolding replace_one
  replace_values [] c = ok c
  replace_values (r ∷ rest) c = replace_one r c >>= λ c'. replace_values rest c'
