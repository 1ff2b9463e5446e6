-- ===== src/Experiment/Combine.antt =====
-- The loop of `benchmark_args` (tools/experiment.py) that combines the values of all parameters.
pub mod Product
use mathlib.Core.List.{flat_map}
use sunstorm_xactserver.Base.{String, List, [], ◌∷◌, map, string_eq}
use sunstorm_xactserver.Base.Dict.{Dict, insert}

module _ {V : Type 0} where
  -- `[{**x, param: v} for x in combinations for v in values]`
  pub extend : String → List V → List (Dict String V) → List (Dict String V)
  unfolding flat_map
  extend param values cs = flat_map (λ x. map (λ v. insert param v x) values) cs

  pub combine_from : List String → (String → List V) → List (Dict String V) → List (Dict String V)
  unfolding extend
  combine_from [] values cs = cs
  combine_from (param ∷ params) values cs =
      combine_from params values (extend param (values param) cs)

  -- The loop starts from one combination that is empty.
  unfoldable pub combinations : List String → (String → List V) → List (Dict String V)
  unfolding combine_from
  combinations params values = combine_from params values ([] ∷ [])
