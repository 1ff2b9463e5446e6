-- ===== src/Experiment/Jobs.antt =====
-- `benchmark_args` of tools/experiment.py: from an experiment file to the jobs to run.
pub mod Yield
pub mod Content
pub mod Metadata
pub mod Pairs
pub mod Names
use Prim.Native.Char.{code}
use sunstorm_xactserver.Base.{
  ℕ, ◌<>◌, String, Bool, true, false, not, ◌&&◌, ◌||◌, Option, none, some, List, [], ◌∷◌, ◌++◌, map,
  length, contains, ◌==◌, string_eq, if◌then◌else◌, ltb, eqb,
}
use sunstorm_xactserver.Base.Dict.{Dict, keys, lookup, insert, update}
use sunstorm_xactserver.Base.Int.{ℤ}
use sunstorm_xactserver.Base.Result.{Result, ok, err, ◌>>=◌}
use sunstorm_xactserver.Base.Text.{show_ℤ, join}
use sunstorm_xactserver.Experiment.Combine.{combinations}
use sunstorm_xactserver.Experiment.Replace.{Replace, Combination, replace_values}
use sunstorm_xactserver.Experiment.Values.{
  Floats, Error, params_mismatch, none_value, ParameterValue, str, int, float, bool,
  NamedParameterValue, RawValue, show_value, to_named_value,
}

-- An entry of `param_keys`: a name, or an object; without the flag the flag is off.
pub data ParameterKey : Type 0 where
  plain : String → ParameterKey
  keyed : String → Option Bool → ParameterKey

-- The values of one parameter: a list, or one value that stands for a list of one.
pub data RawValues (F : Floats) : Type 0 where
  many : List (RawValue F) → RawValues F
  single : RawValue F → RawValues F

pub record Experiment (F : Floats) : Type 0 where
  pub name : String
  pub dbtype : String
  pub reload_every : Option ℤ
  pub benchmark : String
  pub scalefactor : ℤ
  pub time : ℤ
  pub rate : ℤ
  pub isolation : String
  pub param_keys : List ParameterKey
  pub param_values : Dict String (RawValues F)
  pub replace : List (Replace F)

-- What the generator yields.
pub record Job (F : Floats) : Type 0 where
  pub args : List String
  pub metadata : Dict String (ParameterValue F)
  pub tag : String

-- The variables of the innermost loop.
pub record Workload (F : Floats) : Type 0 where
  pub workload_args : List String
  pub workload_metadata : Dict String (ParameterValue F)
  pub tag_parts : List String

-- `"," → "\\,"` in every place
escape_text : String → String
escape_text String.[] = ""
escape_text (String.◌∷◌ c text) =
    let rest = escape_text text in if eqb (code c) b',' then "\\," <> rest else String.◌∷◌ c rest

-- `param_keys` of the function: each parameter with its flag, a later entry over an earlier one.
unfoldable pub key_flags : List ParameterKey → Dict String Bool → Dict String Bool
key_flags [] flags = flags
key_flags (plain name ∷ rest) flags = key_flags rest (insert name false flags)
key_flags (keyed name none ∷ rest) flags = key_flags rest (insert name false flags)
key_flags (keyed name (some flag) ∷ rest) flags = key_flags rest (insert name flag flags)

abbrev contains_all : List String → List String → Bool
contains_all [] ys = true
contains_all (x ∷ xs) ys = contains ys x && contains_all xs ys

-- `==` on the key views of two dicts
abbrev pub same_keys : List String → List String → Bool
same_keys xs ys = contains_all xs ys && contains_all ys xs

-- `if text: parts.append(text)`
abbrev pub if_given : Option String → List String
if_given none = []
if_given (some text) = if text == "" then [] else text ∷ []

-- `text or ""`
abbrev or_empty : Option String → String
or_empty none = ""
or_empty (some text) = text

abbrev is_set : String → Dict String Bool → Bool
is_set param flags = elim (lookup param flags) [ none ↦ false | some flag ↦ flag ]

module _ (F : Floats) where
  -- `escape`: a comma would end a value of Helm's `--set`.
  pub escape : ParameterValue F → String
  unfolding escape_text show_value
  escape (str s) = escape_text s
  escape v = show_value F v

  abbrev raw_list : RawValues F → List (RawValue F)
  raw_list (many values) = values
  raw_list (single value) = value ∷ []

  -- `named_parameters[param]`; the keys of the two dicts have been compared before.
  pub named_values : Experiment F → String → List (NamedParameterValue F)
  unfolding to_named_value
  named_values exp param = elim (lookup param exp.param_values) [
    | none ↦ []
    | some values ↦ map (to_named_value F param) (raw_list values)
  ]

  -- `param in tag_params`: more than one value, or a flag.
  pub is_tag_param : Experiment F → Dict String Bool → String → Bool
  unfolding named_values
  is_tag_param exp flags param = ltb 1 (length (named_values exp param)) || is_set param flags

  pub base_args : Experiment F → List String
  unfolding show_ℤ
  base_args exp =
      "-s"
      ∷ ("dbtype=" <> exp.dbtype)
      ∷ "-s"
      ∷ ("benchmark=" <> exp.benchmark)
      ∷ "-s"
      ∷ ("scalefactor=" <> show_ℤ exp.scalefactor)
      ∷ "-s"
      ∷ ("time=" <> show_ℤ exp.time)
      ∷ "-s"
      ∷ ("rate=" <> show_ℤ exp.rate)
      ∷ "-s"
      ∷ ("isolation=" <> exp.isolation)
      ∷ []

  pub base_metadata : Experiment F → Option String → Dict String (ParameterValue F)
  base_metadata exp prefix =
      ("prefix", str (or_empty prefix))
      ∷ ("benchmark", str exp.benchmark)
      ∷ ("scalefactor", int exp.scalefactor)
      ∷ ("time", int exp.time)
      ∷ ("rate", int exp.rate)
      ∷ ("isolation", str exp.isolation)
      ∷ []

  -- The loop over the parameters of one combination.
  pub build_workload : (String → Bool) → Combination F → Workload F → Result Error (Workload F)
  unfolding escape
  build_workload in_tag [] w = ok w
  build_workload in_tag ((param, named) ∷ rest) w = elim named.value [
    | none ↦ err (none_value param)
    | some value ↦ build_workload in_tag rest (record {
      workload_args = w.workload_args ++ "-s" ∷ (param <> ("=" <> escape value)) ∷ [];
      workload_metadata = insert param value w.workload_metadata;
      tag_parts = if in_tag param then w.tag_parts ++ named.name ∷ [] else w.tag_parts;
    })
  ]

  -- What is yielded once the loop has passed.
  pub finish : Experiment F → Option String → Option String → Workload F → Job F
  unfolding base_args base_metadata
  finish exp prefix suffix w =
      let tag = join "-" (w.tag_parts ++ if_given suffix) in
      record {
        args = base_args exp ++ (w.workload_args ++ "-s" ∷ ("tag=" <> tag) ∷ []);
        metadata = update (base_metadata exp prefix) w.workload_metadata;
        tag = tag;
      }

  -- One combination: the replacements, the loop over its parameters, and the job.
  pub make_job :
      Experiment F
      → (String → Bool)
      → Option String
      → Option String
      → Combination F
      → Result Error (Job F)
  unfolding replace_values build_workload finish
  make_job exp in_tag prefix suffix c = replace_values F exp.replace c >>= λ c'.
      build_workload in_tag c' (record {
        workload_args = [];
        workload_metadata = [];
        tag_parts = if_given prefix ++ exp.name ∷ [];
      })
      >>= λ w. ok (finish exp prefix suffix w)

  -- A generator: what it yields in order, and the error that it ends with, if it raises.
  pub generate :
      (Combination F → Result Error (Job F)) → List (Combination F) → List (Job F) × Option Error
  generate make [] = ([], none)
  generate make (c ∷ rest) = elim (make c) [
    | err e ↦ ([], some e)
    | ok job ↦ let (jobs, end) = generate make rest in (job ∷ jobs, end)
  ]

  unfoldable pub benchmark_args :
      Experiment F → Option String → Option String → List (Job F) × Option Error
  unfolding key_flags is_tag_param make_job generate combinations
  benchmark_args exp prefix suffix =
      let flags = key_flags exp.param_keys [] in
      if same_keys (keys flags) (keys exp.param_values)
      then generate (make_job exp (is_tag_param exp flags) prefix suffix)
          (combinations (keys flags) (named_values exp))
      else ([], some params_mismatch)
