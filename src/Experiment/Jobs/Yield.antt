-- ===== src/Experiment/Jobs/Yield.antt =====
-- How many jobs `benchmark_args` (tools/experiment.py) yields.
use sunstorm_xactserver.Base.{
  ◌≡◌, sym, ◌∙◌, ap, String, Bool, false, Option, none, some, List, [], ◌∷◌, arith, length, Zipped,
  subst, Distinct, string_eq, Bool-cases, inl, inr,
}
use sunstorm_xactserver.Base.Dict.{Dict, keys, insert, insert-Distinct}
use sunstorm_xactserver.Base.Result.{Result, ok, Result-cases}
use sunstorm_xactserver.Experiment.Combine.{combinations}
use sunstorm_xactserver.Experiment.Combine.Product.{product, length-combinations}
use sunstorm_xactserver.Experiment.Replace.{Combination}
use sunstorm_xactserver.Experiment.Values.{Floats, Error}
use sunstorm_xactserver.Experiment.Jobs.{
  ParameterKey, plain, keyed, Experiment, Job, key_flags, same_keys, named_values, is_tag_param,
  make_job, generate, benchmark_args,
}

-- A parameter is listed once, however often the file names it.
pub key_flags-Distinct :
    (ks : List ParameterKey) (flags : Dict String Bool)
    → Distinct (keys flags)
    → Distinct (keys (key_flags ks flags))
unfolding key_flags
key_flags-Distinct [] flags h = h
key_flags-Distinct (plain name ∷ rest) flags h =
    key_flags-Distinct rest (insert name false flags) (insert-Distinct name false flags h)
key_flags-Distinct (keyed name none ∷ rest) flags h =
    key_flags-Distinct rest (insert name false flags) (insert-Distinct name false flags h)
key_flags-Distinct (keyed name (some flag) ∷ rest) flags h =
    key_flags-Distinct rest (insert name flag flags) (insert-Distinct name flag flags h)

module _ (F : Floats) where
  length-generate :
      (make : Combination F → Result Error (Job F)) (cs : List (Combination F))
      {jobs : List (Job F)}
      → generate F make cs ≡ (jobs, none)
      → length jobs ≡ length cs
  unfolding generate
  length-generate make [] h = ground arith
  length-generate make (c ∷ rest) h = elim (Result-cases (make c)) [
    | inl (e, failed) ↦ absurd (ground arith)
    | inr (job, made) ↦
        let (js, end) = generate F make rest in
        ground (arith, length-generate make rest {jobs = js})
  ]

  -- The keys agree wherever the generator ends without an error.
  pub benchmark_args_generates :
      (exp : Experiment F) (prefix suffix : Option String) {jobs : List (Job F)}
      → benchmark_args F exp prefix suffix ≡ (jobs, none)
      → generate F
          (make_job F exp (is_tag_param F exp (key_flags exp.param_keys [])) prefix suffix)
          (combinations (keys (key_flags exp.param_keys [])) (named_values F exp))
        ≡ (jobs, none)
  unfolding benchmark_args
  benchmark_args_generates exp prefix suffix h =
      elim (Bool-cases (same_keys (keys (key_flags exp.param_keys [])) (keys exp.param_values))) [
        | inl same ↦ ground arith
        | inr differ ↦ absurd (ground arith)
      ]

  -- A generator that ends without an error has yielded one job for each element of the product
  -- of the value lists.
  length-benchmark_args :
      (exp : Experiment F) (prefix suffix : Option String) {jobs : List (Job F)}
      → benchmark_args F exp prefix suffix ≡ (jobs, none)
      → length jobs ≡ product (named_values F exp) (keys (key_flags exp.param_keys []))
  length-benchmark_args exp prefix suffix h =
      length-generate _ _ (benchmark_args_generates exp prefix suffix h)
      ∙ length-combinations (named_values F exp) _ (key_flags-Distinct exp.param_keys [] tt)

  pub generate-Zipped :
      (make : Combination F → Result Error (Job F)) (cs : List (Combination F))
      {jobs : List (Job F)}
      → generate F make cs ≡ (jobs, none)
      → Zipped (λ c job. make c ≡ ok job) cs jobs
  unfolding generate
  generate-Zipped make [] {jobs} h = rw (ap (λ (r : List (Job F) × Option Error). r.0) (sym h)) tt
  generate-Zipped make (c ∷ rest) {jobs} h = elim (Result-cases (make c)) [
    | inl (e, failed) ↦ absurd (ground arith)
    | inr (job, made) ↦
        let (js, end) = generate F make rest in
        let ended : end ≡ none = ground arith in
        let listed : job ∷ js ≡ jobs = ground arith in
        subst (Zipped (λ d j. make d ≡ ok j) (c ∷ rest)) listed
          (made, generate-Zipped make rest (ap (λ (o : Option Error). (js, o)) ended))
  ]
