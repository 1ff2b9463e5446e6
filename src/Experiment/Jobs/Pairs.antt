-- ===== src/Experiment/Jobs/Pairs.antt =====
-- The arguments of the jobs of tools/experiment.py: settings, with `-s` before each.
use sunstorm_xactserver.Base.{
  ◌≡◌, refl, sym, ◌∙◌, ap, subst, ◌<>◌, String, Bool, Option, List, [], ◌∷◌, ◌++◌, All, Bool-cases,
  inl, inr,
}
use sunstorm_xactserver.Base.Dict.{Dict, keys}
use sunstorm_xactserver.Base.Result.{Result, ok, >>=-eq-ok, ok-injective, Result-cases}
use sunstorm_xactserver.Experiment.Combine.{combinations}
use sunstorm_xactserver.Experiment.Jobs.{
  Experiment, Job, base_args, escape, finish, make_job, generate, benchmark_args, build_workload,
  key_flags, same_keys, is_tag_param, named_values, if_given,
}
use sunstorm_xactserver.Experiment.Replace.{Combination, replace_values}
use sunstorm_xactserver.Experiment.Values.{Floats, Error, ParameterValue}
use sunstorm_xactserver.Experiment.Jobs.Content.{set_flags, values_of, build_workload-IsBuilt}
use sunstorm_xactserver.Base.Text.{join}

-- Settings, as arguments of a command line.
abbrev pub pairs : List String → List String
pairs [] = []
pairs (v ∷ vs) = "-s" ∷ v ∷ pairs vs

-- Every second argument.
abbrev pub settings_of : List String → List String
settings_of [] = []
settings_of (x ∷ []) = []
settings_of (x ∷ v ∷ rest) = v ∷ settings_of rest

settings_of-pairs : (vs : List String) → settings_of (pairs vs) ≡ vs
settings_of-pairs [] = refl
settings_of-pairs (v ∷ vs) = ap (λ ws. v ∷ ws) (settings_of-pairs vs)

pub pairs-append : (vs ws : List String) → pairs (vs ++ ws) ≡ pairs vs ++ pairs ws
pairs-append [] ws = refl
pairs-append (v ∷ vs) ws = ap (λ xs. "-s" ∷ v ∷ xs) (pairs-append vs ws)

-- Arguments that are settings, each with `-s` before it.
abbrev pub IsPairs : List String → Type 0
IsPairs args = args ≡ pairs (settings_of args)

IsPairs-pairs : (vs : List String) → IsPairs (pairs vs)
IsPairs-pairs vs = ap pairs (sym (settings_of-pairs vs))

IsPairs-append : (xs ys : List String) → IsPairs xs → IsPairs ys → IsPairs (xs ++ ys)
IsPairs-append xs ys e e' =
    let together =
      ap (λ zs. zs ++ ys) e
      ∙ ap (λ zs. pairs (settings_of xs) ++ zs) e'
      ∙ sym (pairs-append (settings_of xs) (settings_of ys)) in
    subst IsPairs (sym together) (IsPairs-pairs (settings_of xs ++ settings_of ys))

module _ (F : Floats) where
  set_flags-IsPairs : (vs : Dict String (ParameterValue F)) → IsPairs (set_flags F vs)
  set_flags-IsPairs [] = refl
  set_flags-IsPairs ((param, value) ∷ rest) =
      ap (λ args. "-s" ∷ (param <> ("=" <> escape F value)) ∷ args) (set_flags-IsPairs rest)

  base_args-IsPairs : (exp : Experiment F) → IsPairs (base_args F exp)
  unfolding base_args
  base_args-IsPairs exp = refl

  module _ (exp : Experiment F) (in_tag : String → Bool) (prefix suffix : Option String) where
    make_job-IsPairs :
        (c : Combination F) (job : Job F)
        → make_job F exp in_tag prefix suffix c ≡ ok job
        → IsPairs job.args
    unfolding make_job finish
    make_job-IsPairs c job h =
        let (c', replaced, k) = >>=-eq-ok (replace_values F exp.replace c) _ h in
        let (w, built, made) = >>=-eq-ok (build_workload F in_tag c' _) _ k in
        let tail : List String =
          "-s" ∷ ("tag=" <> join "-" (w.tag_parts ++ if_given suffix)) ∷ [] in
        let workload =
          subst IsPairs (sym (build_workload-IsBuilt F in_tag c' _ built).args)
            (set_flags-IsPairs (values_of F c')) in
        subst (λ (j : Job F). IsPairs j.args) (ok-injective made)
          (IsPairs-append (base_args F exp) (w.workload_args ++ tail) (base_args-IsPairs exp)
            (IsPairs-append w.workload_args tail workload refl))

  generate-All :
      (P : Job F → Type 0) (make : Combination F → Result Error (Job F))
      → ((c : Combination F) (job : Job F) → make c ≡ ok job → P job)
      → (cs : List (Combination F)) → All P (generate F make cs).0
  unfolding generate
  generate-All P make f [] = tt
  generate-All P make f (c ∷ cs) = elim (Result-cases (make c)) [
    | inl (e, failed) ↦ rw (failed, generate) tt
    | inr (job, made) ↦ rw (made, generate) (f c job made, generate-All P make f cs)
  ]

  -- The arguments of every job are settings, each with `-s` before it.
  pub benchmark_args-IsPairs :
      (exp : Experiment F) (prefix suffix : Option String)
      → All (λ (job : Job F). IsPairs job.args) (benchmark_args F exp prefix suffix).0
  unfolding benchmark_args
  benchmark_args-IsPairs exp prefix suffix =
      let flags = key_flags exp.param_keys [] in
      elim (Bool-cases (same_keys (keys flags) (keys exp.param_values))) [
        | inl e ↦ rw e (
            generate-All (λ job. IsPairs job.args)
              (make_job F exp (is_tag_param F exp flags) prefix suffix)
              (make_job-IsPairs exp (is_tag_param F exp flags) prefix suffix)
              (combinations (keys flags) (named_values F exp)))
        | inr e ↦ rw e tt
      ]
