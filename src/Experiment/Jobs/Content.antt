-- ===== src/Experiment/Jobs/Content.antt =====
-- What each job of `benchmark_args` (tools/experiment.py) holds, as comprehensions over its combination.
use mathlib.Core.List.{append-nil, append_assoc}
use sunstorm_xactserver.Base.{
  ◌≡◌, refl, sym, ◌∙◌, ap, subst, ◌<>◌, String, Bool, Option, none, some, List, [], ◌∷◌, ◌++◌,
  arith, Distinct, Zipped, Zipped-mono, string_eq, if◌then◌else◌, Option-cases, inl, inr,
}
use sunstorm_xactserver.Base.Dict.{
  Dict, keys, lookup, update, or_else, or_else-none, lookup-update, update-Distinct,
  NodupKeys-of_Distinct,
}
use sunstorm_xactserver.Base.Result.{ok, ok-injective, >>=-eq-ok}
use sunstorm_xactserver.Base.Text.{join}
use sunstorm_xactserver.Experiment.Replace.{Combination, replace_values}
use sunstorm_xactserver.Experiment.Replace.Effect.{replace_values-keys}
use sunstorm_xactserver.Experiment.Values.{Floats, ParameterValue}
use sunstorm_xactserver.Experiment.Combine.Product.{choices, keys-choices, combinations-eq-choices}
use sunstorm_xactserver.Experiment.Jobs.Yield.{
  key_flags-Distinct, generate-Zipped, benchmark_args_generates,
}
use sunstorm_xactserver.Experiment.Jobs.{
  Experiment, Job, Workload, benchmark_args, key_flags, named_values, is_tag_param, if_given,
  escape, base_args, base_metadata, build_workload, make_job, finish,
}

module _ (F : Floats) where
  -- The parameters that have a value, with it.
  abbrev pub values_of : Combination F → Dict String (ParameterValue F)
  values_of [] = []
  values_of ((param, named) ∷ rest) = elim named.value [
    | none ↦ values_of rest
    | some value ↦ (param, value) ∷ values_of rest
  ]

  abbrev HasValues : Combination F → Type 0
  HasValues [] = Unit
  HasValues ((param, named) ∷ rest) =
      ((value : ParameterValue F) × (named.value ≡ some value)) × HasValues rest

  -- `-s param=value` for each value
  abbrev pub set_flags : Dict String (ParameterValue F) → List String
  set_flags [] = []
  set_flags ((param, value) ∷ rest) = "-s" ∷ (param <> ("=" <> escape F value)) ∷ set_flags rest

  abbrev tag_names : (String → Bool) → Combination F → List String
  tag_names in_tag [] = []
  tag_names in_tag ((param, named) ∷ rest) =
      let names = tag_names in_tag rest in if in_tag param then named.name ∷ names else names

  -- The loop is these four comprehensions, put behind what its variables held.
  pub record IsBuilt (in_tag : String → Bool) (c : Combination F) (w w' : Workload F) : Type 0 where
    pub args : w'.workload_args ≡ w.workload_args ++ set_flags (values_of c)
    pub metadata : w'.workload_metadata ≡ update w.workload_metadata (values_of c)
    parts : w'.tag_parts ≡ w.tag_parts ++ tag_names in_tag c
    pub complete : HasValues c

  pub build_workload-IsBuilt :
      (in_tag : String → Bool) (c : Combination F) (w : Workload F) {w' : Workload F}
      → build_workload F in_tag c w ≡ ok w'
      → IsBuilt in_tag c w w'
  unfolding build_workload
  build_workload-IsBuilt in_tag [] w h =
      let same = ok-injective h in
      record {
        args = ap (λ (x : Workload F). x.workload_args) (sym same) ∙ sym (append-nil _);
        metadata = ap (λ (x : Workload F). x.workload_metadata) (sym same);
        parts = ap (λ (x : Workload F). x.tag_parts) (sym same) ∙ sym (append-nil _);
        complete = tt;
      }
  build_workload-IsBuilt in_tag ((param, named) ∷ rest) w h = elim (Option-cases named.value) [
    | inl e ↦ absurd (ground arith)
    | inr (value, e) ↦
        let ih = build_workload-IsBuilt in_tag rest _ (rw (e, build_workload) at h) in
        record {
          args = ih.args ∙ rw e (append_assoc w.workload_args _ _);
          metadata = ih.metadata ∙ rw e;
          parts =
              ih.parts
              ∙ ground (arith, append_assoc w.tag_parts (named.name ∷ []) (tag_names in_tag rest));
          complete = ((value, e), ih.complete);
        }
  ]

  pub keys-values_of : (c : Combination F) → HasValues c → keys (values_of c) ≡ keys c
  keys-values_of [] h = refl
  keys-values_of ((param, named) ∷ rest) ((value, e), h) =
      rw e (ap (λ ks. param ∷ ks) (keys-values_of rest h))

  lookup-metadata :
      (base : Dict String (ParameterValue F)) (c : Combination F) (p : String)
      → Distinct (keys c)
      → HasValues c
      → lookup p (update base (update [] (values_of c)))
        ≡ or_else (lookup p (values_of c)) (lookup p base)
  lookup-metadata base c p distinct complete =
      let vs = values_of c in
      let distinct_vs : Distinct (keys vs) =
        subst (λ ks. Distinct ks) (sym (keys-values_of c complete)) distinct in
      lookup-update p base (update [] vs) (NodupKeys-of_Distinct _ (update-Distinct [] vs tt))
      ∙ ap (λ o. or_else o (lookup p base))
          (lookup-update p [] vs (NodupKeys-of_Distinct vs distinct_vs)
            ∙ or_else-none (lookup p vs))

  -- What a job says of the combination that it runs: `c` is the combination after the rules.
  pub record Runs (exp : Experiment F) (in_tag : String → Bool) (prefix suffix : Option String)
      (c : Combination F) (job : Job F) : Type 0 where
    pub complete : HasValues c
    pub args :
        job.args ≡ base_args F exp ++ (set_flags (values_of c) ++ "-s" ∷ ("tag=" <> job.tag) ∷ [])
    pub tag :
        job.tag
        ≡ join "-" (((if_given prefix ++ exp.name ∷ []) ++ tag_names in_tag c) ++ if_given suffix)
    pub metadata :
        (p : String)
        → lookup p job.metadata
          ≡ or_else (lookup p (values_of c)) (lookup p (base_metadata F exp prefix))

  make_job-Runs :
      (exp : Experiment F) (in_tag : String → Bool) (prefix suffix : Option String)
      (c : Combination F) {job : Job F}
      → Distinct (keys c)
      → make_job F exp in_tag prefix suffix c ≡ ok job
      → (c' : Combination F) × (replace_values F exp.replace c ≡ ok c')
        × Runs exp in_tag prefix suffix c' job
  unfolding make_job finish
  make_job-Runs exp in_tag prefix suffix c distinct h =
      let (c', replaced, k) = >>=-eq-ok (replace_values F exp.replace c) _ h in
      let (w, built, made) = >>=-eq-ok (build_workload F in_tag c' _) _ k in
      let b = build_workload-IsBuilt in_tag c' _ built in
      (
        c',
        replaced,
        subst (Runs exp in_tag prefix suffix c') (ok-injective made) (record {
          complete = b.complete;
          args = rw b.args;
          tag = rw b.parts;
          metadata = λ p. rw b.metadata (
              lookup-metadata (base_metadata F exp prefix) c' p
                (subst (λ ks. Distinct ks) (sym (replace_values-keys F exp.replace c replaced))
                  distinct)
                b.complete);
        }),
      )

  -- The job runs what the rules make of the combination.
  abbrev pub RunsAfterRules :
      Experiment F → Option String → Option String → Combination F → Job F → Type 0
  RunsAfterRules exp prefix suffix c job =
      (c' : Combination F) × (replace_values F exp.replace c ≡ ok c')
      × Runs exp (is_tag_param F exp (key_flags exp.param_keys [])) prefix suffix c' job

  -- A generator that ends without an error yields one job for each combination of the product,
  -- in lexicographic order, and each job runs its combination after the rules: every parameter
  -- has a value there; the arguments are the base arguments, one `-s param=value` for each
  -- parameter in order, and the tag; the tag joins the prefix, the experiment's name, the names
  -- of the tag parameters and the suffix; the metadata holds each parameter's value, and for any
  -- other key what the file fixes.
  pub benchmark_args-Runs :
      (exp : Experiment F) (prefix suffix : Option String) {jobs : List (Job F)}
      → benchmark_args F exp prefix suffix ≡ (jobs, none)
      → Zipped
          (RunsAfterRules exp prefix suffix)
          (choices (named_values F exp) (keys (key_flags exp.param_keys [])))
          jobs
  benchmark_args-Runs exp prefix suffix h =
      let params = keys (key_flags exp.param_keys []) in
      let distinct = key_flags-Distinct exp.param_keys [] tt in
      let in_tag = is_tag_param F exp (key_flags exp.param_keys []) in
      Zipped-mono (λ c. keys c ≡ params) (λ c job. make_job F exp in_tag prefix suffix c ≡ ok job)
        (RunsAfterRules exp prefix suffix)
        (λ c job e made.
          make_job-Runs exp in_tag prefix suffix c (subst (λ ks. Distinct ks) (sym e) distinct)
            made)
        (choices (named_values F exp) params) _ (keys-choices (named_values F exp) params)
        (generate-Zipped F (make_job F exp in_tag prefix suffix) _ (
          rw (← combinations-eq-choices (named_values F exp) params distinct)
            (benchmark_args_generates F exp prefix suffix h)))
