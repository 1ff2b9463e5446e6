-- ===== src/Experiment/Jobs/Names.antt =====
-- The keys of the metadata of the jobs of tools/experiment.py: the same for all jobs.
use sunstorm_xactserver.Base.{
  ◌≡◌, refl, sym, ◌∙◌, ap, subst, String, Bool, false, ◌||◌, Option, List, [], ◌∷◌, ◌++◌, All,
  arith, contains, Distinct, string_eq, if◌then◌else◌, Bool-cases, inl, inr,
}
use sunstorm_xactserver.Base.Dict.{Dict, keys, insert, update, update-Distinct}
use sunstorm_xactserver.Base.Result.{ok, >>=-eq-ok, ok-injective, Result-cases}
use sunstorm_xactserver.Experiment.Combine.{combinations}
use sunstorm_xactserver.Experiment.Combine.Product.{keys-choices, combinations-eq-choices}
use sunstorm_xactserver.Experiment.Jobs.Content.{values_of, keys-values_of, build_workload-IsBuilt}
use sunstorm_xactserver.Experiment.Jobs.Yield.{key_flags-Distinct}
use sunstorm_xactserver.Experiment.Replace.{Combination, replace_values}
use sunstorm_xactserver.Experiment.Replace.Effect.{replace_values-keys}
use sunstorm_xactserver.Experiment.Progress.{as_text}
use sunstorm_xactserver.Experiment.Progress.Records.{IsFree}
use sunstorm_xactserver.Experiment.Values.{Floats, ParameterValue}
use sunstorm_xactserver.Experiment.Jobs.{
  Experiment, Job, benchmark_args, generate, make_job, finish, build_workload, key_flags, same_keys,
  named_values, is_tag_param, base_metadata,
}

-- The keys of a dict after others have been written.
abbrev add_keys : List String → List String → List String
add_keys ks [] = ks
add_keys ks (p ∷ ps) = add_keys (if contains ks p then ks else ks ++ p ∷ []) ps

contains-append :
    (xs ys : List String) (k : String) → contains (xs ++ ys) k ≡ (contains xs k || contains ys k)
contains-append [] ys k = refl
contains-append (x ∷ xs) ys k = ground (arith, contains-append xs ys k)

contains-add_keys :
    (ks ps : List String) (k : String)
    → contains (add_keys ks ps) k ≡ (contains ks k || contains ps k)
contains-add_keys ks [] k = ground arith
contains-add_keys ks (p ∷ ps) k = elim (Bool-cases (contains ks p)) [
  | inl e ↦ rw e (ground (arith, contains-add_keys ks ps k, e))
  | inr e ↦
      rw e (ground (arith, contains-add_keys (ks ++ p ∷ []) ps k, contains-append ks (p ∷ []) k))
]

keys-insert-any {ℓ} :
    {V : Type ℓ} (k : String) (v : V) (d : Dict String V)
    → keys (insert k v d) ≡ (if contains (keys d) k then keys d else keys d ++ k ∷ [])
keys-insert-any k v [] = refl
keys-insert-any k v (_ ∷ d) = ground (arith, keys-insert-any k v d)

keys-update {ℓ} :
    {V : Type ℓ} (d u : Dict String V) → keys (update d u) ≡ add_keys (keys d) (keys u)
keys-update d [] = refl
keys-update d ((k, v) ∷ u) =
    keys-update (insert k v d) u ∙ ap (λ ks. add_keys ks (keys u)) (keys-insert-any k v d)

-- No parameter has the name of a field that the loop keeps in a record.
pub record HasFreeParams (params : List String) : Type 0 where
  pub status : contains params "status" ≡ false
  pub reloaded : contains params "reloaded" ≡ false
  pub throughput : contains params "throughput" ≡ false
  pub goodput : contains params "goodput" ≡ false
  pub tag : contains params "tag" ≡ false

abbrev base_names : List String
base_names = "prefix" ∷ "benchmark" ∷ "scalefactor" ∷ "time" ∷ "rate" ∷ "isolation" ∷ []

-- The keys of the metadata, from the names of the parameters.
abbrev pub metadata_names : List String → List String
metadata_names params = add_keys base_names (add_keys [] params)

contains-metadata_names :
    (params : List String) (k : String)
    → contains base_names k ≡ false
    → contains params k ≡ false
    → contains (metadata_names params) k ≡ false
contains-metadata_names params k base free =
    contains-add_keys base_names (add_keys [] params) k
    ∙ ap (λ b. b || contains (add_keys [] params) k) base
    ∙ contains-add_keys [] params k
    ∙ free

module _ (F : Floats) where
  keys-as_text : (m : Dict String (ParameterValue F)) → keys (as_text F m) ≡ keys m
  unfolding as_text
  keys-as_text [] = refl
  keys-as_text ((k, v) ∷ m) = ap (λ ks. k ∷ ks) (keys-as_text m)

  -- Metadata with these keys, each once and none a field of the loop's own.
  abbrev pub IsNamed : List String → Dict String (ParameterValue F) → Type 0
  IsNamed names metadata = IsFree (as_text F metadata) × (keys (as_text F metadata) ≡ names)

  IsNamed-of_keys :
      (params : List String) (m : Dict String (ParameterValue F))
      → HasFreeParams params
      → Distinct (keys m)
      → keys m ≡ metadata_names params
      → IsNamed (metadata_names params) m
  unfolding string_eq
  IsNamed-of_keys params m free distinct e =
      let same = keys-as_text m ∙ e in
      (
        record {
          status = rw same (contains-metadata_names params "status" refl free.status);
          reloaded = rw same (contains-metadata_names params "reloaded" refl free.reloaded);
          throughput = rw same (contains-metadata_names params "throughput" refl free.throughput);
          goodput = rw same (contains-metadata_names params "goodput" refl free.goodput);
          tag = rw same (contains-metadata_names params "tag" refl free.tag);
          distinct = subst (λ ks. Distinct ks) (sym (keys-as_text m)) distinct;
        },
        same,
      )

  module _ (exp : Experiment F) (in_tag : String → Bool) (prefix suffix : Option String)
      (params : List String) (free : HasFreeParams params) where
    make_job-IsNamed :
        (c : Combination F) (job : Job F)
        → keys c ≡ params
        → make_job F exp in_tag prefix suffix c ≡ ok job
        → IsNamed (metadata_names params) job.metadata
    unfolding make_job finish base_metadata string_eq
    make_job-IsNamed c job e h =
        let (c', replaced, k) = >>=-eq-ok (replace_values F exp.replace c) _ h in
        let (w, built, made) = >>=-eq-ok (build_workload F in_tag c' _) _ k in
        let b = build_workload-IsBuilt F in_tag c' _ built in
        let base = base_metadata F exp prefix in
        let workload : keys w.workload_metadata ≡ add_keys [] params =
          ap (λ (d : Dict String (ParameterValue F)). keys d) b.metadata
          ∙ keys-update [] (values_of F c')
          ∙ ap (add_keys [])
              (keys-values_of F c' b.complete ∙ replace_values-keys F exp.replace c replaced ∙ e) in
        subst (λ (j : Job F). IsNamed (metadata_names params) j.metadata) (ok-injective made)
          (IsNamed-of_keys params (update base w.workload_metadata) free
            (update-Distinct base w.workload_metadata
              (refl, (refl, (refl, (refl, (refl, (refl, tt)))))))
            (keys-update base w.workload_metadata ∙ ap (add_keys base_names) workload))

    generate-IsNamed :
        (cs : List (Combination F))
        → All (λ c. keys c ≡ params) cs
        → All
            (λ job. IsNamed (metadata_names params) job.metadata)
            (generate F (make_job F exp in_tag prefix suffix) cs).0
    unfolding generate
    generate-IsNamed [] h = tt
    generate-IsNamed (c ∷ cs) (here, h) =
        elim (Result-cases (make_job F exp in_tag prefix suffix c)) [
          | inl (e, failed) ↦ rw (failed, generate) tt
          | inr (job, made) ↦
              rw (made, generate) (make_job-IsNamed c job here made, generate-IsNamed cs h)
        ]

  -- Where no parameter has the name of a field of the loop's own, the metadata of all jobs has the
  -- same keys, each once and none such a field.
  pub benchmark_args-IsNamed :
      (exp : Experiment F) (prefix suffix : Option String)
      → let params = keys (key_flags exp.param_keys []) in
        HasFreeParams params
        → All
            (λ (job : Job F). IsNamed (metadata_names params) job.metadata)
            (benchmark_args F exp prefix suffix).0
  unfolding benchmark_args
  benchmark_args-IsNamed exp prefix suffix free =
      let flags = key_flags exp.param_keys [] in
      let distinct = key_flags-Distinct exp.param_keys [] tt in
      elim (Bool-cases (same_keys (keys flags) (keys exp.param_values))) [
        | inl e ↦ rw e (
            generate-IsNamed exp (is_tag_param F exp flags) prefix suffix (keys flags) free
              (combinations (keys flags) (named_values F exp))
              (subst (All (λ (c : Combination F). keys c ≡ keys flags))
                (sym (combinations-eq-choices (named_values F exp) (keys flags) distinct))
                (keys-choices (named_values F exp) (keys flags))))
        | inr e ↦ rw e tt
      ]
