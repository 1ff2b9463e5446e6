-- ===== src/Experiment/Jobs/Metadata.antt =====
-- The metadata of the jobs of tools/experiment.py does not depend on the suffix of the tags.
use sunstorm_xactserver.Base.{
  ◌≡◌, ◌↔◌, subst, All, refl, String, Bool, Option, some, List, [], ◌∷◌, ◌++◌, map, Bool-cases, inl,
  inr,
}
use sunstorm_xactserver.Base.Dict.{Dict, keys}
use sunstorm_xactserver.Base.Result.{Result, ok, err, ◌>>=◌}
use sunstorm_xactserver.Experiment.Combine.{combinations}
use sunstorm_xactserver.Experiment.Jobs.{
  Experiment, Job, finish, make_job, generate, benchmark_args, key_flags, same_keys, is_tag_param,
  named_values, build_workload, if_given,
}
use sunstorm_xactserver.Experiment.Replace.{Combination, replace_values}
use sunstorm_xactserver.Experiment.Values.{Floats, Error, ParameterValue}

module _ (F : Floats) where
  -- The same error, or jobs with the same metadata.
  data SameMetadata : Result Error (Job F) → Result Error (Job F) → Type 0 where
    same_error : (e : Error) → SameMetadata (err e) (err e)
    same_job : (a b : Job F) → a.metadata ≡ b.metadata → SameMetadata (ok a) (ok b)

  bind-SameMetadata :
      {A : Type 0} (r : Result Error A) (f g : A → Result Error (Job F))
      → ((a : A) → SameMetadata (f a) (g a))
      → SameMetadata (r >>= f) (r >>= g)
  bind-SameMetadata (ok a) f g h = h a
  bind-SameMetadata (err e) f g h = same_error e

  abbrev all_metadata : List (Job F) → List (Dict String (ParameterValue F))
  all_metadata jobs = map (λ (job : Job F). job.metadata) jobs

  -- The same metadata in the same order, and the same error at the end.
  abbrev YieldsSame : List (Job F) × Option Error → List (Job F) × Option Error → Type 0
  YieldsSame (jobs, end) (jobs', end') = (all_metadata jobs ≡ all_metadata jobs') × (end ≡ end')

  abbrev yield : Result Error (Job F) → List (Job F) × Option Error → List (Job F) × Option Error
  yield r rest = elim r [ err e ↦ ([], some e) | ok job ↦ (job ∷ rest.0, rest.1) ]

  yield-YieldsSame :
      {r r' : Result Error (Job F)} (rest rest' : List (Job F) × Option Error)
      → SameMetadata r r'
      → YieldsSame rest rest'
      → YieldsSame (yield r rest) (yield r' rest')
  yield-YieldsSame rest rest' (same_error e) h = (refl, refl)
  yield-YieldsSame rest rest' (same_job a b e) h = (cc, h.1)

  module _ (exp : Experiment F) (in_tag : String → Bool) (prefix a b : Option String) where
    make_job-SameMetadata :
        (c : Combination F)
        → SameMetadata (make_job F exp in_tag prefix a c) (make_job F exp in_tag prefix b c)
    unfolding make_job finish
    make_job-SameMetadata c = bind-SameMetadata (replace_values F exp.replace c) _ _ λ c'.
        bind-SameMetadata
          (build_workload F in_tag c' (record {
            workload_args = [];
            workload_metadata = [];
            tag_parts = if_given prefix ++ exp.name ∷ [];
          }))
          _ _ (λ w. same_job (finish F exp prefix a w) (finish F exp prefix b w) refl)

    generate-YieldsSame :
        (cs : List (Combination F))
        → YieldsSame
            (generate F (make_job F exp in_tag prefix a) cs)
            (generate F (make_job F exp in_tag prefix b) cs)
    unfolding generate
    generate-YieldsSame [] = (refl, refl)
    generate-YieldsSame (c ∷ cs) =
        yield-YieldsSame (generate F (make_job F exp in_tag prefix a) cs)
          (generate F (make_job F exp in_tag prefix b) cs) (make_job-SameMetadata c)
          (generate-YieldsSame cs)

  -- Two calls of the generator that differ in the suffix alone.
  pub benchmark_args-YieldsSame :
      (exp : Experiment F) (prefix a b : Option String)
      → YieldsSame (benchmark_args F exp prefix a) (benchmark_args F exp prefix b)
  unfolding benchmark_args
  benchmark_args-YieldsSame exp prefix a b =
      let flags = key_flags exp.param_keys [] in
      elim (Bool-cases (same_keys (keys flags) (keys exp.param_values))) [
        | inl e ↦ rw e (
            generate-YieldsSame exp (is_tag_param F exp flags) prefix a b
              (combinations (keys flags) (named_values F exp)))
        | inr e ↦ rw e (refl, refl)
      ]

  All-all_metadata :
      (P : Dict String (ParameterValue F) → Type 0) (jobs : List (Job F))
      → All (λ job. P job.metadata) jobs ↔ All P (all_metadata jobs)
  All-all_metadata P [] = (λ h. h, λ h. h)
  All-all_metadata P (job ∷ jobs) =
      let (to, from) = All-all_metadata P jobs in (λ h. (h.0, to h.1), λ h. (h.0, from h.1))

  -- What holds of the metadata of some jobs holds of other jobs with the same metadata.
  pub All-of_metadata :
      (P : Dict String (ParameterValue F) → Type 0) (jobs jobs' : List (Job F))
      → all_metadata jobs ≡ all_metadata jobs'
      → All (λ job. P job.metadata) jobs
      → All (λ job. P job.metadata) jobs'
  All-of_metadata P jobs jobs' same h =
      (All-all_metadata P jobs').1 (subst (All P) same ((All-all_metadata P jobs).0 h))
