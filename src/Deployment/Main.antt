-- ===== src/Deployment/Main.antt =====
-- `main` of tools/deploy.py: the stages, and those that are not skipped.
use sunstorm_xactserver.Base.{
  ℕ, zero, suc, String, Bool, Option, none, some, List, [], ◌∷◌, contains, string_eq, if◌then◌else◌,
}
use sunstorm_xactserver.Base.Result.{ok}
use sunstorm_xactserver.Deployment.{
  Event, World, Setup, Run, then_do, set_up_load_balancer_for_coredns, start_pushgateway,
}
use sunstorm_xactserver.Deployment.Dns.{install_dns_configmap}
use sunstorm_xactserver.Deployment.Kubernetes.{create_namespaces}
use sunstorm_xactserver.Deployment.Neon.{index_of, deploy_neon}

abbrev pub all_stages : List String
all_stages = "load-balancer" ∷ "dns" ∷ "namespace" ∷ "neon" ∷ "pushgateway" ∷ []

-- `xs[i:j]`
unfoldable pub slice : ℕ → ℕ → List String → List String
slice i zero xs = []
slice i (suc j) [] = []
slice zero (suc j) (x ∷ xs) = x ∷ slice 0 j xs
slice (suc i) (suc j) (x ∷ xs) = slice i j xs

-- `skip_before` and `skip_after` are among the stages, which the parser sees to.
pub record Arguments : Type 0 where
  pub skip_before : Option String
  pub skip_after : Option String
  pub clean_up_neon : Bool
  pub stages : Bool
  pub dry_run : Bool

abbrev or_index : Option ℕ → ℕ → ℕ
or_index none d = d
or_index (some i) d = i

-- `all_stages.index(given) if given else default`; without a stage of that name the default, where
-- the source would raise.
unfoldable pub stage_index : Option String → ℕ → ℕ
unfolding index_of
stage_index none d = d
stage_index (some stage) d = or_index (index_of stage all_stages) d

unfoldable pub unskipped_stages : Arguments → List String
unfolding slice stage_index
unskipped_stages args =
    slice (stage_index args.skip_before 0) (suc (stage_index args.skip_after 4)) all_stages

-- A stage, if it is not skipped.
unfoldable pub run_if : Bool → (List Event → Run) → List Event → Run
run_if chosen f events = if chosen then f events else (ok tt, events)

unfoldable pub main : World → Setup → ℕ → Arguments → List Event → Run
unfolding run_if unskipped_stages set_up_load_balancer_for_coredns install_dns_configmap
    create_namespaces deploy_neon start_pushgateway
main world setup fuel args events =
    let chosen : String → Bool = contains (unskipped_stages args) in
    if args.stages
    then (ok tt, events)
    else then_do
        (run_if (chosen "load-balancer") (set_up_load_balancer_for_coredns world setup args.dry_run)
          events)
        λ events1.
          then_do (run_if (chosen "dns") (install_dns_configmap world setup args.dry_run) events1)
            λ events2.
              then_do
                (run_if (chosen "namespace") (create_namespaces world setup args.dry_run fuel)
                  events2)
                λ events3.
                  then_do
                    (run_if (chosen "neon")
                      (deploy_neon world setup args.dry_run args.clean_up_neon) events3)
                    (run_if (chosen "pushgateway") (start_pushgateway world setup args.dry_run))
