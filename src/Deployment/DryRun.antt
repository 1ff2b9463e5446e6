-- ===== src/Deployment/DryRun.antt =====
-- What tools/deploy.py does on a dry run.
use sunstorm_xactserver.Base.{
  ℕ, zero, suc, ◌≡◌, refl, sym, ◌∙◌, ap, subst, String, Bool, true, false, List, [], ◌∷◌, ◌++◌, All,
  All-append, Bool-cases, Option-cases, inl, inr, ◌==◌, string_eq, if◌then◌else◌,
}
use sunstorm_xactserver.Base.Dict.{Dict}
use sunstorm_xactserver.Base.Result.{Result, ok, err, Result-cases}
use sunstorm_xactserver.Config.{NamespaceInfo, get_namespaces}
use sunstorm_xactserver.Shell.{Command}
use sunstorm_xactserver.Deployment.{
  Event, delete_namespace, create_namespace, write_addresses, DeployError, bad_body, World, Setup,
  Run, run_command, run_pool, for_each, region_set, unless_single, create_load_balancer,
  set_up_load_balancer_for_coredns, clean_up_neon_one_namespace, pushgateways, start_pushgateway,
}
use sunstorm_xactserver.Deployment.Dns.{
  fetch_addresses, install_configmap, install_in, install_dns_configmap,
}
use sunstorm_xactserver.Deployment.Kubernetes.{
  Next, raise, retry, stop, after_answer, get_config, clean_up_namespace, create_from,
  create_one_namespace, create_namespaces,
}
use sunstorm_xactserver.Deployment.Neon.{
  index_of, ordered_namespaces, deploy_neon_one_namespace, deploy_neon,
}
use sunstorm_xactserver.Deployment.Main.{Arguments, stage_index, run_if, main}
use sunstorm_xactserver.Deployment.Stages.{in_range, run_range, stage_runs, main_range}
use sunstorm_xactserver.Deployment.Harmless.{
  IsHarmless, Harmless, Keeps, then_do-Harmless, for_each-Keeps, run_pool-Keeps,
}

module _ (world : World) (setup : Setup) where
  run_command-Keeps : (cmd : Command) (check : Bool) → Keeps (run_command world cmd true check)
  unfolding run_command
  run_command-Keeps cmd check events h = h

  clean_up-Keeps :
      (n : String × NamespaceInfo) → Keeps (clean_up_neon_one_namespace world setup true n)
  unfolding clean_up_neon_one_namespace
  clean_up-Keeps (namespace, info) events h = h

  pushgateways-Keeps : (ns : Dict String NamespaceInfo) → Keeps (pushgateways world setup true ns)
  unfolding pushgateways
  pushgateways-Keeps [] events h = h
  pushgateways-Keeps ((namespace, info) ∷ rest) events h =
      elim (Bool-cases (namespace == "global")) [
        | inl e ↦ rw (e, pushgateways) (pushgateways-Keeps rest events h)
        | inr e ↦ rw (e, pushgateways) (pushgateways-Keeps rest events h)
      ]

  start-Keeps : Keeps (start_pushgateway world setup true)
  unfolding start_pushgateway
  start-Keeps = pushgateways-Keeps (get_namespaces setup.config)

  create_load_balancer-Keeps :
      (region : String) → Keeps (create_load_balancer world setup true region)
  unfolding create_load_balancer
  create_load_balancer-Keeps region events h = h

  unless_single-Keeps :
      (f : List String → List Event → Run) (found : Result DeployError (List String))
      → ((rs : List String) → Keeps (f rs))
      → Keeps (unless_single f found)
  unless_single-Keeps f (err e) k events h = h
  unless_single-Keeps f (ok []) k events h = k [] events h
  unless_single-Keeps f (ok (_ ∷ [])) k events h = h
  unless_single-Keeps f (ok (a ∷ b ∷ regions)) k events h = k (a ∷ b ∷ regions) events h

  set_up-Keeps : Keeps (set_up_load_balancer_for_coredns world setup true)
  unfolding set_up_load_balancer_for_coredns
  set_up-Keeps =
      unless_single-Keeps (for_each (create_load_balancer world setup true))
        (region_set world setup true)
        (λ rs. for_each-Keeps (create_load_balancer world setup true) rs create_load_balancer-Keeps)

  install_configmap-Keeps : (region : String) → Keeps (install_configmap world setup true region)
  unfolding install_configmap
  install_configmap-Keeps region events h = h

  fetch_addresses_dry :
      (regions : List String) (known : Dict String (List String))
      → fetch_addresses world true regions known ≡ ok known
  unfolding fetch_addresses
  fetch_addresses_dry [] known = refl
  fetch_addresses_dry (r ∷ regions) known = fetch_addresses_dry regions known

  install_in-Keeps : (regions : List String) → Keeps (install_in world setup true regions)
  unfolding install_in
  install_in-Keeps regions events h =
      rw (fetch_addresses_dry regions [], install_in)
        (for_each-Keeps (install_configmap world setup true) regions install_configmap-Keeps
          (events ++ write_addresses [] ∷ [])
          (All-append IsHarmless events (write_addresses [] ∷ []) h (refl, tt)))

  install_dns-Keeps : Keeps (install_dns_configmap world setup true)
  unfolding install_dns_configmap
  install_dns-Keeps =
      unless_single-Keeps (install_in world setup true) (region_set world setup true)
        install_in-Keeps

  clean_up_namespace-Keeps :
      (n : String × NamespaceInfo) → Keeps (clean_up_namespace world setup true n)
  unfolding clean_up_namespace
  clean_up_namespace-Keeps (namespace, info) events h =
      elim (Result-cases (get_config world setup.config info.region)) [
        | inl (e, failed) ↦ rw (failed, clean_up_namespace) h
        | inr (_, found) ↦
            rw (found, clean_up_namespace)
              (All-append IsHarmless events (delete_namespace namespace true ∷ []) h (refl, tt))
      ]

  create_from-Keeps :
      (fuel k : ℕ) (namespace : String) → Keeps (create_from world setup true fuel k namespace)
  unfolding create_from
  create_from-Keeps zero k namespace events h = h
  create_from-Keeps (suc fuel) k namespace events h =
      go (after_answer (world.create_answer namespace k))
        (All-append IsHarmless events (create_namespace namespace true ∷ []) h (refl, tt))
        (create_from-Keeps fuel (suc k) namespace)
    where
      go :
          (answer : Next)
          → let events1 = events ++ create_namespace namespace true ∷ [] in
            Harmless events1
            → Keeps (create_from world setup true fuel (suc k) namespace)
            → let out : Run = elim answer [
              | raise ↦ (err bad_body, events1)
              | retry ↦ create_from world setup true fuel (suc k) namespace events1
              | stop ↦ (ok tt, events1)
            ] in
              Harmless out.1
      go raise h1 keeps = h1
      go retry h1 keeps = keeps (events ++ create_namespace namespace true ∷ []) h1
      go stop h1 keeps = h1

  create_one-Keeps :
      (fuel : ℕ) (n : String × NamespaceInfo) → Keeps (create_one_namespace world setup true fuel n)
  unfolding create_one_namespace
  create_one-Keeps fuel (namespace, info) events h =
      elim (Result-cases (get_config world setup.config info.region)) [
        | inl (e, failed) ↦ rw (failed, create_one_namespace) h
        | inr (_, found) ↦
            rw (found, create_one_namespace) (create_from-Keeps fuel 0 namespace events h)
      ]

  create_namespaces-Keeps : (fuel : ℕ) → Keeps (create_namespaces world setup true fuel)
  unfolding create_namespaces
  create_namespaces-Keeps fuel events h =
      let ns = get_namespaces setup.config in
      then_do-Harmless (run_pool (clean_up_neon_one_namespace world setup true) ns events) _
        (run_pool-Keeps (clean_up_neon_one_namespace world setup true) ns clean_up-Keeps events h)
        λ events1 h1.
          then_do-Harmless (run_pool (clean_up_namespace world setup true) ns events1)
            (run_pool (create_one_namespace world setup true fuel) ns)
            (run_pool-Keeps (clean_up_namespace world setup true) ns clean_up_namespace-Keeps
              events1 h1)
            (run_pool-Keeps (create_one_namespace world setup true fuel) ns (create_one-Keeps fuel))

  deploy_one-Keeps :
      (n : String × NamespaceInfo) → Keeps (deploy_neon_one_namespace world setup true n)
  unfolding deploy_neon_one_namespace
  deploy_one-Keeps (namespace, info) events h =
      elim (Option-cases (index_of namespace (ordered_namespaces setup.config))) [
        | inl missing ↦ rw (missing, deploy_neon_one_namespace) h
        | inr (i, listed) ↦ rw (listed, deploy_neon_one_namespace) h
      ]

  deploy_neon-Keeps : (cleanup_only : Bool) → Keeps (deploy_neon world setup true cleanup_only)
  unfolding deploy_neon
  deploy_neon-Keeps cleanup_only events h =
      let ns = get_namespaces setup.config in
      then_do-Harmless (run_pool (clean_up_neon_one_namespace world setup true) ns events) _
        (run_pool-Keeps (clean_up_neon_one_namespace world setup true) ns clean_up-Keeps events h)
        (λ events1 h1. go cleanup_only events1 h1)
    where
      go :
          (only : Bool)
          → Keeps (λ events1.
            if only
            then (ok tt, events1)
            else run_pool
                (deploy_neon_one_namespace world setup true)
                (get_namespaces setup.config)
                events1)
      go true events1 h1 = h1
      go false events1 h1 =
          run_pool-Keeps (deploy_neon_one_namespace world setup true) (get_namespaces setup.config)
            deploy_one-Keeps events1 h1

  run_if-Harmless : (chosen : Bool) (f : List Event → Run) → Keeps f → Keeps (run_if chosen f)
  unfolding run_if
  run_if-Harmless true f k events h = k events h
  run_if-Harmless false f k events h = h

  run_range-Keeps :
      (i j k : ℕ) (fs : List (List Event → Run)) → All Keeps fs → Keeps (run_range i j k fs)
  run_range-Keeps i j k [] h events clean = clean
  run_range-Keeps i j k (f ∷ []) (here, h) events clean =
      run_if-Harmless (in_range i j k) f here events clean
  run_range-Keeps i j k (f ∷ g ∷ fs) (here, h) events clean =
      then_do-Harmless (run_if (in_range i j k) f events) (run_range i j (suc k) (g ∷ fs))
        (run_if-Harmless (in_range i j k) f here events clean)
        (run_range-Keeps i j (suc k) (g ∷ fs) h)

  stage_runs-Keeps :
      (fuel : ℕ) (clean_up_neon : Bool) → All Keeps (stage_runs world setup fuel clean_up_neon true)
  stage_runs-Keeps fuel clean_up_neon = (
    set_up-Keeps,
    (
      install_dns-Keeps,
      (create_namespaces-Keeps fuel, (deploy_neon-Keeps clean_up_neon, (start-Keeps, tt))),
    ),
  )

-- On a dry run, whatever the stages and whatever the world answers, no command is run and no
-- address is written, and every call of the Kubernetes API asks for a dry run.
pub main-IsHarmless :
    (world : World) (setup : Setup) (fuel : ℕ) (args : Arguments)
    → args.dry_run ≡ true
    → All IsHarmless (main world setup fuel args []).1
unfolding main
main-IsHarmless world setup fuel args dry = elim (Bool-cases args.stages) [
  | inl shown ↦ rw (shown, main) tt
  | inr run ↦
      let i = stage_index args.skip_before 0 in
      let j = suc (stage_index args.skip_after 4) in
      let same =
        main_range world setup fuel args [] run
        ∙ ap (λ d. run_range i j 0 (stage_runs world setup fuel args.clean_up_neon d) []) dry in
      subst (λ out. All IsHarmless out.1) (sym same)
        (run_range-Keeps world setup i j 0 (stage_runs world setup fuel args.clean_up_neon true)
          (stage_runs-Keeps world setup fuel args.clean_up_neon) [] tt)
]
