-- ===== src/Deployment/Dns.antt =====
-- `install_dns_configmap` of tools/deploy.py.
use sunstorm_xactserver.Base.{
  ℕ, ◌*◌, ◌<>◌, String, Bool, true, false, Option, none, some, List, [], ◌∷◌, ◌++◌, string_eq,
  if◌then◌else◌,
}
use sunstorm_xactserver.Base.Dict.{Dict, insert}
use sunstorm_xactserver.Base.Result.{Result, ok, err, ◌>>=◌}
use sunstorm_xactserver.Deployment.{
  Event, write_addresses, DeployError, World, Setup, Run, then_do, run_command, context_flag,
  for_each, region_set, with_regions,
}
use sunstorm_xactserver.Deployment.Wait.{Poll, try_with_timeout}

-- `dns_name[0]`, if there is one
abbrev pub first_name : Result DeployError (List String) → Result DeployError (Option String)
first_name (err e) = err e
first_name (ok []) = ok none
first_name (ok (name ∷ _)) = ok (some name)

module _ (world : World) where
  unfoldable pub get_load_balancer_public_addresses : String → Poll String
  get_load_balancer_public_addresses region k = first_name (world.balancers region k)

  -- An exception of the resolver is no answer.
  unfoldable pub get_load_balancer_ip_addresses : String → Poll (List String)
  get_load_balancer_ip_addresses lb_dns_name k = ok (world.resolve lb_dns_name k)

  -- 300 seconds
  abbrev timeout : ℕ
  timeout = 300 * world.ticks_per_second

  -- The two waits for a region.
  unfoldable pub region_addresses : String → Result DeployError (List String)
  unfolding get_load_balancer_public_addresses get_load_balancer_ip_addresses try_with_timeout
  region_addresses region =
      try_with_timeout (get_load_balancer_public_addresses region) (world.name_clock region) timeout
      >>= λ lb_dns_name.
          try_with_timeout (get_load_balancer_ip_addresses lb_dns_name) (world.address_clock region)
            timeout

  -- The first loop over the regions, on the addresses that are known so far.
  unfoldable pub fetch_addresses :
      Bool
      → List String
      → Dict String (List String)
      → Result DeployError (Dict String (List String))
  unfolding region_addresses
  fetch_addresses dry_run [] addresses = ok addresses
  fetch_addresses dry_run (region ∷ regions) addresses =
      if dry_run
      then fetch_addresses dry_run regions addresses
      else region_addresses region >>= λ found.
          fetch_addresses dry_run regions (insert region found addresses)

module _ (world : World) (setup : Setup) (dry_run : Bool) where
  -- One round of the second loop.
  unfoldable pub install_configmap : String → List Event → Run
  unfolding run_command context_flag
  install_configmap region events =
      let helm_name : String = "dns-" <> region in
      then_do
        (run_command world
          ("helm" ∷ "uninstall" ∷ helm_name ∷ context_flag setup.config region "--kube-context")
          dry_run false events)
        λ events1.
          then_do
            (run_command world
              ("kubectl"
                ∷ "delete"
                ∷ "configmap"
                ∷ "coredns"
                ∷ "--namespace"
                ∷ "kube-system"
                ∷ context_flag setup.config region "--context")
              dry_run false events1)
            (run_command world
              ("helm"
                ∷ "install"
                ∷ helm_name
                ∷ "-f"
                ∷ world.temp_file
                ∷ "--set"
                ∷ ("region=" <> (region <> (",global_region=" <> setup.config.global_region)))
                ∷ (setup.base <> "/helm-dns")
                ∷ context_flag setup.config region "--kube-context")
              dry_run true)

  -- The file is written on a dry run too.
  unfoldable pub install_in : List String → List Event → Run
  unfolding fetch_addresses install_configmap for_each
  install_in regions events = elim (fetch_addresses world dry_run regions []) [
    | err e ↦ (err e, events)
    | ok addresses ↦ for_each install_configmap regions (events ++ write_addresses addresses ∷ [])
  ]

  unfoldable pub install_dns_configmap : List Event → Run
  unfolding install_in region_set
  install_dns_configmap = with_regions world setup dry_run install_in
