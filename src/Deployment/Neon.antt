-- ===== src/Deployment/Neon.antt =====
-- `deploy_neon` of tools/deploy.py.
use sunstorm_xactserver.Base.{
  ℕ, suc, ◌<>◌, String, Bool, true, Option, none, some, List, [], ◌∷◌, ◌++◌, ◌==◌, string_eq,
  if◌then◌else◌,
}
use sunstorm_xactserver.Base.Dict.{keys}
use sunstorm_xactserver.Base.Result.{ok, err}
use sunstorm_xactserver.Base.Text.{show, join}
use sunstorm_xactserver.Config.{MainConfig, NamespaceInfo, get_namespaces}
use sunstorm_xactserver.Shell.{Command}
use sunstorm_xactserver.Benchmark.Operation.{sort_by_id, all_info_settings}
use sunstorm_xactserver.Deployment.{
  Event, not_listed, World, Setup, Run, then_do, run_command, context_flag, run_pool,
  clean_up_neon_one_namespace,
}

-- The index of an item that stands one place further on.
abbrev one_more : Option ℕ → Option ℕ
one_more none = none
one_more (some i) = some (suc i)

-- `names.index(name)`
unfoldable pub index_of : String → List String → Option ℕ
index_of name [] = none
index_of name (x ∷ xs) = let rest = index_of name xs in if name == x then some 0 else one_more rest

unfoldable pub ordered_namespaces : MainConfig → List String
unfolding sort_by_id get_namespaces
ordered_namespaces config = keys (sort_by_id (get_namespaces config))

-- `sets`, with the id of the namespace
unfoldable pub neon_settings : MainConfig → ℕ → List String
unfolding all_info_settings ordered_namespaces get_namespaces show
neon_settings config namespace_id =
    all_info_settings (get_namespaces config)
    ++ (("ordered_namespaces={" <> (join "," (ordered_namespaces config) <> "}"))
        ∷ ("namespace_id=" <> show namespace_id)
        ∷ [])

unfoldable pub neon_command : Setup → String → NamespaceInfo → ℕ → Command
unfolding neon_settings context_flag
neon_command setup namespace info namespace_id =
    "helm"
    ∷ "install"
    ∷ ("neon-" <> namespace)
    ∷ "--namespace"
    ∷ namespace
    ∷ "--set"
    ∷ join "," (neon_settings setup.config namespace_id)
    ∷ (setup.base <> "/helm-neon")
    ∷ context_flag setup.config info.region "--kube-context"

module _ (world : World) (setup : Setup) (dry_run : Bool) where
  unfoldable pub deploy_neon_one_namespace : String × NamespaceInfo → List Event → Run
  unfolding run_command neon_command index_of ordered_namespaces
  deploy_neon_one_namespace (namespace, info) events =
      elim (index_of namespace (ordered_namespaces setup.config)) [
        | none ↦ (err not_listed, events)
        | some namespace_id ↦
            run_command world (neon_command setup namespace info namespace_id) dry_run true events
      ]

  unfoldable pub deploy_neon : Bool → List Event → Run
  unfolding run_pool clean_up_neon_one_namespace deploy_neon_one_namespace get_namespaces
  deploy_neon cleanup_only events =
      let namespaces = get_namespaces setup.config in
      then_do (run_pool (clean_up_neon_one_namespace world setup dry_run) namespaces events)
        λ events1.
          if cleanup_only
          then (ok tt, events1)
          else run_pool deploy_neon_one_namespace namespaces events1
