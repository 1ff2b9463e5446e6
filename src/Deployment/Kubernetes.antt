-- ===== src/Deployment/Kubernetes.antt =====
-- `create_namespaces` of tools/deploy.py.
use sunstorm_xactserver.Base.{
  ℕ, zero, suc, String, Bool, none, some, List, [], ◌∷◌, ◌++◌, if◌then◌else◌,
}
use sunstorm_xactserver.Base.Result.{Result, ok, err}
use sunstorm_xactserver.Base.Text.{includes}
use sunstorm_xactserver.Config.{MainConfig, NamespaceInfo, get_namespaces, get_context}
use sunstorm_xactserver.Shell.{context_error}
use sunstorm_xactserver.Deployment.{
  Event, delete_namespace, create_namespace, DeployError, failure, bad_body, unfinished,
  no_kube_config, Answer, created, refused, World, Setup, Run, then_do, run_pool,
  clean_up_neon_one_namespace,
}

-- `Kube.get_config`, as far as it may raise.
pub get_config : World → MainConfig → String → Result DeployError (Unit {0})
unfolding get_context
get_config world config region = elim (get_context config region) [
  | err e ↦ err (failure (context_error e))
  | ok context ↦ if world.loads context then ok tt else err (no_kube_config context)
]

-- What an answer makes of the loop: it raises, it goes on, or it ends.
pub data Next : Type 0 where
  raise retry stop : Next

unfoldable pub after_answer : Answer → Next
unfolding includes
after_answer created = stop
after_answer (refused none) = raise
after_answer (refused (some message)) =
    if includes message "object is being deleted" then retry else stop

module _ (world : World) (setup : Setup) (dry_run : Bool) where
  -- The answer to `delete_namespace` makes no difference.
  unfoldable pub clean_up_namespace : String × NamespaceInfo → List Event → Run
  unfolding get_config
  clean_up_namespace (namespace, info) events = elim (get_config world setup.config info.region) [
    | err e ↦ (err e, events)
    | ok _ ↦ (ok tt, events ++ delete_namespace namespace dry_run ∷ [])
  ]

  -- The loop of the inner `create_namespace`, from an attempt on.
  unfoldable pub create_from : ℕ → ℕ → String → List Event → Run
  unfolding after_answer
  create_from zero k namespace events = (err unfinished, events)
  create_from (suc fuel) k namespace events =
      let events1 = events ++ create_namespace namespace dry_run ∷ [] in
      let later = create_from fuel (suc k) namespace events1 in
      elim (after_answer (world.create_answer namespace k)) [
        | raise ↦ (err bad_body, events1)
        | retry ↦ later
        | stop ↦ (ok tt, events1)
      ]

  unfoldable pub create_one_namespace : ℕ → String × NamespaceInfo → List Event → Run
  unfolding get_config create_from
  create_one_namespace fuel (namespace, info) events =
      elim (get_config world setup.config info.region) [
        | err e ↦ (err e, events)
        | ok _ ↦ create_from fuel 0 namespace events
      ]

  unfoldable pub create_namespaces : ℕ → List Event → Run
  unfolding run_pool clean_up_neon_one_namespace clean_up_namespace create_one_namespace
      get_namespaces
  create_namespaces fuel events =
      let namespaces = get_namespaces setup.config in
      then_do (run_pool (clean_up_neon_one_namespace world setup dry_run) namespaces events)
        λ events1.
          then_do (run_pool clean_up_namespace namespaces events1)
            (run_pool (create_one_namespace fuel) namespaces)
