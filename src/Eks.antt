-- ===== src/Eks.antt =====
-- tools/eks.py: the EKS clusters of a deployment. What the commands print, the answer to the prompt
-- and the order of a set come in as values and functions. The colour of a region, which is only
-- printed, is left out.
pub mod DryRun
mod Tests
use sunstorm_xactserver.Base.{
  ◌<>◌, String, Bool, true, false, List, [], ◌∷◌, ◌++◌, ◌==◌, string_eq, if◌then◌else◌,
}
use sunstorm_xactserver.Base.Dict.{keys}
use sunstorm_xactserver.Base.Result.{Result, ok, err}
use sunstorm_xactserver.Base.Text.{join}
use sunstorm_xactserver.Config.{MainConfig, ContextError, get_context}
use sunstorm_xactserver.Shell.{Command}

-- A command that is run, and a file that is written.
pub data Event : Type 0 where
  run : Command → Event
  write : String → String → Event

-- `StopIteration`, a failure of `get_context`, and a `KeyError`.
pub data EksError : Type 0 where
  stop_iteration : EksError
  context_error : ContextError → EksError
  missing_key : String → EksError

pub record World : Type 0 where
  pub output : List Event → Command → List String
  pub confirm : Bool
  pub as_set : List String → List String

-- The configuration, whether `main.yaml` has the key `regions`, and `BASE_PATH`.
pub record Setup : Type 0 where
  pub config : MainConfig
  pub has_regions : Bool
  pub base : String

pub record RegionInfo : Type 0 where
  pub name : String
  pub is_global : Bool

abbrev pub Run : Type 0
Run = Result EksError (Unit {0}) × List Event

abbrev pub then_do : Run → (List Event → Run) → Run
then_do (ok _, events) next = next events
then_do (err e, events) next = (err e, events)

-- `run_subprocess` of this file: the lines that the command prints. Its exit status is not looked at.
unfoldable pub run_subprocess : World → Command → Bool → List Event → List String × List Event
run_subprocess world cmd dry_run events =
    if dry_run then ([], events) else (world.output events cmd, events ++ run cmd ∷ [])

-- `next(region for region in regions if region.is_global)`
pub first_global : List RegionInfo → Result EksError RegionInfo
first_global [] = err stop_iteration
first_global (region ∷ regions) =
    let later = first_global regions in if region.is_global then ok region else later

module _ (world : World) (setup : Setup) where
  abbrev config_file : RegionInfo → String
  config_file info = setup.base <> ("/workspace/eks-" <> (info.name <> ".yaml"))

  abbrev pub template : RegionInfo → RegionInfo → Command
  template global_region region =
      "helm"
      ∷ "template"
      ∷ (setup.base <> "/deploy/helm-eks")
      ∷ "--set"
      ∷ ("region=" <> region.name)
      ∷ "--set"
      ∷ ("global_region=" <> global_region.name)
      ∷ []

  -- The loop of `generate_eks_configs`.
  pub generate_from : RegionInfo → List RegionInfo → List Event → List Event
  unfolding run_subprocess
  generate_from global_region [] events = events
  generate_from global_region (region ∷ regions) events =
      let (stdout, events1) = run_subprocess world (template global_region region) false events in
      generate_from global_region regions
        (events1 ++ write (config_file region) (join "\n" stdout) ∷ [])

  pub generate_eks_configs : List RegionInfo → List Event → Run
  unfolding generate_from first_global
  generate_eks_configs regions events = elim (first_global regions) [
    | err e ↦ (err e, events)
    | ok global_region ↦ (ok tt, generate_from global_region regions events)
  ]

  abbrev pub create_command : RegionInfo → Bool → Command
  create_command info dry_run =
      "eksctl"
      ∷ "create"
      ∷ "cluster"
      ∷ "--config-file"
      ∷ config_file info
      ∷ (if dry_run then "--dry-run" ∷ [] else [])

  -- On a dry run `eksctl` itself is told so.
  pub create_eks_cluster : RegionInfo → Bool → List Event → Run
  unfolding run_subprocess get_context
  create_eks_cluster info dry_run events =
      let events1 = (run_subprocess world (create_command info dry_run) false events).1 in
      if dry_run then (ok tt, events1) else elim (get_context setup.config info.name) [
        | err e ↦ (err (context_error e), events1)
        | ok _ ↦ (ok tt, events1)
      ]

  pub delete_eks_cluster : RegionInfo → Bool → List Event → Run
  unfolding run_subprocess
  delete_eks_cluster info dry_run events = (
    ok tt,
    (run_subprocess world
        ("eksctl"
          ∷ "delete"
          ∷ "cluster"
          ∷ "--force"
          ∷ "--disable-nodegroup-eviction"
          ∷ "--config-file"
          ∷ config_file info
          ∷ [])
        dry_run events).1,
  )

-- `args.action`
pub data Action : Type 0 where
  create delete generate : Action

abbrev pub keep_error :
    Result EksError (Unit {0}) → Result EksError (Unit {0}) → Result EksError (Unit {0})
keep_error (ok _) later = later
keep_error (err e) later = err e

-- `list(executor.map(action, infos))`: all tasks run, and the first exception is the pool's.
unfoldable pub run_pool : (RegionInfo → List Event → Run) → List RegionInfo → List Event → Run
run_pool action [] events = (ok tt, events)
run_pool action (info ∷ infos) events =
    let (result, events1) = action info events in
    let (later, events2) = run_pool action infos events1 in (keep_error result later, events2)

pub infos_of : String → List String → List RegionInfo
infos_of global_region [] = []
infos_of global_region (region ∷ regions) =
    record { name = region; is_global = region == global_region } ∷ infos_of global_region regions

module _ (world : World) (setup : Setup) (dry_run : Bool) where
  -- What follows the files for an action.
  pub act : Action → List RegionInfo → List Event → Run
  unfolding run_pool create_eks_cluster delete_eks_cluster
  act create infos events =
      run_pool (λ info. create_eks_cluster world setup info dry_run) infos events
  act delete infos events =
      run_pool (λ info. delete_eks_cluster world setup info dry_run) infos events
  act generate infos events = (ok tt, events)

  -- `not Confirm.ask(...)`, which is asked for a deletion only
  pub refused : Action → Bool
  refused delete = if world.confirm then false else true
  refused create = false
  refused generate = false

  unfoldable pub main : Action → List Event → Run
  unfolding act refused generate_eks_configs infos_of
  main action events =
      let regions = world.as_set (keys setup.config.regions ++ setup.config.global_region ∷ []) in
      let infos = infos_of setup.config.global_region regions in
      if setup.has_regions
      then if refused action
        then (ok tt, events)
        else then_do (generate_eks_configs world setup infos events) (act action infos)
      else (err (missing_key "regions"), events)
