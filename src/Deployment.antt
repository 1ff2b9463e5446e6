-- ===== src/Deployment.antt =====
-- tools/deploy.py: the commands and the Kubernetes calls of a deployment. What the shell, AWS, the
-- DNS, Kubernetes and the clock answer comes in as functions; the tasks of a thread pool run one
-- after the other, and the first exception among them is the pool's.
pub mod Wait
pub mod Waited
pub mod Dns
pub mod Kubernetes
pub mod Neon
pub mod Main
pub mod Retry
pub mod Stages
pub mod Harmless
pub mod DryRun
pub mod Numbers
pub mod Addresses
pub mod Timeout
mod Tests
use sunstorm_xactserver.Base.{
  ℕ, ◌<>◌, String, Bool, true, false, Option, none, some, List, [], ◌∷◌, ◌++◌, ◌==◌, string_eq,
  if◌then◌else◌,
}
use sunstorm_xactserver.Base.Dict.{Dict, keys}
use sunstorm_xactserver.Base.Result.{Result, ok, err}
use sunstorm_xactserver.Config.{MainConfig, NamespaceInfo, get_namespaces, get_context}
use sunstorm_xactserver.Shell.{Command, Shell, Failure, missing_key, run_subprocess}

-- What a run does: commands, calls of the Kubernetes API with their `dry_run`, and the addresses
-- that are written to the file of the DNS configuration.
pub data Event : Type 0 where
  command : Command → Event
  delete_namespace create_namespace : String → Bool → Event
  write_addresses : Dict String (List String) → Event

-- What ends a run. `unfinished` stands for a loop that has used up its rounds.
pub data DeployError : Type 0 where
  failure : Failure → DeployError
  timed_out : ℕ → DeployError
  aws_error bad_body not_listed unfinished : DeployError
  no_kube_config : String → DeployError

-- `body["message"]` of the answer to a `create_namespace` that is refused; `none` is a body that
-- cannot be read.
pub data Answer : Type 0 where
  created : Answer
  refused : Option String → Answer

-- The world around a deployment. `as_set` lists a set in the order in which Python goes through
-- it, `clock` has the readings of a wait in a region, in ticks.
pub record World : Type 0 where
  pub shell : Shell
  pub as_set : List String → List String
  pub ticks_per_second : ℕ
  pub name_clock : String → ℕ → ℕ
  pub address_clock : String → ℕ → ℕ
  pub balancers : String → ℕ → Result DeployError (List String)
  pub resolve : String → ℕ → Option (List String)
  pub loads : String → Bool
  pub create_answer : String → ℕ → Answer
  pub temp_file : String

-- `config`, whether `main.yaml` has the key `regions`, and `BASE_PATH`.
pub record Setup : Type 0 where
  pub config : MainConfig
  pub has_regions : Bool
  pub base : String

abbrev pub Run : Type 0
Run = Result DeployError (Unit {0}) × List Event

-- Goes on where nothing has been raised.
abbrev pub then_do : Run → (List Event → Run) → Run
then_do (ok _, events) next = next events
then_do (err e, events) next = (err e, events)

abbrev pub commands_of : List Event → List Command
commands_of [] = []
commands_of (command cmd ∷ events) = cmd ∷ commands_of events
commands_of (delete_namespace _ _ ∷ events) = commands_of events
commands_of (create_namespace _ _ ∷ events) = commands_of events
commands_of (write_addresses _ ∷ events) = commands_of events

abbrev as_deploy : Result Failure (Unit {0}) → Result DeployError (Unit {0})
as_deploy (ok _) = ok tt
as_deploy (err e) = err (failure e)

-- `run_subprocess`, which runs nothing on a dry run.
pub run_command : World → Command → Bool → Bool → List Event → Run
unfolding run_subprocess
run_command world cmd dry_run check events = (
  as_deploy (run_subprocess world.shell cmd dry_run check (commands_of events)).0,
  if dry_run then events else events ++ command cmd ∷ [],
)

-- `context_flag`: without a context there is no flag, whatever the reason.
pub context_flag : MainConfig → String → String → List String
unfolding get_context
context_flag config region flag_name = elim (get_context config region) [
  | ok context ↦ flag_name ∷ context ∷ []
  | err _ ↦ []
]

abbrev pub keep_error :
    Result DeployError (Unit {0}) → Result DeployError (Unit {0}) → Result DeployError (Unit {0})
keep_error (ok _) later = later
keep_error (err e) later = err e

-- `list(executor.map(task, ...))`
unfoldable pub run_pool :
    (String × NamespaceInfo → List Event → Run) → Dict String NamespaceInfo → List Event → Run
run_pool task [] events = (ok tt, events)
run_pool task (n ∷ ns) events =
    let (result, events1) = task n events in
    let (later, events2) = run_pool task ns events1 in (keep_error result later, events2)

-- `f` in each region, as far as none raises.
pub for_each : (String → List Event → Run) → List String → List Event → Run
for_each f [] events = (ok tt, events)
for_each f (region ∷ regions) events = then_do (f region events) (for_each f regions)

-- `f` on the regions, unless there is one only.
abbrev pub unless_single :
    (List String → List Event → Run) → Result DeployError (List String) → List Event → Run
unless_single f (err e) events = (err e, events)
unless_single f (ok []) events = f [] events
unless_single f (ok (_ ∷ [])) events = (ok tt, events)
unless_single f (ok (a ∷ b ∷ regions)) events = f (a ∷ b ∷ regions) events

module _ (world : World) (setup : Setup) (dry_run : Bool) where
  -- `set(config["regions"] or []) | {config["global_region"]}`
  pub region_set : Result DeployError (List String)
  region_set =
      if setup.has_regions
      then ok (world.as_set (keys setup.config.regions ++ setup.config.global_region ∷ []))
      else err (failure (missing_key "regions"))

  abbrev pub with_regions : (List String → List Event → Run) → List Event → Run
  with_regions f = unless_single f region_set

  pub create_load_balancer : String → List Event → Run
  unfolding run_command context_flag
  create_load_balancer region =
      run_command world
        ("kubectl"
          ∷ "apply"
          ∷ "-f"
          ∷ (setup.base <> "/dns-lb.yaml")
          ∷ context_flag setup.config region "--context")
        dry_run true

  pub set_up_load_balancer_for_coredns : List Event → Run
  unfolding create_load_balancer for_each region_set
  set_up_load_balancer_for_coredns = with_regions (for_each create_load_balancer)

  pub clean_up_neon_one_namespace : String × NamespaceInfo → List Event → Run
  unfolding run_command context_flag
  clean_up_neon_one_namespace (namespace, info) =
      run_command world
        ("helm"
          ∷ "uninstall"
          ∷ ("neon-" <> namespace)
          ∷ "--namespace"
          ∷ namespace
          ∷ context_flag setup.config info.region "--kube-context")
        dry_run false

  abbrev pushgateway : String → String → NamespaceInfo → Command
  pushgateway verb namespace info =
      "kubectl"
      ∷ verb
      ∷ "-f"
      ∷ (setup.base <> "/pushgateway.yaml")
      ∷ "--namespace"
      ∷ namespace
      ∷ context_flag setup.config info.region "--context"

  -- The loop of `start_pushgateway`.
  pub pushgateways : Dict String NamespaceInfo → List Event → Run
  unfolding run_command context_flag
  pushgateways [] events = (ok tt, events)
  pushgateways ((namespace, info) ∷ rest) events =
      if namespace == "global"
      then pushgateways rest events
      else then_do (run_command world (pushgateway "delete" namespace info) dry_run false events)
          λ events1.
            then_do (run_command world (pushgateway "apply" namespace info) dry_run true events1)
              (pushgateways rest)

  pub start_pushgateway : List Event → Run
  unfolding pushgateways get_namespaces
  start_pushgateway = pushgateways (get_namespaces setup.config)
