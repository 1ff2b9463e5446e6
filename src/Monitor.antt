-- ===== src/Monitor.antt =====
-- tools/monitor.py and tools/kubectl.py: the namespaces that are chosen, the status that is shown
-- for a pod, and `kubectl` in each namespace. What the Kubernetes API answers comes in as values.
pub mod Status
pub mod Chosen
pub mod Data
pub mod Tables
pub mod Rows
pub mod LogsCommand
mod Tests
use sunstorm_xactserver.Base.{
  String, Bool, true, false, not, ◌&&◌, Option, none, some, List, [], ◌∷◌, ◌++◌, contains, ◌==◌,
  string_eq, if◌then◌else◌,
}
use sunstorm_xactserver.Base.Dict.{Dict, keys}
use sunstorm_xactserver.Base.Result.{Result, ok, err}
use sunstorm_xactserver.Config.{MainConfig, NamespaceInfo, get_namespaces, get_context}
use sunstorm_xactserver.Shell.{
  Command, Shell, Failure, no_workers, context_error, Run, run_subprocess,
}

-- `not names or ns in names`
abbrev pub is_wanted : List String → String → Bool
is_wanted [] ns = true
is_wanted (n ∷ names) ns = contains (n ∷ names) ns

-- `{ns: info for ns, info in namespaces.items() if ...}`
pub choose : List String → Dict String NamespaceInfo → Dict String NamespaceInfo
choose names [] = []
choose names ((ns, info) ∷ rest) =
    let chosen = choose names rest in if is_wanted names ns then (ns, info) ∷ chosen else chosen

-- The names that a warning is logged for.
pub not_found : List String → Dict String NamespaceInfo → List String
not_found [] chosen = []
not_found (n ∷ names) chosen =
    let rest = not_found names chosen in if contains (keys chosen) n then rest else n ∷ rest

-- `get_chosen_namespaces`, and what it warns of
pub get_chosen_namespaces : MainConfig → List String → Dict String NamespaceInfo × List String
unfolding choose not_found get_namespaces
get_chosen_namespaces config names =
    let chosen = choose names (get_namespaces config) in (chosen, not_found names chosen)

pub record Condition : Type 0 where
  pub kind : String
  pub status : String

pub data ContainerState : Type 0 where
  waiting terminated : Option String → ContainerState
  other : ContainerState

pub record Container : Type 0 where
  pub ready : Bool
  pub state : ContainerState

-- `conditions or []` and `container_statuses or []`
pub record Pod : Type 0 where
  pub phase : Option String
  pub conditions : List Condition
  pub containers : List Container

abbrev pub is_disruption : Condition → Bool
is_disruption c = (c.kind == "DisruptionTarget") && (c.status == "True")

abbrev pub is_containers_ready : Condition → Bool
is_containers_ready c = (c.kind == "ContainersReady") && (c.status == "True")

-- The loop over the conditions: `is_disrupted` and `containers_ready` when it ends, at a
-- disruption or behind the last condition.
pub scan_conditions : List Condition → Bool → Bool × Bool
scan_conditions [] ready = (false, ready)
scan_conditions (c ∷ rest) ready = elim (is_disruption c) [
  | true ↦ (true, ready)
  | false ↦ scan_conditions rest (if is_containers_ready c then true else ready)
]

-- The loop over the containers.
pub scan_containers : List Container → Option String
scan_containers [] = some "Running"
scan_containers (c ∷ rest) =
    let later = scan_containers rest in
    if c.ready
    then later
    else elim c.state [ waiting reason ↦ reason | terminated reason ↦ reason | other ↦ later ]

abbrev pub is_running : Option String → Bool
is_running none = false
is_running (some phase) = phase == "Running"

-- `_compute_status`
pub compute_status : Pod → Option String
unfolding scan_conditions scan_containers
compute_status pod =
    if is_running pod.phase
    then (let (is_disrupted, containers_ready) = scan_conditions pod.conditions false in
        if is_disrupted
        then some "Terminating"
        else if containers_ready
        then some "Running"
        else scan_containers pod.containers)
    else pod.phase

module _ (shell : Shell) (config : MainConfig) (kubectl_args : List String) where
  abbrev pub kubectl : String → String → Command
  kubectl ns context = "kubectl" ∷ "--namespace" ∷ ns ∷ "--context" ∷ context ∷ kubectl_args

  -- `run_kubectl`
  run_kubectl : Bool → String → String → List Command → Run
  unfolding get_context run_subprocess
  run_kubectl dry_run ns region log = elim (get_context config region) [
    | err e ↦ (err (context_error e), log)
    | ok context ↦ run_subprocess shell (kubectl ns context) dry_run true log
  ]

  -- The tasks of the pool, one after the other. What a task raises is not looked at.
  unfoldable pub run_all : Bool → Dict String NamespaceInfo → List Command → List Command
  unfolding run_kubectl
  run_all dry_run [] log = log
  run_all dry_run ((ns, info) ∷ rest) log =
      run_all dry_run rest (run_kubectl dry_run ns info.region log).1

  -- `main` of tools/kubectl.py: a thread pool wants at least one worker.
  unfoldable pub main : Bool → List String → List Command → Run
  unfolding run_all choose get_namespaces
  main dry_run names log = elim (choose names (get_namespaces config)) [
    | [] ↦ (err no_workers, log)
    | n ∷ ns ↦ (ok tt, run_all dry_run (n ∷ ns) log)
  ]
