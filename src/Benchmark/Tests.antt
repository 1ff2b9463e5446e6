-- ===== src/Benchmark/Tests.antt =====
-- Runs of tools/benchmark.py on small data, and the theorems at them.
use mathlib.Core.List.{Perm}
use sunstorm_xactserver.Base.{
  ℕ, zero, suc, ◌<◌, arith, ◌≡◌, ◌≢◌, refl, ◌⊎◌, String, true, false, none, some, List, [], ◌∷◌,
  map, All, length, eqb, not, string_eq, if◌then◌else◌,
}
use sunstorm_xactserver.Base.Result.{ok, err}
use sunstorm_xactserver.Config.{
  RegionInfo, MainConfig, get_namespaces, global_context, region_context, get_context,
}
use sunstorm_xactserver.Shell.{Shell, no_workers}
use sunstorm_xactserver.Benchmark.{Task, all_flags, run_benchmark}
use sunstorm_xactserver.Benchmark.Operation.{
  Namespace, Operation, make_operation, execute_tasks, load_tasks,
}
use sunstorm_xactserver.Benchmark.Main.{Arguments, load, execute, main}
use sunstorm_xactserver.Benchmark.Logs.{WatchedJob, Cluster, could_not_get, get_job_logs, log_jobs}
use sunstorm_xactserver.Benchmark.Logs.Attempts.{found, get_job_logs_lem}
use sunstorm_xactserver.Logs.Pods.{get_pods}
use sunstorm_xactserver.Benchmark.Watched.{place_of_task, place_of_job, started, log_jobs-started}
use sunstorm_xactserver.Benchmark.Main.Rounds.{Rounds}
use sunstorm_xactserver.Benchmark.Main.DryRun.{IsTemplate, main-IsTemplate}
use sunstorm_xactserver.Benchmark.Executed.{Picks, executing, execute_tasks_lem}
use sunstorm_xactserver.Benchmark.Tasks.{
  IsSortedById, IsNumbered, make_operation-sorted, load_task, chosen_of, load_tasks_lem,
}

abbrev region : ℕ → String → RegionInfo
region id context = record {
  id = id;
  context = some context;
  target_address_and_database = none;
  warmup = some 5;
  benchbase_instances = none;
}

-- The regions stand in the file against the order of their ids.
abbrev config : MainConfig
config = record {
  global_region = "hub";
  global_region_context = some "c0";
  global_region_target_address_and_database = none;
  regions = ("west", region 2 "c2") ∷ ("east", region 1 "c1") ∷ [];
}

abbrev operation : Operation
operation = make_operation config ("scale=2" ∷ [])

make_operation-sorted_example :
    IsSortedById operation.namespaces × Perm operation.namespaces (get_namespaces config)
make_operation-sorted_example = make_operation-sorted config ("scale=2" ∷ [])

abbrev east : List String
east = "east" ∷ []

execute_tasks_lem_example :
    (chosen : List Namespace) × Picks east operation.namespaces chosen
    × (((chosen ≡ []) × (execute_tasks operation "now" east ≡ err no_workers))
        ⊎ ((chosen ≢ [])
            × (execute_tasks operation "now" east ≡ ok (map (executing operation "now") chosen))))
execute_tasks_lem_example = execute_tasks_lem operation "now" east

numbered : IsNumbered 0 operation.namespaces
unfolding make_operation string_eq
numbered = (refl, (refl, (refl, tt)))

load_tasks_lem_example :
    load_tasks operation east ≡ map (load_task operation) (chosen_of operation.namespaces east)
load_tasks_lem_example = load_tasks_lem operation east numbered

-- `delete` fails, and everything else succeeds.
abbrev shell : Shell
shell = record { succeeds = λ log cmd. not (eqb (length log) 1) }

context : get_context config "east" ≡ ok "c1"
unfolding get_context global_context region_context string_eq
context = refl

abbrev load_arguments : Arguments
load_arguments = record {
  operation = load;
  given = "a=1" ∷ "warmup=!east: 5; west: 6" ∷ [];
  regions = east;
  dry_run = false;
  logs_only = false;
}

abbrev loads : List Task
loads = load_tasks (make_operation config load_arguments.given) east

-- A round of three commands, of which the second fails.
load_commands : length (main shell config "chart" "now" none load_arguments []).1 ≡ 3
unfolding main run_benchmark make_operation load_tasks all_flags get_context global_context
    region_context string_eq
load_commands = refl

abbrev dry_arguments : Arguments
dry_arguments = record {
  operation = execute;
  given = "scale=2" ∷ [];
  regions = [];
  dry_run = true;
  logs_only = false;
}

-- One command for each of the two regions.
dry_commands : length (main shell config "chart" "now" none dry_arguments []).1 ≡ 2
unfolding main run_benchmark make_operation execute_tasks all_flags get_context global_context
    region_context string_eq
dry_commands = refl

main-IsTemplate_example :
    All (IsTemplate "chart") (main shell config "chart" "now" none dry_arguments []).1
main-IsTemplate_example = main-IsTemplate shell config "chart" "now" none dry_arguments refl

load_is_total : started load operation "now" east ≡ ok (load_tasks operation east)
load_is_total = refl

log_jobs-started_example :
    map place_of_job (log_jobs load operation east) ≡ map place_of_task (load_tasks operation east)
log_jobs-started_example =
    log_jobs-started load operation "now" east (load_tasks operation east) load_is_total

abbrev watched : WatchedJob
watched = record { shown_as = "load"; namespace = "east"; region = "east"; job = "load" }

abbrev labels : List (String × String)
labels = ("job", "load") ∷ []

-- The first question for the pods fails, and so does the first one for the logs.
abbrev cluster : Cluster
cluster = record {
  selector = λ job. some labels;
  pods = λ job selector k.
      if eqb k 0 then none else some (record { phase = some "Running"; name = some "load-1" } ∷ []);
  logs = λ job pod k. if eqb k 0 then none else some ("done" ∷ []);
}

none_before : (j : ℕ) → j < 1 → found cluster watched labels j ≡ []
unfolding get_pods
none_before zero h = refl
none_before (suc j) h = absurd (omega arith)

found_then : found cluster watched labels 1 ≡ "load-1" ∷ []
unfolding get_pods string_eq
found_then = refl

get_job_logs_lem_example :
    ((m : ℕ) × (lines : List String) × (m < 10)
      × ((j : ℕ) → j < m → cluster.logs watched "load-1" j ≡ none)
      × (cluster.logs watched "load-1" m ≡ some lines)
      × (get_job_logs cluster watched config 5 false ≡ ok lines))
    ⊎ (((j : ℕ) → j < 10 → cluster.logs watched "load-1" j ≡ none)
        × (get_job_logs cluster watched config 5 false ≡ err could_not_get))
get_job_logs_lem_example =
    get_job_logs_lem cluster watched config labels 1 5 (omega arith) context refl none_before
      found_then
