-- ===== src/Benchmark/Main.antt =====
-- `main` of tools/benchmark.py: the operation that is chosen, and the runs of `run_benchmark`
-- that it starts. The tasks of a thread pool run one after the other; what they raise is dropped,
-- since no future is looked at. What `log` returns is a parameter.
pub mod Kept
pub mod DryRun
pub mod Begins
pub mod Given
pub mod Rounds
use sunstorm_xactserver.Base.{
  ℕ, String, Bool, true, false, Option, none, some, List, [], ◌∷◌, if◌then◌else◌,
}
use sunstorm_xactserver.Base.Result.{Result, ok, err}
use sunstorm_xactserver.Config.{MainConfig}
use sunstorm_xactserver.Shell.{Command, Shell, Failure, Run, then_run}
use sunstorm_xactserver.Benchmark.{Task, run_benchmark}
use sunstorm_xactserver.Benchmark.Operation.{
  Operation, make_operation, create_tasks, sload_tasks, load_tasks, execute_tasks, delete_global,
  delete_from,
}

-- `args.operation`
pub data Choice : Type 0 where
  create load sload execute delete : Choice

pub record Totals : Type 0 where
  pub throughput : ℕ
  pub goodput : ℕ

pub record Arguments : Type 0 where
  pub operation : Choice
  pub given : List String
  pub regions : List String
  pub dry_run : Bool
  pub logs_only : Bool

module _ (shell : Shell) (config : MainConfig) (chart timestamp : String) (dry_run : Bool) where
  -- Calls of `run_benchmark` in a row, as far as none raises.
  pub run_direct : List Task → List Command → Run
  unfolding run_benchmark
  run_direct [] log = (ok tt, log)
  run_direct (t ∷ tasks) log =
      then_run (run_benchmark shell config chart t dry_run log) (run_direct tasks)

  pub run_pool : List Task → List Command → List Command
  unfolding run_benchmark
  run_pool [] log = log
  run_pool (t ∷ tasks) log = run_pool tasks (run_benchmark shell config chart t dry_run log).1

  -- `do` of the five operations
  pub do_operation : Choice → Operation → List String → List Command → Run
  unfolding run_direct run_pool create_tasks sload_tasks load_tasks execute_tasks delete_from
      delete_global
  do_operation create op regions log = run_direct (create_tasks op regions) log
  do_operation sload op regions log = elim (sload_tasks op regions) [
    | err e ↦ (err e, log)
    | ok tasks ↦ run_direct tasks log
  ]
  do_operation load op regions log = (ok tt, run_pool (load_tasks op regions) log)
  do_operation execute op regions log = elim (execute_tasks op timestamp regions) [
    | err e ↦ (err e, log)
    | ok tasks ↦ (ok tt, run_pool tasks log)
  ]
  do_operation delete op regions log =
      then_run (run_direct (delete_global op regions) log)
        λ log1. (ok tt, run_pool (delete_from op.namespaces op regions) log1)

-- `result or {"throughput": 0, "goodput": 0}`
abbrev or_nothing : Option Totals → Totals
or_nothing none = record { throughput = 0; goodput = 0 }
or_nothing (some totals) = totals

abbrev pub with_totals : Option Totals → Run → Result Failure Totals × List Command
with_totals logged (err e, log) = (err e, log)
with_totals logged (ok _, log) = (ok (or_nothing logged), log)

-- `Operation.run` and `main`
unfoldable pub main :
    Shell
    → MainConfig
    → String
    → String
    → Option Totals
    → Arguments
    → List Command
    → Result Failure Totals × List Command
unfolding do_operation make_operation
main shell config chart timestamp logged args log = with_totals logged (
    if args.logs_only
    then (ok tt, log)
    else do_operation shell config chart timestamp args.dry_run args.operation
        (make_operation config args.given) args.regions log)
