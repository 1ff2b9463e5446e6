-- ===== src/Benchmark/Main/Kept.antt =====
-- What every `run_benchmark` keeps of the commands that have been run, `main` of tools/benchmark.py
-- keeps.
use sunstorm_xactserver.Base.{
  ◌≡◌, String, Bool, true, false, Option, List, [], ◌∷◌, All, inl, inr, if◌then◌else◌,
}
use sunstorm_xactserver.Base.Result.{ok, err, Result-cases}
use sunstorm_xactserver.Config.{MainConfig}
use sunstorm_xactserver.Shell.{Command, Shell, Run, then_run}
use sunstorm_xactserver.Benchmark.{Task, run_benchmark}
use sunstorm_xactserver.Benchmark.Operation.{
  Operation, make_operation, create_tasks, sload_tasks, load_tasks, execute_tasks, delete_from,
  delete_global,
}
use sunstorm_xactserver.Benchmark.Main.{
  Choice, create, load, sload, execute, delete, Totals, Arguments, run_direct, run_pool,
  do_operation, with_totals, main,
}

-- Both parts of a sequence keep a predicate of the commands that have been run.
pub then_run-All :
    (P : List Command → Type 0) (r : Run) (next : List Command → Run)
    → P r.1
    → ((log : List Command) → P log → P (next log).1)
    → P (then_run r next).1
then_run-All P (ok _, log) next h f = f log h
then_run-All P (err e, log) next h f = h

-- All tasks of all operations have a property.
pub record AllTasks (Good : Task → Type 0) (op : Operation) (timestamp : String)
    (regions : List String) : Type 0 where
  pub creates : All Good (create_tasks op regions)
  pub sloads : (ts : List Task) → sload_tasks op regions ≡ ok ts → All Good ts
  pub loads : All Good (load_tasks op regions)
  pub executes : (ts : List Task) → execute_tasks op timestamp regions ≡ ok ts → All Good ts
  pub deletes_global : All Good (delete_global op regions)
  pub deletes : All Good (delete_from op.namespaces op regions)

module _ (shell : Shell) (config : MainConfig) (chart timestamp : String) (dry_run : Bool)
    (P : List Command → Type 0) (Good : Task → Type 0)
    (runs : (t : Task) (log : List Command)
      → Good t
      → P log
      → P (run_benchmark shell config chart t dry_run log).1) where
  run_direct-All :
      (ts : List Task) (log : List Command)
      → All Good ts
      → P log
      → P (run_direct shell config chart timestamp dry_run ts log).1
  unfolding run_direct
  run_direct-All [] log good h = h
  run_direct-All (t ∷ ts) log (here, good) h =
      then_run-All P (run_benchmark shell config chart t dry_run log)
        (run_direct shell config chart timestamp dry_run ts) (runs t log here h)
        (λ log1 h1. run_direct-All ts log1 good h1)

  run_pool-All :
      (ts : List Task) (log : List Command)
      → All Good ts
      → P log
      → P (run_pool shell config chart timestamp dry_run ts log)
  unfolding run_pool
  run_pool-All [] log good h = h
  run_pool-All (t ∷ ts) log (here, good) h = run_pool-All ts _ good (runs t log here h)

  do_operation-All :
      (c : Choice) (op : Operation) (regions : List String) (log : List Command)
      → AllTasks Good op timestamp regions
      → P log
      → P (do_operation shell config chart timestamp dry_run c op regions log).1
  unfolding do_operation
  do_operation-All create op regions log all h =
      run_direct-All (create_tasks op regions) log all.creates h
  do_operation-All load op regions log all h = run_pool-All (load_tasks op regions) log all.loads h
  do_operation-All sload op regions log all h = elim (Result-cases (sload_tasks op regions)) [
    | inl (e, failed) ↦ rw (failed, do_operation) h
    | inr (ts, made) ↦ rw (made, do_operation) (run_direct-All ts log (all.sloads ts made) h)
  ]
  do_operation-All execute op regions log all h =
      elim (Result-cases (execute_tasks op timestamp regions)) [
        | inl (e, failed) ↦ rw (failed, do_operation) h
        | inr (ts, made) ↦ rw (made, do_operation) (run_pool-All ts log (all.executes ts made) h)
      ]
  do_operation-All delete op regions log all h =
      then_run-All P
        (run_direct shell config chart timestamp dry_run (delete_global op regions) log)
        (λ log1. (
          ok tt,
          run_pool shell config chart timestamp dry_run (delete_from op.namespaces op regions) log1,
        ))
        (run_direct-All (delete_global op regions) log all.deletes_global h)
        (λ log1 h1. run_pool-All (delete_from op.namespaces op regions) log1 all.deletes h1)

  with_totals-All : (logged : Option Totals) (r : Run) → P r.1 → P (with_totals logged r).1
  with_totals-All logged (ok _, log) h = h
  with_totals-All logged (err e, log) h = h

  unless_logs_only :
      (logged : Option Totals) (logs_only : Bool) (log : List Command) (r : Run)
      → P log
      → P r.1
      → P (with_totals logged (if logs_only then (ok tt, log) else r)).1
  unless_logs_only logged true log r h h' = h
  unless_logs_only logged false log r h h' = with_totals-All logged r h'

  pub main-All :
      (logged : Option Totals) (args : Arguments) (log : List Command)
      → args.dry_run ≡ dry_run
      → AllTasks Good (make_operation config args.given) timestamp args.regions
      → P log
      → P (main shell config chart timestamp logged args log).1
  unfolding main
  main-All logged args log same all h =
      let op = make_operation config args.given in
      unless_logs_only logged args.logs_only log
        (do_operation shell config chart timestamp args.dry_run args.operation op args.regions log)
        h (rw same (do_operation-All args.operation op args.regions log all h))
