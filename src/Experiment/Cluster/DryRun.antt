-- ===== src/Experiment/Cluster/DryRun.antt =====
-- A dry run of tools/experiment.py, down to the commands of tools/benchmark.py.
use sunstorm_xactserver.Base.{
  ◌≡◌, sym, subst, String, Bool, true, Option, List, [], ◌∷◌, ◌++◌, All, all_units, inl, inr,
  if◌then◌else◌,
}
use sunstorm_xactserver.Base.Text.{show_ℤ}
use sunstorm_xactserver.Experiment.Main.Refusal.{main_lem}
use mathlib.Core.List.{append_assoc, foldl}
use sunstorm_xactserver.Shell.{Command}
use sunstorm_xactserver.Benchmark.Main.DryRun.{IsTemplate, main-Templates}
use sunstorm_xactserver.Experiment.Jobs.{Experiment, Job}
use sunstorm_xactserver.Experiment.Main.{Arguments, run_all, main}
use sunstorm_xactserver.Experiment.Progress.{Csv, Progress}
use sunstorm_xactserver.Experiment.Run.{Call, Options, dry_run_arg, execute_call, start, run_jobs}
use sunstorm_xactserver.Experiment.Run.Calls.{run_jobs-calls}
use sunstorm_xactserver.Experiment.Values.{Floats}
use sunstorm_xactserver.Experiment.Cluster.{Surroundings, call_main, commands, world}

-- The last argument asks for a dry run.
abbrev AsksDryRun : Call → Type 0
AsksDryRun c = (front : List String) × (c ≡ front ++ "--dry-run" ∷ [])

module _ (F : Floats) (csv : Csv F) (around : Surroundings F) where
  -- argparse: a list that ends in `--dry-run` sets the flag.
  abbrev pub ParsesDryRun : Type 0
  ParsesDryRun = (front : List String) → (around.parse (front ++ "--dry-run" ∷ [])).dry_run ≡ true

  module _ (parses : ParsesDryRun) where
    call_main-dry :
        (c : Call) (log : List Command)
        → AsksDryRun c
        → All (IsTemplate around.chart) log
        → All (IsTemplate around.chart) (call_main F around log c).1
    unfolding call_main
    call_main-dry c log (front, e) h =
        main-Templates around.shell around.config around.chart (around.timestamp log)
          (around.logged log c) (around.parse c) log
          (subst (λ c'. (around.parse c').dry_run ≡ true) (sym e) (parses front)) h

    commands-dry :
        (cs : List Call) → All AsksDryRun cs → All (IsTemplate around.chart) (commands F around cs)
    unfolding commands
    commands-dry cs h = go cs [] h tt
      where
        go :
            (ds : List Call) (log : List Command)
            → All AsksDryRun ds
            → All (IsTemplate around.chart) log
            → All (IsTemplate around.chart) (foldl (λ log c. (call_main F around log c).1) log ds)
        go [] log asks h1 = h1
        go (c ∷ ds) log (here, asks) h1 = go ds _ asks (call_main-dry c log here h1)

  module _ (o : Options) (dry : o.dry_run ≡ true) where
    asks_at_end :
        (front args : List String) → AsksDryRun (front ++ (args ++ (o.set_arg ++ dry_run_arg o)))
    asks_at_end front args = (front ++ (args ++ o.set_arg), rw dry (simp append_assoc))

    run_jobs-AsksDryRun :
        (jobs : List (Job F)) (p : Progress F csv)
        → All AsksDryRun (run_jobs F csv (world F around) o jobs (start F csv p)).1.calls
    unfolding start execute_call
    run_jobs-AsksDryRun jobs p =
        run_jobs-calls F csv (world F around) o (λ job. Unit {0}) AsksDryRun
          (λ job _. asks_at_end ("create" ∷ []) job.args)
          (λ job _. asks_at_end ((if o.sload then "sload" else "load") ∷ []) job.args)
          (λ job _.
            asks_at_end ("execute" ∷ "--logs-per-sec" ∷ show_ℤ o.logs_per_sec ∷ []) job.args)
          jobs (start F csv p) (all_units jobs) tt

  module _ (parses : ParsesDryRun) (confirmed connected : Bool) where
    run_all-IsTemplate :
        (args : Arguments) (exp : Experiment F) (timestamp : String) (p : Progress F csv)
        → args.options.dry_run ≡ true
        → All (IsTemplate around.chart) (
            commands F around
              (run_all F csv (world F around) confirmed connected args exp timestamp p).1.calls)
    unfolding run_all
    run_all-IsTemplate args exp timestamp p dry =
        commands-dry parses _ (run_jobs-AsksDryRun _ dry _ p)

    -- On a dry run of an experiment, whatever the experiment, the progress file, the answers and the
    -- results, every command that its benchmarks run renders a template: on no cluster is anything
    -- applied or deleted. argparse sets the flag for a list that ends in `--dry-run`.
    pub main-commands-IsTemplate :
        (args : Arguments) (loaded : Option (Experiment F)) (timestamp : String)
        (file : Option csv.File)
        → args.options.dry_run ≡ true
        → All (IsTemplate around.chart) (
            commands F around
              (main F csv (world F around) confirmed connected args loaded timestamp file).1.calls)
    main-commands-IsTemplate args loaded timestamp file dry =
        elim (main_lem F csv (world F around) confirmed connected args loaded timestamp file) [
          | inl (exp, same, yes_, linked, runs) ↦
              subst (λ r. All (IsTemplate around.chart) (commands F around r.1.calls)) (sym runs)
                (run_all-IsTemplate args exp timestamp _ dry)
          | inr (exit, none_) ↦
              subst (λ cs. All (IsTemplate around.chart) (commands F around cs)) (sym none_.0)
                (commands-dry parses [] tt)
        ]
