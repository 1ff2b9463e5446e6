-- ===== src/Experiment/Cluster/Settings.antt =====
-- How the settings of the jobs of tools/experiment.py reach the commands of tools/benchmark.py.
use mathlib.Core.List.{append_assoc, foldl}
use sunstorm_xactserver.Base.{
  ◌≡◌, ◌⊎◌, refl, sym, ◌∙◌, ap, subst, String, Bool, some, List, [], ◌∷◌, ◌++◌, All, All-append,
  inl, inr, if◌then◌else◌,
}
use sunstorm_xactserver.Base.Text.{show_ℤ}
use sunstorm_xactserver.Shell.{Command}
use sunstorm_xactserver.Benchmark.Main.Given.{IsPlain, SetsGiven, main-SetsGiven}
use sunstorm_xactserver.Experiment.Jobs.{Experiment, Job, benchmark_args}
use sunstorm_xactserver.Experiment.Jobs.Pairs.{
  pairs, settings_of, IsPairs, pairs-append, benchmark_args-IsPairs,
}
use sunstorm_xactserver.Experiment.Main.{Arguments, create_set_arg, run_all}
use sunstorm_xactserver.Experiment.Progress.{Csv, Progress}
use sunstorm_xactserver.Experiment.Run.{
  Call, Options, Session, dry_run_arg, execute_call, start, run_jobs,
}
use sunstorm_xactserver.Experiment.Run.Calls.{run_jobs-calls}
use sunstorm_xactserver.Experiment.Values.{Floats}
use sunstorm_xactserver.Experiment.Cluster.{Surroundings, call_main, commands, world}

create_set_arg-pairs : (set : List String) → create_set_arg set ≡ pairs set
unfolding create_set_arg
create_set_arg-pairs [] = refl
create_set_arg-pairs (s ∷ set) = ap (λ args. "-s" ∷ s ∷ args) (create_set_arg-pairs set)

module _ (F : Floats) (csv : Csv F) (around : Surroundings F) where
  abbrev Among : Job F → List (Job F) → Type 0
  Among job [] = ⊥
  Among job (j ∷ js) = (job ≡ j) ⊎ Among job js

  -- argparse: the values behind `-s` are the settings, in their order.
  pub record ParsesSettings : Type 0 where
    pub create :
        (vs : List String) (dry : Bool)
        → (around.parse ("create" ∷ (pairs vs ++ (if dry then "--dry-run" ∷ [] else [])))).given
          ≡ vs
    pub load :
        (sload : Bool) (vs : List String) (dry : Bool)
        → (around.parse (
            (if sload then "sload" else "load")
            ∷ (pairs vs ++ (if dry then "--dry-run" ∷ [] else [])))).given
          ≡ vs
    pub execute :
        (n : String) (vs : List String) (dry : Bool)
        → (around.parse (
            "execute"
            ∷ "--logs-per-sec"
            ∷ n
            ∷ (pairs vs ++ (if dry then "--dry-run" ∷ [] else [])))).given
          ≡ vs

  -- A job of these, whose arguments are settings with the same value in all regions.
  abbrev IsSettled : List (Job F) → Job F → Type 0
  IsSettled jobs job = Among job jobs × IsPairs job.args × All IsPlain (settings_of job.args)

  -- A call whose settings are those of one of the jobs, and then those of the command line.
  abbrev CallsJob : List (Job F) → List String → Call → Type 0
  CallsJob jobs set c =
      (job : Job F) × IsSettled jobs job × ((around.parse c).given ≡ settings_of job.args ++ set)

  -- A kubectl, or a template with all settings of one of the jobs first, in their order, and then
  -- those of the command line.
  abbrev pub SetsJob : List (Job F) → List String → Command → Type 0
  SetsJob jobs set cmd =
      (job : Job F) × Among job jobs × SetsGiven around.chart (settings_of job.args ++ set) cmd

  -- The part of a call behind the operation.
  tail_of_pairs :
      (args set tail : List String)
      → IsPairs args
      → args ++ (pairs set ++ tail) ≡ pairs (settings_of args ++ set) ++ tail
  tail_of_pairs args set tail e =
      ap (λ xs. xs ++ (pairs set ++ tail)) e
      ∙ sym (append_assoc (pairs (settings_of args)) (pairs set) tail)
      ∙ ap (λ xs. xs ++ tail) (sym (pairs-append (settings_of args) set))

  module _ (parses : ParsesSettings) (jobs : List (Job F)) (set : List String)
      (plain : All IsPlain set) where
    call_main-SetsJob :
        (c : Call) (log : List Command)
        → CallsJob jobs set c
        → All (SetsJob jobs set) log
        → All (SetsJob jobs set) (call_main F around log c).1
    unfolding call_main
    call_main-SetsJob c log (job, (among, args, fit), given) h =
        main-SetsGiven around.shell around.config around.chart (around.timestamp log)
          (around.logged log c) (around.parse c) log (SetsJob jobs set)
          (λ cmd sets. (job, among, subst (λ vs. SetsGiven around.chart vs cmd) given sets))
          (subst (All IsPlain) (sym given)
            (All-append IsPlain (settings_of job.args) set fit plain))
          h

    commands-SetsJob :
        (cs : List Call)
        → All (CallsJob jobs set) cs
        → All (SetsJob jobs set) (commands F around cs)
    unfolding commands
    commands-SetsJob cs h = go cs [] h tt
      where
        go :
            (ds : List Call) (log : List Command)
            → All (CallsJob jobs set) ds
            → All (SetsJob jobs set) log
            → All (SetsJob jobs set) (foldl (λ log c. (call_main F around log c).1) log ds)
        go [] log calls h1 = h1
        go (c ∷ ds) log (here, calls) h1 = go ds _ calls (call_main-SetsJob c log here h1)

    module _ (o : Options) (set_arg : o.set_arg ≡ pairs set) where
      call-CallsJob :
          (op : String) (job : Job F)
          → ((vs : List String) → (around.parse (op ∷ (pairs vs ++ dry_run_arg o))).given ≡ vs)
          → IsSettled jobs job
          → CallsJob jobs set (op ∷ (job.args ++ (o.set_arg ++ dry_run_arg o)))
      call-CallsJob op job parsed (among, args, fit) = (
        job,
        (among, args, fit),
        ap (λ xs. (around.parse (op ∷ xs)).given)
              (ap (λ xs. job.args ++ (xs ++ dry_run_arg o)) set_arg
                ∙ tail_of_pairs job.args set (dry_run_arg o) args)
            ∙ parsed (settings_of job.args ++ set),
      )

      execute_call-CallsJob :
          (job : Job F)
          → IsSettled jobs job
          → CallsJob jobs set (execute_call F csv (world F around) o job)
      unfolding execute_call
      execute_call-CallsJob job (among, args, fit) = (
        job,
        (among, args, fit),
        ap (λ xs. (around.parse ("execute" ∷ "--logs-per-sec" ∷ show_ℤ o.logs_per_sec ∷ xs)).given)
              (ap (λ xs. job.args ++ (xs ++ dry_run_arg o)) set_arg
                ∙ tail_of_pairs job.args set (dry_run_arg o) args)
            ∙ parses.execute (show_ℤ o.logs_per_sec) (settings_of job.args ++ set) o.dry_run,
      )

      run_jobs-CallsJob :
          (s : Session F csv)
          → All (IsSettled jobs) jobs
          → All (CallsJob jobs set) s.calls
          → All (CallsJob jobs set) (run_jobs F csv (world F around) o jobs s).1.calls
      run_jobs-CallsJob s fit h =
          run_jobs-calls F csv (world F around) o (IsSettled jobs) (CallsJob jobs set)
            (λ job. call-CallsJob "create" job (λ vs. parses.create vs o.dry_run))
            (λ job.
              call-CallsJob (if o.sload then "sload" else "load") job
                (λ vs. parses.load o.sload vs o.dry_run))
            execute_call-CallsJob jobs s fit h

  all_IsSettled :
      (jobs : List (Job F))
      → All (λ job. IsPairs job.args) jobs
      → All (λ job. All IsPlain (settings_of job.args)) jobs
      → All (IsSettled jobs) jobs
  all_IsSettled jobs args fit = go jobs args fit (λ job among. among)
    where
      go :
          (js : List (Job F))
          → All (λ job. IsPairs job.args) js
          → All (λ job. All IsPlain (settings_of job.args)) js
          → ((job : Job F) → Among job js → Among job jobs)
          → All (IsSettled jobs) js
      go [] args1 fit1 within = tt
      go (j ∷ js) (a, args1) (f, fit1) within =
          ((within j (inl refl), a, f), go js args1 fit1 (λ job among. within job (inr among)))

  -- In a run of an experiment, every command that its benchmarks run is a kubectl, or renders the
  -- template with all settings of one of the jobs, in their order, before those of the command line
  -- and any other. Each setting has the same value in all regions, and argparse takes the values
  -- behind `-s` as the settings.
  pub run_all-SetsJob :
      ParsesSettings
      → (confirmed connected : Bool) (args : Arguments) (exp : Experiment F) (timestamp : String)
        (p : Progress F csv)
      → let jobs = (benchmark_args F exp args.prefix (some timestamp)).0 in
        All (λ (job : Job F). All IsPlain (settings_of job.args)) jobs
        → All IsPlain args.set
        → All (SetsJob jobs args.set) (
            commands F around
              (run_all F csv (world F around) confirmed connected args exp timestamp p).1.calls)
  unfolding run_all start
  run_all-SetsJob parses confirmed connected args exp timestamp p fit plain =
      let jobs = (benchmark_args F exp args.prefix (some timestamp)).0 in
      commands-SetsJob parses jobs args.set plain _ (
        run_jobs-CallsJob parses jobs args.set plain _ (create_set_arg-pairs args.set)
          (start F csv p)
          (all_IsSettled jobs (benchmark_args-IsPairs F exp args.prefix (some timestamp)) fit) tt)
