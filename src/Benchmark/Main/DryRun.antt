-- ===== src/Benchmark/Main/DryRun.antt =====
-- The commands of a dry run of tools/benchmark.py.
use sunstorm_xactserver.Base.{
  ◌≡◌, refl, sym, subst, inl, inr, String, true, Option, List, [], All, all_units, All-append,
}
use sunstorm_xactserver.Config.{MainConfig}
use sunstorm_xactserver.Shell.{Command, Shell}
use sunstorm_xactserver.Benchmark.{Task, helm_command, run_benchmark}
use sunstorm_xactserver.Benchmark.Commands.{run_benchmark_dry}
use sunstorm_xactserver.Benchmark.Main.{Totals, Arguments, main}
use sunstorm_xactserver.Benchmark.Main.Kept.{main-All}

-- The command renders a template.
abbrev pub IsTemplate : String → Command → Type 0
IsTemplate chart cmd = (t : Task) × (flags : List String) × (cmd ≡ helm_command chart t flags true)

module _ (shell : Shell) (config : MainConfig) (chart timestamp : String) where
  abbrev Templates : List Command → Type 0
  Templates log = All (IsTemplate chart) log

  run_benchmark-Templates :
      (t : Task) (log : List Command)
      → Templates log
      → Templates (run_benchmark shell config chart t true log).1
  run_benchmark-Templates t log h = elim (run_benchmark_dry shell config chart t log) [
    | inl same ↦ subst Templates (sym same) h
    | inr (flags, made, more) ↦
        subst Templates (sym more) (All-append (IsTemplate chart) log _ h ((t, flags, refl), tt))
  ]

  -- On a dry run, whatever the operation and the regions, every further command that is run renders
  -- a template.
  pub main-Templates :
      (logged : Option Totals) (args : Arguments) (log : List Command)
      → args.dry_run ≡ true
      → Templates log
      → Templates (main shell config chart timestamp logged args log).1
  main-Templates logged args log dry h =
      main-All shell config chart timestamp true Templates (λ t. Unit {0})
        (λ t log1 _ h1. run_benchmark-Templates t log1 h1) logged args log dry
        (record {
          creates = all_units _;
          sloads = λ ts _. all_units ts;
          loads = all_units _;
          executes = λ ts _. all_units ts;
          deletes_global = all_units _;
          deletes = all_units _;
        })
        h

  -- On a dry run, whatever the operation and the regions, every command that is run renders a
  -- template: nothing is applied or deleted.
  pub main-IsTemplate :
      (logged : Option Totals) (args : Arguments)
      → args.dry_run ≡ true
      → All (IsTemplate chart) (main shell config chart timestamp logged args []).1
  main-IsTemplate logged args dry = main-Templates logged args [] dry tt
