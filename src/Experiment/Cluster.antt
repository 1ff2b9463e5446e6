-- ===== src/Experiment/Cluster.antt =====
-- tools/experiment.py over tools/benchmark.py: `benchmark.main` as a whole, from the list of
-- arguments that the loop gives it, in place of an answer from outside. argparse is a parameter, on
-- lists that it accepts; so are what the logs of a benchmark add up to, and the clock.
pub mod DryRun
pub mod Settings
mod Tests
use mathlib.Core.List.{foldl}
use sunstorm_xactserver.Base.{ℕ, String, Bool, Option, none, some, List, []}
use sunstorm_xactserver.Base.Result.{Result, ok, err}
use sunstorm_xactserver.Config.{MainConfig}
use sunstorm_xactserver.Shell.{Command, Shell, Failure}
use sunstorm_xactserver.Benchmark.Main
use sunstorm_xactserver.Benchmark.Main.{Totals}
use sunstorm_xactserver.Experiment.Run.{Call, BenchmarkResult, World}
use sunstorm_xactserver.Experiment.Values.{Floats, ParameterValue}

-- What the tools find around them.
pub record Surroundings (F : Floats) : Type 0 where
  pub shell : Shell
  pub config : MainConfig
  pub chart : String
  pub timestamp : List Command → String
  pub parse : Call → Main.Arguments
  pub logged : List Command → Call → Option Totals
  pub number : ℕ → ParameterValue F
  pub confirm : List Call → Bool

module _ (F : Floats) (around : Surroundings F) where
  -- One call, behind the commands that have been run.
  pub call_main : List Command → Call → Result Failure Totals × List Command
  call_main log c =
      Main.main around.shell around.config around.chart (around.timestamp log) (around.logged log c)
        (around.parse c) log

  -- All commands that have been run by these calls, one after the other.
  pub commands : List Call → List Command
  unfolding call_main
  commands = foldl (λ log c. (call_main log c).1) []

  abbrev result_of : Result Failure Totals → Option (BenchmarkResult F)
  result_of (err e) = none
  result_of (ok totals) = some (record {
    throughput = around.number totals.throughput;
    goodput = around.number totals.goodput;
  })

  pub world : World F
  unfolding commands
  world = record {
    bench = λ calls c. result_of (call_main (commands calls) c).0;
    confirm = around.confirm;
  }
