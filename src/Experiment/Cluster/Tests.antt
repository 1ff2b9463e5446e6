-- ===== src/Experiment/Cluster/Tests.antt =====
-- Dry runs of tools/experiment.py over tools/benchmark.py on small data.
use sunstorm_xactserver.Base.{
  ap, ◌≡◌, refl, String, Bool, true, false, none, some, List, [], ◌∷◌, ◌++◌, All, arith, length,
  ◌==◌, if◌then◌else◌, string_eq,
}
use sunstorm_xactserver.Base.Int.{pos}
use sunstorm_xactserver.Base.Text.{includes}
use sunstorm_xactserver.Config.{MainConfig, get_context, global_context, region_context}
use sunstorm_xactserver.Benchmark.Main
use sunstorm_xactserver.Benchmark.Main.DryRun.{IsTemplate}
use sunstorm_xactserver.Experiment.Values.{int}
use sunstorm_xactserver.Experiment.Sample.{floats, csv, exp}
use sunstorm_xactserver.Experiment.Main.{Arguments, first_progress, run_all, main}
use sunstorm_xactserver.Experiment.Run.{Call, step, run_jobs, submit}
use sunstorm_xactserver.Experiment.Cluster.{Surroundings, commands, world}
use sunstorm_xactserver.Benchmark.Main.Given.{IsPlain}
use sunstorm_xactserver.Experiment.Jobs.{Job, benchmark_args}
use sunstorm_xactserver.Experiment.Jobs.Pairs.{pairs, settings_of}
use sunstorm_xactserver.Experiment.Cluster.Settings.{ParsesSettings, SetsJob, run_all-SetsJob}
use sunstorm_xactserver.Experiment.Cluster.DryRun.{ParsesDryRun, main-commands-IsTemplate}

abbrev operation_of : Call → Main.Choice
operation_of [] = Main.create
operation_of (op ∷ _) =
    if op == "execute" then Main.execute else if op == "load" then Main.load else Main.create

-- The values behind `-s`.
abbrev settings_in : List String → List String
settings_in [] = []
settings_in (x ∷ []) = []
settings_in (x ∷ v ∷ rest) = let later = settings_in rest in if x == "-s" then v ∷ later else []

abbrev given_of : Call → List String
given_of [] = []
given_of (op ∷ []) = []
given_of (op ∷ x ∷ []) = []
given_of (op ∷ x ∷ n ∷ rest) =
    if x == "--logs-per-sec" then settings_in rest else settings_in (x ∷ n ∷ rest)

abbrev tail : Bool → List String
tail dry = if dry then "--dry-run" ∷ [] else []

settings_in-pairs : (vs : List String) (dry : Bool) → settings_in (pairs vs ++ tail dry) ≡ vs
unfolding string_eq
settings_in-pairs [] true = refl
settings_in-pairs [] false = refl
settings_in-pairs (v ∷ vs) dry = ap (λ ws. v ∷ ws) (settings_in-pairs vs dry)

given_of-pairs :
    (op : String) (vs : List String) (dry : Bool) → given_of (op ∷ (pairs vs ++ tail dry)) ≡ vs
unfolding string_eq
given_of-pairs op [] true = refl
given_of-pairs op [] false = refl
given_of-pairs op (v ∷ vs) dry = ap (λ ws. v ∷ ws) (settings_in-pairs vs dry)

given_of-execute :
    (n : String) (vs : List String) (dry : Bool)
    → given_of ("execute" ∷ "--logs-per-sec" ∷ n ∷ (pairs vs ++ tail dry)) ≡ vs
unfolding string_eq
given_of-execute n vs dry = settings_in-pairs vs dry

abbrev is_last : String → List String → Bool
is_last flag [] = false
is_last flag (x ∷ []) = x == flag
is_last flag (x ∷ y ∷ rest) = is_last flag (y ∷ rest)

is_last-append : (flag : String) (front : List String) → is_last flag (front ++ flag ∷ []) ≡ true
is_last-append flag [] = ground arith
is_last-append flag (x ∷ []) = ground arith
is_last-append flag (x ∷ y ∷ front) = is_last-append flag (y ∷ front)

abbrev config : MainConfig
config = record {
  global_region = "hub";
  global_region_context = some "c0";
  global_region_target_address_and_database = none;
  regions =
      (
        "east",
        record {
          id = 0;
          context = some "c1";
          target_address_and_database = none;
          warmup = none;
          benchbase_instances = none;
        },
      )
      ∷ [];
}

abbrev around : Surroundings floats
around = record {
  shell = record { succeeds = λ log cmd. true };
  config = config;
  chart = "chart";
  timestamp = λ log. "now";
  parse = λ c. record {
    operation = operation_of c;
    given = given_of c;
    regions = [];
    dry_run = is_last "--dry-run" c;
    logs_only = false;
  };
  logged = λ log c. none;
  number = λ n. int (pos n);
  confirm = λ calls. true;
}

parses : ParsesDryRun floats csv around
parses front = is_last-append "--dry-run" front

parses_settings : ParsesSettings floats csv around
parses_settings = record {
  create = λ vs dry. given_of-pairs "create" vs dry;
  load = λ sload vs dry. given_of-pairs (if sload then "sload" else "load") vs dry;
  execute = λ n vs dry. given_of-execute n vs dry;
}

abbrev arguments : Arguments
arguments = record {
  new = true;
  y = true;
  prefix = none;
  set = "a=1" ∷ [];
  options = record {
    interactive = false;
    skip_create_load = false;
    sload = false;
    dry_run = true;
    collects = false;
    logs_per_sec = pos 1;
    set_arg = [];
    reload_every = pos 0;
  };
}

main-commands-IsTemplate_example : All (IsTemplate "chart") (
    commands floats around
      (main floats csv (world floats around) true true arguments (some exp) "x" none).1.calls)
main-commands-IsTemplate_example =
    main-commands-IsTemplate floats csv around parses true true arguments (some exp) "x" none refl

-- Creating, loading both namespaces, and two benchmarks.
run :
    length (
      commands floats around
        (main floats csv (world floats around) true true arguments (some exp) "x" none).1.calls)
    ≡ 5
unfolding main run_jobs step commands string_eq world Main.main get_context global_context submit
    region_context
run = refl

abbrev jobs : List (Job floats)
jobs = (benchmark_args floats exp none (some "x")).0

all-IsPlain : All (λ (job : Job floats). All IsPlain (settings_of job.args)) jobs
unfolding benchmark_args string_eq includes
all-IsPlain = (
  (refl, (refl, (refl, (refl, (refl, (refl, (refl, (refl, tt)))))))),
  ((refl, (refl, (refl, (refl, (refl, (refl, (refl, (refl, tt)))))))), tt),
)

run_all-SetsJob_example : All (SetsJob floats csv around jobs ("a=1" ∷ [])) (
    commands floats around
      (run_all floats csv
        (world floats around)
        true
        true
        arguments
        exp
        "x"
        (first_progress floats csv true none)).1.calls)
unfolding includes
run_all-SetsJob_example =
    run_all-SetsJob floats csv around parses_settings true true arguments exp "x"
      (first_progress floats csv true none) all-IsPlain (refl, tt)
