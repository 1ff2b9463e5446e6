-- ===== src/Experiment/Tests.antt =====
-- Runs of tools/experiment.py on small data, and the theorems at them.
use sunstorm_xactserver.Base.{
  ℕ, ◌≤◌, ◌≡◌, ◌≢◌, refl, ◌↔◌, ◌⊎◌, String, true, false, none, some, List, [], ◌∷◌, map, arith, All,
  Zipped, length, Distinct, eqb, string_eq, if◌then◌else◌,
}
use sunstorm_xactserver.Base.Dict.{Dict, keys, lookup}
use sunstorm_xactserver.Base.Int.{pos}
use sunstorm_xactserver.Base.Result.{ok}
use sunstorm_xactserver.Experiment.Values.{
  ParameterValue, str, int, float, RawValue, literal, named,
}
use sunstorm_xactserver.Experiment.Replace.{
  Condition, by_value, conditions, Replace, Combination, is_match, replace_one, replace_values,
}
use sunstorm_xactserver.Experiment.Replace.Match.{Applies, is_match-Applies}
use sunstorm_xactserver.Experiment.Replace.Effect.{
  assigned, replace_one_effect, replace_values_total,
}
use sunstorm_xactserver.Experiment.Combine.{combinations}
use sunstorm_xactserver.Experiment.Combine.Product.{choices, combinations-eq-choices}
use sunstorm_xactserver.Experiment.Jobs.{
  plain, keyed, many, single, Experiment, Job, key_flags, named_values, benchmark_args,
}
use sunstorm_xactserver.Experiment.Jobs.Content.{RunsAfterRules, benchmark_args-Runs}
use sunstorm_xactserver.Experiment.Progress.{Csv, Progress, as_text, find_record}
use sunstorm_xactserver.Experiment.Sample.{floats}
use sunstorm_xactserver.Experiment.Main.{Arguments, returned, first_progress, run_all, main}
use sunstorm_xactserver.Experiment.Main.Refusal.{IsUntouched, Refuses, main_lem}
use sunstorm_xactserver.Experiment.Run.{
  World, Options, Session, finished, status_of, start, submit, step, run_jobs,
}
use sunstorm_xactserver.Experiment.Run.Reload.{since_load, since_load-le-reload_every}
use sunstorm_xactserver.Experiment.Run.Finish.{AllKnown, run_jobs_finish}
use sunstorm_xactserver.Experiment.Run.Resume.{IsFreeJob, AllSettled}
use sunstorm_xactserver.Experiment.Run.Remaining.{remaining_jobs, run_jobs_resumed}

abbrev csv : Csv floats
csv = record {
  File = List (Dict String String);
  write = λ names rs. map (λ r. as_text floats r) rs;
  read = λ f. f;
}

abbrev whole : ℕ → RawValue floats
whole n = literal (some (int (pos n)))

-- With two clients, the mode is renamed.
abbrev rule : Replace floats
rule = record {
  matcher = conditions ((("clients", by_value (some (int (pos 2)))) ∷ []) ∷ []);
  assign = ("bb.mode", named (record { name = "cold"; value = some (str "off") })) ∷ [];
}

abbrev exp : Experiment floats
exp = record {
  name = "hot";
  dbtype = "postgres";
  reload_every = some (pos 2);
  benchmark = "ycsb";
  scalefactor = pos 1;
  time = pos 60;
  rate = pos 100;
  isolation = "serializable";
  param_keys = plain "clients" ∷ keyed "bb.mode" (some true) ∷ [];
  param_values =
      ("clients", many (whole 1 ∷ whole 2 ∷ []))
      ∷ ("bb.mode", single (named (record { name = "warm"; value = some (str "on") })))
      ∷ [];
  replace = rule ∷ [];
}

abbrev params : List String
params = "clients" ∷ "bb.mode" ∷ []

abbrev jobs : List (Job floats)
jobs = (benchmark_args floats exp none (some "x")).0

generated : benchmark_args floats exp none (some "x") ≡ (jobs, none)
unfolding benchmark_args string_eq
generated = refl

tags : map (λ (j : Job floats). j.tag) jobs ≡ "hot-clients1-warm-x" ∷ "hot-clients2-cold-x" ∷ []
unfolding benchmark_args string_eq
tags = refl

benchmark_args-Runs_example :
    Zipped
      (RunsAfterRules floats exp none (some "x"))
      (choices (named_values floats exp) (keys (key_flags exp.param_keys [])))
      jobs
benchmark_args-Runs_example = benchmark_args-Runs floats exp none (some "x") generated

distinct : Distinct params
unfolding string_eq
distinct = (refl, (refl, tt))

combinations-eq-choices_example :
    combinations params (named_values floats exp) ≡ choices (named_values floats exp) params
combinations-eq-choices_example = combinations-eq-choices (named_values floats exp) params distinct

abbrev combination : Combination floats
combination =
    ("clients", record { name = "clients2"; value = some (int (pos 2)) })
    ∷ ("bb.mode", record { name = "warm"; value = some (str "on") })
    ∷ []

abbrev renamed : Combination floats
renamed =
    ("clients", record { name = "clients2"; value = some (int (pos 2)) })
    ∷ ("bb.mode", record { name = "cold"; value = some (str "off") })
    ∷ []

rule_applied : replace_one floats rule combination ≡ ok renamed
unfolding replace_one string_eq
rule_applied = refl

abbrev clauses : List (Dict String (Condition floats))
clauses = (("clients", by_value (some (int (pos 2)))) ∷ []) ∷ []

replace_one_effect_example :
    (Applies floats combination clauses
      × ((j : String) → lookup j renamed ≡ assigned floats j rule.assign combination))
    ⊎ ((¬ Applies floats combination clauses) × (renamed ≡ combination))
replace_one_effect_example =
    replace_one_effect floats clauses rule.assign combination (refl, tt) rule_applied

tested : is_match floats (conditions clauses) combination ≡ ok true
unfolding is_match string_eq
tested = refl

is_match-Applies_example : (true ≡ true) ↔ Applies floats combination clauses
is_match-Applies_example = is_match-Applies floats combination clauses tested

known_clients : lookup "clients" combination ≢ none
unfolding string_eq
known_clients e = cc

known_mode : lookup "bb.mode" combination ≢ none
unfolding string_eq
known_mode e = cc

replace_values_total_example :
    (c : Combination floats) × (replace_values floats (rule ∷ []) combination ≡ ok c)
replace_values_total_example =
    replace_values_total floats (rule ∷ []) combination
      (((((known_clients, tt), tt), (known_mode, tt)), tt))

abbrev no_progress : Progress floats csv
no_progress = record { progress = []; file = none }

abbrev metadata : Dict String (ParameterValue floats)
metadata = ("rate", int (pos 100)) ∷ ("mode", str "on") ∷ []

Distinct-metadata : Distinct (keys (as_text floats metadata))
unfolding as_text string_eq
Distinct-metadata = (refl, (refl, tt))

-- The first execution fails.
abbrev world : World floats
world = record {
  bench = λ calls c.
      if eqb (length calls) 2
      then none
      else some (record { throughput = float 7; goodput = int (pos 5) });
  confirm = λ calls. true;
}

abbrev options : Options
options = record {
  interactive = true;
  skip_create_load = false;
  sload = false;
  dry_run = false;
  collects = true;
  logs_per_sec = pos 1;
  set_arg = [];
  reload_every = pos 2;
}

abbrev after : Session floats csv
after = (run_jobs floats csv world options jobs (start floats csv no_progress)).1

ended : (run_jobs floats csv world options jobs (start floats csv no_progress)).0 ≡ finished
unfolding run_jobs step submit start benchmark_args string_eq
ended = refl

-- The database is created and loaded again after the failure.
called : length after.calls ≡ 6
unfolding run_jobs step submit start benchmark_args string_eq
called = refl

since_load-le-reload_every_example : since_load after.calls ≤ 2
since_load-le-reload_every_example =
    since_load-le-reload_every floats csv world options 2 (omega arith) refl refl jobs no_progress

all_free : All (IsFreeJob floats csv world options) jobs
unfolding as_text benchmark_args string_eq
all_free = (
  record {
    status = refl;
    reloaded = refl;
    throughput = refl;
    goodput = refl;
    tag = refl;
    distinct = (refl, (refl, (refl, (refl, (refl, (refl, (refl, (refl, tt))))))));
  },
  (
    record {
      status = refl;
      reloaded = refl;
      throughput = refl;
      goodput = refl;
      tag = refl;
      distinct = (refl, (refl, (refl, (refl, (refl, (refl, (refl, (refl, tt))))))));
    },
    tt,
  ),
)

abbrev batch : Options
batch = record options { interactive = false }

all_known : AllKnown floats csv (start floats csv no_progress).progress
unfolding start find_record
all_known m i free found = cc

run_jobs_finish_example :
    ((run_jobs floats csv world batch jobs (start floats csv no_progress)).0 ≡ finished)
    × AllSettled floats csv world batch jobs
        (run_jobs floats csv world batch jobs (start floats csv no_progress)).1
run_jobs_finish_example =
    run_jobs_finish floats csv world batch refl jobs (start floats csv no_progress) all_free
      all_known

-- A second run is a run over the job that failed.
one_left :
    map (λ (j : Job floats). j.tag) (remaining_jobs floats csv after jobs)
    ≡ "hot-clients1-warm-x" ∷ []
unfolding run_jobs step submit start benchmark_args string_eq find_record status_of as_text
one_left = refl

run_jobs_resumed_example :
    run_jobs floats csv world options jobs after
    ≡ run_jobs floats csv world options (remaining_jobs floats csv after jobs) after
run_jobs_resumed_example = run_jobs_resumed floats csv world options jobs after all_free

abbrev arguments : Arguments
arguments = record { new = false; y = true; prefix = none; set = "a=1" ∷ []; options = options }

main_lem_example :
    let (exit, s) = main floats csv world false true arguments (some exp) "x" none in
    ((e : Experiment floats) × (some exp ≡ some e)
      × (true ≡ true)
      × (true ≡ true)
      × (main floats csv world false true arguments (some exp) "x" none
          ≡ run_all floats csv world false true arguments e "x"
              (first_progress floats csv false none)))
    ⊎ (((n : ℕ) × Refuses floats csv world false true arguments (some exp) n × (exit ≡ returned n))
        × IsUntouched floats csv world false true none s)
main_lem_example = main_lem floats csv world false true arguments (some exp) "x" none
