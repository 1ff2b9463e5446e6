-- ===== src/Experiment/Main/Tests.antt =====
-- Runs of `main` of tools/experiment.py on small data, and the theorems at them.
use sunstorm_xactserver.Base.{refl, true, false, none, some, List, [], string_eq}
use sunstorm_xactserver.Base.Int.{pos}
use sunstorm_xactserver.Experiment.Values.{int, float}
use sunstorm_xactserver.Base.Dict.{keys}
use sunstorm_xactserver.Experiment.Jobs.Names.{HasFreeParams}
use sunstorm_xactserver.Experiment.Jobs.{Job, benchmark_args, key_flags}
use sunstorm_xactserver.Experiment.Progress.{as_text, find_record}
use sunstorm_xactserver.Experiment.Sample.{floats, csv, exp}
use sunstorm_xactserver.Experiment.Main.{Arguments, first_progress, run_all, main}
use sunstorm_xactserver.Experiment.Main.Refusal.{IsUntouched}
use sunstorm_xactserver.Experiment.Main.Again.{main_again}
use sunstorm_xactserver.Experiment.Run.{World, Session, status_of, start, step, run_jobs, submit}
use sunstorm_xactserver.Experiment.Run.Resume.{AllDone}

abbrev world : World floats
world = record {
  bench = λ calls c. some (record { throughput = float 7; goodput = int (pos 5) });
  confirm = λ calls. true;
}

-- The second time, every benchmark would fail.
abbrev broken : World floats
broken = record { bench = λ calls c. none; confirm = λ calls. true }

abbrev arguments : Arguments
arguments = record {
  new = false;
  y = true;
  prefix = none;
  set = [];
  options = record {
    interactive = false;
    skip_create_load = false;
    sload = false;
    dry_run = false;
    collects = false;
    logs_per_sec = pos 1;
    set_arg = [];
    reload_every = pos 0;
  };
}

abbrev jobs : List (Job floats)
jobs = (benchmark_args floats exp none (some "x")).0

abbrev after : Session floats csv
after =
    (run_all floats csv world true true arguments exp "x" (first_progress floats csv false none)).1

free_params : HasFreeParams (keys (key_flags exp.param_keys []))
unfolding key_flags string_eq
free_params = record {
  status = refl;
  reloaded = refl;
  throughput = refl;
  goodput = refl;
  tag = refl;
}

all_done : AllDone floats csv world arguments.options jobs after
unfolding run_all run_jobs step submit start benchmark_args string_eq find_record status_of as_text
    first_progress
all_done = (refl, (refl, tt))

main_again_example :
    IsUntouched floats csv broken true true after.saved.file
      (main floats csv broken true true arguments (some exp) "y" after.saved.file).1
unfolding first_progress
main_again_example =
    main_again floats csv world broken true true true true arguments arguments exp "x" "y" none refl
      refl free_params tt refl all_done
