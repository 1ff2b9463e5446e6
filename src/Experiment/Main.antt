-- ===== src/Experiment/Main.antt =====
-- `main` of tools/experiment.py as a whole: from the experiment file and the progress file to the
-- exit status.
pub mod Refusal
pub mod Rerun
pub mod Again
mod Tests
use sunstorm_xactserver.Base.{
  ℕ, String, Bool, true, false, not, ◌&&◌, ◌||◌, Option, none, some, List, [], ◌∷◌, if◌then◌else◌,
}
use sunstorm_xactserver.Base.Int.{ℤ, pos}
use sunstorm_xactserver.Experiment.Jobs.{Experiment, Job, benchmark_args}
use sunstorm_xactserver.Experiment.Progress.{Csv, Progress, load}
use sunstorm_xactserver.Experiment.Run.{
  World, Options, Session, Ending, finished, interrupted, failed, start, run_jobs,
}
use sunstorm_xactserver.Experiment.Values.{Floats, Error}

-- `set` of the command line, with `-s` before each
unfoldable pub create_set_arg : List String → List String
create_set_arg [] = []
create_set_arg (s ∷ set) = "-s" ∷ s ∷ create_set_arg set

-- The arguments that only `main` reads. In `options`, `set_arg` and `reload_every` are left open.
pub record Arguments : Type 0 where
  pub new : Bool
  pub y : Bool
  pub prefix : Option String
  pub set : List String
  pub options : Options

pub data Exit : Type 0 where
  returned : ℕ → Exit
  raised_error : Error → Exit

-- `exp.get("reload_every") or 0`
abbrev reload_or_zero : Option ℤ → ℤ
reload_or_zero none = pos 0
reload_or_zero (some n) = n

-- How `main` ends, by how the loop and the generator end.
abbrev exit_of : Ending → Option Error → Exit
exit_of finished none = returned 0
exit_of finished (some e) = raised_error e
exit_of interrupted _ = returned 0
exit_of (failed e) _ = raised_error e

module _ (F : Floats) (csv : Csv F) where
  -- Without `--new`, the progress is read from the file, if there is one.
  pub first_progress : Bool → Option csv.File → Progress F csv
  unfolding load
  first_progress new file =
      let empty : Progress F csv = record { progress = []; file = file } in
      if new then empty else (load F csv empty).1

  module _ (world : World F) (confirmed connected : Bool) where
    -- The loop, over what the generator yields before it ends.
    unfoldable pub run_all :
        Arguments → Experiment F → String → Progress F csv → Exit × Session F csv
    unfolding create_set_arg benchmark_args start
    run_all args exp timestamp p =
        let o = record args.options {
          set_arg = create_set_arg args.set;
          reload_every = reload_or_zero exp.reload_every;
        } in
        let (jobs, end) = benchmark_args F exp args.prefix (some timestamp) in
        let (ending, s) = run_jobs F csv world o jobs (start F csv p) in (exit_of ending end, s)

    -- `confirmed` is the answer to the first question, `connected` that of MinIO.
    unfoldable pub main :
        Arguments → Option (Experiment F) → String → Option csv.File → Exit × Session F csv
    unfolding first_progress run_all
    main args loaded timestamp file = elim loaded [
      | none ↦ (returned 1, start F csv (record { progress = []; file = file }))
      | some exp ↦
          let p = first_progress args.new file in
          if not args.y && not confirmed
          then (returned 0, start F csv p)
          else if args.options.collects && not connected
          then (returned 1, start F csv p)
          else run_all args exp timestamp p
    ]
