-- ===== src/Experiment/Run.antt =====
-- `main` of tools/experiment.py from the confirmation on: one benchmark for each job, with the
-- database reloaded from time to time. `benchmark.main` and the prompt answer from outside: they
-- are functions of the calls made so far.
pub mod Reload
mod Status
pub mod Rounds
pub mod Resume
pub mod Remaining
pub mod Finish
pub mod Kept
pub mod Rows
pub mod Filed
pub mod Calls
use sunstorm_xactserver.Base.{
  ℕ, String, Bool, true, false, not, ◌&&◌, Option, none, some, List, [], ◌∷◌, ◌++◌, ◌||◌, ◌==◌,
  get_elem?, modify, string_eq, if◌then◌else◌,
}
use sunstorm_xactserver.Base.Dict.{Dict, lookup, insert}
use sunstorm_xactserver.Base.Int.{ℤ, pos, is_zero, pred}
use sunstorm_xactserver.Base.Text.{show_ℤ}
use sunstorm_xactserver.Experiment.Jobs.{Job}
use sunstorm_xactserver.Experiment.Progress.{
  Csv, Record, Progress, done, error, pending, save, get_or_insert,
}
use sunstorm_xactserver.Experiment.Values.{
  Floats, Error, unknown_status, missing_status, ParameterValue, str, bool, show_value,
}

-- The list of arguments of one `benchmark.main`.
abbrev pub Call : Type 0
Call = List String

pub record BenchmarkResult (F : Floats) : Type 0 where
  pub throughput : ParameterValue F
  pub goodput : ParameterValue F

-- `none` is an exception that `benchmark.main` raised.
pub record World (F : Floats) : Type 0 where
  pub bench : List Call → Call → Option (BenchmarkResult F)
  pub confirm : List Call → Bool

-- The arguments of the command line that the loop reads. `collects` is `args.output`, and
-- `reload_every` is that of the experiment file, or 0.
pub record Options : Type 0 where
  pub interactive : Bool
  pub skip_create_load : Bool
  pub sload : Bool
  pub dry_run : Bool
  pub collects : Bool
  pub logs_per_sec : ℤ
  pub set_arg : List String
  pub reload_every : ℤ

pub record Session (F : Floats) (csv : Csv F) : Type 0 where
  pub saved : Progress F csv
  pub open saved use *
  pub reload_counter : ℤ
  pub calls : List Call
  pub submitted : List String

-- How the body of the `try` ends: at its end, by an exception, or by `break`.
pub data Attempt : Type 0 where
  completed raised broke : Attempt

-- How the loop ends: after the last job, by `break`, or by an error that leaves `main`.
pub data Ending : Type 0 where
  finished interrupted : Ending
  failed : Error → Ending

abbrev pub dry_run_arg : Options → List String
dry_run_arg o = if o.dry_run then "--dry-run" ∷ [] else []

module _ (F : Floats) (csv : Csv F) where
  -- `record[key] = value`, on the object that the list holds.
  pub set_field : ℕ → String → ParameterValue F → Session F csv → Session F csv
  set_field i key value s = record s {
    saved = record s.saved { progress = modify i (insert key value) s.saved.progress };
  }

  unfoldable pub status_of : ℕ → List (Record F) → Option (ParameterValue F)
  status_of i rs = elim (get_elem? rs i) [ none ↦ none | some r ↦ lookup "status" r ]

  -- The state in which the loop starts.
  unfoldable pub start : Progress F csv → Session F csv
  start p = record { saved = p; reload_counter = pos 0; calls = []; submitted = [] }

  module _ (world : World F) (o : Options) where
    abbrev call : Call → Session F csv → Option (BenchmarkResult F) × Session F csv
    call c s = (world.bench s.calls c, record s { calls = s.calls ++ c ∷ [] })

    abbrev pub create_call : Job F → Call
    create_call job = "create" ∷ (job.args ++ (o.set_arg ++ dry_run_arg o))

    abbrev pub load_call : Job F → Call
    load_call job =
        (if o.sload then "sload" else "load") ∷ (job.args ++ (o.set_arg ++ dry_run_arg o))

    unfoldable pub execute_call : Job F → Call
    unfolding show_ℤ
    execute_call job =
        "execute"
        ∷ "--logs-per-sec"
        ∷ show_ℤ o.logs_per_sec
        ∷ (job.args ++ (o.set_arg ++ dry_run_arg o))

    -- Creating and loading the database, when the counter has come to 0.
    pub reload : Job F → ℕ → Session F csv → Attempt × Session F csv
    unfolding set_field
    reload job i s =
        let (created, s1) = call (create_call job) s in
        elim created [
          | none ↦ (raised, s1)
          | some _ ↦
              let (loaded, s2) = call (load_call job) s1 in
              elim loaded [
                | none ↦ (raised, s2)
                | some _ ↦ (
                  completed,
                  record (set_field i "reloaded" (bool true) s2) {
                    reload_counter = o.reload_every;
                  },
                )
              ]
        ]

    pub prepare : Job F → ℕ → Session F csv → Attempt × Session F csv
    unfolding reload
    prepare job i s =
        if o.skip_create_load
        then (completed, s)
        else if is_zero s.reload_counter
        then reload job i s
        else (completed, s)

    -- `collector.submit(tag)`, which does nothing on a dry run
    unfoldable pub submit : String → Session F csv → Session F csv
    submit tag s =
        if o.collects
        then if o.dry_run then s else record s { submitted = s.submitted ++ tag ∷ [] }
        else s

    pub execute : Job F → ℕ → Session F csv → Attempt × Session F csv
    unfolding set_field execute_call
    execute job i s =
        let (result, s1) = call (execute_call job) s in
        elim result [
          | none ↦ (raised, s1)
          | some r ↦ (
            completed,
            submit job.tag (
                set_field i "tag" (str job.tag)
                  (set_field i "goodput" r.goodput (set_field i "throughput" r.throughput s1))),
          )
        ]

    -- The body of the `try`.
    pub attempt : Job F → ℕ → Session F csv → Attempt × Session F csv
    unfolding prepare execute
    attempt job i s =
        if o.interactive && not (world.confirm s.calls)
        then (broke, s)
        else let (prepared, s1) = prepare job i s in
          elim prepared [
            | completed ↦ execute job i s1
            | raised ↦ (raised, s1)
            | broke ↦ (broke, s1)
          ]

    abbrev save_session : Session F csv → Session F csv
    save_session s = record s { saved = save F csv s.saved }

    -- `except`, `else` and what follows them; `none` goes on with the loop.
    pub settle : ℕ → Attempt × Session F csv → Option Ending × Session F csv
    unfolding set_field save
    settle i (completed, s) = (
      none,
      save_session
          (record (set_field i "status" (str done) s) { reload_counter = pred s.reload_counter }),
    )
    settle i (raised, s) = (
      none,
      save_session (record (set_field i "status" (str error) s) { reload_counter = pos 0 }),
    )
    settle i (broke, s) = (some interrupted, s)

    -- What the loop does with a record, by its status.
    pub by_status :
        Job F → ℕ → Option (ParameterValue F) → Session F csv → Option Ending × Session F csv
    unfolding attempt settle
    by_status job i none s = (some (failed missing_status), s)
    by_status job i (some (str status)) s =
        if status == done
        then (none, s)
        else if status == error || status == pending
        then settle i (attempt job i s)
        else (some (failed (unknown_status status)), s)
    by_status job i (some other) s = (some (failed (unknown_status (show_value F other))), s)

    unfoldable pub step : Job F → Session F csv → Option Ending × Session F csv
    unfolding get_or_insert status_of by_status
    step job s =
        let (i, saved) = get_or_insert F csv job.metadata s.saved in
        by_status job i (status_of i saved.progress) (record s { saved = saved })

    -- The loop over the jobs.
    unfoldable pub run_jobs : List (Job F) → Session F csv → Ending × Session F csv
    run_jobs [] s = (finished, s)
    run_jobs (job ∷ rest) s =
        let (ending, s') = step job s in
        let go_on = run_jobs rest s' in elim ending [ some e ↦ (e, s') | none ↦ go_on ]
