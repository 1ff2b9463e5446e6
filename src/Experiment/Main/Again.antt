-- ===== src/Experiment/Main/Again.antt =====
-- `main` of tools/experiment.py run again, once all benchmarks are done.
use mathlib.Core.Option.{some-injective}
use sunstorm_xactserver.Base.{
  ◌≡◌, refl, sym, subst, String, Bool, false, Option, some, List, [], ◌∷◌, All, inl, inr,
}
use sunstorm_xactserver.Base.Dict.{keys}
use sunstorm_xactserver.Experiment.Jobs.{Experiment, Job, benchmark_args, key_flags}
use sunstorm_xactserver.Experiment.Jobs.Names.{
  HasFreeParams, metadata_names, benchmark_args-IsNamed,
}
use sunstorm_xactserver.Experiment.Jobs.Metadata.{benchmark_args-YieldsSame, All-of_metadata}
use sunstorm_xactserver.Experiment.Progress.{Csv, as_text}
use sunstorm_xactserver.Experiment.Progress.File.{IsRow, ReadsBack}
use sunstorm_xactserver.Experiment.Values.{Floats}
use sunstorm_xactserver.Experiment.Run.{World, Options, start, run_jobs}
use sunstorm_xactserver.Experiment.Run.Rounds.{IsDone, status_for}
use sunstorm_xactserver.Experiment.Run.Resume.{AllDone, run_jobs_done}
use sunstorm_xactserver.Experiment.Run.Rows.{IsNamedJob}
use sunstorm_xactserver.Experiment.Main.{Arguments, first_progress, run_all, main}
use sunstorm_xactserver.Experiment.Main.Refusal.{IsUntouched, main_lem, first_progress-file}
use sunstorm_xactserver.Experiment.Main.Rerun.{run_jobs-first_progress}

module _ (F : Floats) (csv : Csv F) where
  -- The jobs that are done are done still in what the file gives back.
  AllDone-first_progress :
      (names : List String) (world : World F) (o : Options) (jobs rest : List (Job F)) (new : Bool)
      (file : Option csv.File)
      → All (IsNamedJob F names csv world o) jobs
      → All (IsNamedJob F names csv world o) rest
      → All (IsRow F names) (first_progress F csv new file).progress
      → let s = (run_jobs F csv world o jobs (start F csv (first_progress F csv new file))).1 in
        ReadsBack F csv s.progress
        → AllDone F csv world o rest s
        → All
            (λ job. IsDone F csv (
              status_for F csv
                (as_text F job.metadata)
                (first_progress F csv false s.saved.file).progress))
            rest
  AllDone-first_progress names world o jobs [] new file named others rows back h = tt
  AllDone-first_progress names world o jobs (job ∷ rest) new file named (here, others) rows back h =
      (
        run_jobs-first_progress F csv world o names jobs new file (as_text F job.metadata) named
            rows back here.0 here.1 h.0,
        AllDone-first_progress names world o jobs rest new file named others rows back h.1,
      )

  module _ (world world' : World F) (confirmed connected confirmed' connected' : Bool) where
    IsUntouched-run_all :
        (args : Arguments) (exp : Experiment F) (timestamp : String) (file : Option csv.File)
        → AllDone F csv world' args.options
            (benchmark_args F exp args.prefix (some timestamp)).0
            (start F csv (first_progress F csv false file))
        → IsUntouched F csv world' confirmed' connected' file
            (run_all F csv world' confirmed' connected' args exp timestamp
              (first_progress F csv false file)).1
    unfolding run_all start
    IsUntouched-run_all args exp timestamp file h =
        rw
          (run_jobs_done F csv world' _ (benchmark_args F exp args.prefix (some timestamp)).0
            (start F csv (first_progress F csv false file)) h)
          (refl, refl, first_progress-file F csv world' confirmed' connected' false file)

    IsUntouched-main :
        (args : Arguments) (exp : Experiment F) (timestamp : String) (file : Option csv.File)
        → args.new ≡ false
        → AllDone F csv world' args.options
            (benchmark_args F exp args.prefix (some timestamp)).0
            (start F csv (first_progress F csv false file))
        → IsUntouched F csv world' confirmed' connected' file
            (main F csv world' confirmed' connected' args (some exp) timestamp file).1
    unfolding run_all
    IsUntouched-main args exp timestamp file old h =
        elim (main_lem F csv world' confirmed' connected' args (some exp) timestamp file) [
          | inl (e, same, yes_, linked, runs) ↦
              subst (λ r. IsUntouched F csv world' confirmed' connected' file r.1) (sym runs)
                (rw (old, sym (some-injective _ _ same))
                  (IsUntouched-run_all args exp timestamp file h))
          | inr (exit, untouched) ↦ untouched
        ]

    -- `main` is run on an experiment, with a progress file or with none, and then again without
    -- `--new`, with any answers and at any time, but with the same prefix. If the first run has left
    -- the record of every job done, the second one runs no benchmark, submits no tag and leaves the
    -- progress file as it is. No parameter has the name of a field that the loop keeps, the records
    -- at the start have the keys of the jobs' metadata and texts as values, and the csv module reads
    -- back what it writes.
    pub main_again :
        (args args' : Arguments) (exp : Experiment F) (timestamp timestamp' : String)
        (file : Option csv.File)
        → args'.new ≡ false
        → args'.prefix ≡ args.prefix
        → let jobs = (benchmark_args F exp args.prefix (some timestamp)).0 in
          let p = first_progress F csv args.new file in
          let s = (run_all F csv world confirmed connected args exp timestamp p).1 in
          let params = keys (key_flags exp.param_keys []) in
          HasFreeParams params
          → All (IsRow F (metadata_names params)) p.progress
          → ReadsBack F csv s.progress
          → AllDone F csv world args.options jobs s
          → IsUntouched F csv world' confirmed' connected' s.saved.file
              (main F csv world' confirmed' connected' args' (some exp) timestamp' s.saved.file).1
    unfolding run_all
    main_again args args' exp timestamp timestamp' file old prefix free rows back h =
        let named = benchmark_args-IsNamed F exp args.prefix (some timestamp) free in
        IsUntouched-main args' exp timestamp' _ old (
          rw prefix (
            All-of_metadata F
              (λ metadata.
                IsDone F csv
                  (status_for F csv (as_text F metadata) (first_progress F csv false _).progress))
              _ _ (benchmark_args-YieldsSame F exp args.prefix (some timestamp) (some timestamp')).0
              (AllDone-first_progress _ world _ _ _ args.new file named named rows back h)))
