-- ===== src/Experiment/Run/Calls.antt =====
-- The calls of `benchmark.main` that the loop of tools/experiment.py makes.
use sunstorm_xactserver.Base.{List, [], ◌∷◌, ◌++◌, All, All-append}
use sunstorm_xactserver.Experiment.Jobs.{Job}
use sunstorm_xactserver.Experiment.Progress.{Csv}
use sunstorm_xactserver.Experiment.Values.{Floats}
use sunstorm_xactserver.Experiment.Run.{
  Call, World, Options, Session, set_field, create_call, load_call, execute_call, run_jobs,
}
use sunstorm_xactserver.Experiment.Run.Kept.{IsKeptAround, run_jobs-IsKept}
use sunstorm_xactserver.Experiment.Run.Reload.{submit-calls}

module _ (F : Floats) (csv : Csv F) (world : World F) (o : Options) (J : Job F → Type 0)
    (P : Call → Type 0) (creates : (job : Job F) → J job → P (create_call F csv world o job))
    (loads : (job : Job F) → J job → P (load_call F csv world o job))
    (executes : (job : Job F) → J job → P (execute_call F csv world o job)) where
  abbrev AllCalls : Session F csv → Type 0
  AllCalls s = All P s.calls

  one_more : (c : Call) (s : Session F csv) → P c → AllCalls s → All P (s.calls ++ c ∷ [])
  one_more c s new h = All-append P s.calls (c ∷ []) h (new, tt)

  AllCalls-IsKept : IsKeptAround F csv world o J AllCalls
  unfolding set_field
  AllCalls-IsKept = record {
    body = record {
      creates = λ job s fits h. one_more _ s (creates job fits) h;
      loads = λ job s fits h. one_more _ s (loads job fits) h;
      executes = λ job s fits h. one_more _ s (executes job fits) h;
      measures = λ i k v s e h. h;
      tags = λ i tag s h. h;
      counts = λ z s h. h;
      submits = λ tag s h. rw (submit-calls F csv world o 0 tag s) h;
    };
    marks = λ i status s h. h;
    saves = λ s h. h;
    inserts = λ job s fit h. h;
  }

  -- What holds of the three kinds of calls holds of all calls of a run.
  pub run_jobs-calls :
      (jobs : List (Job F)) (s : Session F csv)
      → All J jobs
      → All P s.calls
      → All P (run_jobs F csv world o jobs s).1.calls
  run_jobs-calls jobs s fit h = run_jobs-IsKept F csv world o AllCalls-IsKept jobs s fit h
