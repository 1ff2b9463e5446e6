-- ===== src/Experiment/Collector/Join.antt =====
-- When `join` of the collector gets past its loop, and when it does not (tools/experiment.py).
use sunstorm_xactserver.Base.{
  ℕ, suc, ◌+◌, ◌≤◌, ◌<◌, ◌≡◌, ◌≢◌, ◌⊎◌, ◌||◌, refl, sym, ◌∙◌, subst, Bool, true, false, List, [],
  ◌∷◌, arith, All, inl, inr,
}
use sunstorm_xactserver.Experiment.Collector.{
  Phase, Main, System, sum, wake, Step, submit_tag, begin, count_job, list_fails, start_fetching,
  pool_refuses, fetch_begins, fetch_ends, give_up, straggler_ends, finish_collecting, join, wait,
  shutdown, Reach, later, Steps, stay, onward,
}
use sunstorm_xactserver.Experiment.Collector.Invariant.{total, Reach-Inv}
use sunstorm_xactserver.Experiment.Collector.Sums.{sum-append, sum-moved}

-- A job that is in the queue, has been taken but not counted, or has ended well.
abbrev pub IsIdle : Phase → Type 0
IsIdle p = (p ≡ Phase.queued) ⊎ ((p ≡ Phase.taken) ⊎ (p ≡ Phase.finished))

IsIdle-of_total : (jobs : List Phase) → total jobs ≡ 0 → All IsIdle jobs
IsIdle-of_total [] e = tt
IsIdle-of_total (Phase.queued ∷ jobs) e = (inl refl, IsIdle-of_total jobs (omega arith))
IsIdle-of_total (Phase.taken ∷ jobs) e = (inr (inl refl), IsIdle-of_total jobs (omega arith))
IsIdle-of_total (Phase.finished ∷ jobs) e = (inr (inr refl), IsIdle-of_total jobs (omega arith))
IsIdle-of_total (Phase.counted ∷ jobs) e = absurd (omega arith)
IsIdle-of_total (Phase.fetching left running raised ∷ jobs) e = absurd (omega arith)
IsIdle-of_total (Phase.failed running ∷ jobs) e = absurd (omega arith)

wake-ne-shut : (m : Main) → m ≢ Main.shut → wake m ≢ Main.shut
wake-ne-shut Main.submitting h e = cc
wake-ne-shut Main.testing h e = cc
wake-ne-shut Main.waiting h e = cc
wake-ne-shut Main.shut h e = h refl

-- When `join` gets to `shutdown`, every collection is in the queue, has been taken by a worker and
-- is not counted yet, or has ended well: none that is counted is under way, and none has failed.
pub shutdown_lem :
    {workers : ℕ} {dry_run : Bool} {s t : System}
    → Reach workers dry_run s
    → Step workers dry_run s t
    → s.main ≢ Main.shut
    → t.main ≡ Main.shut
    → All IsIdle t.jobs
shutdown_lem {s = s} r (shutdown e idle) h h' =
    IsIdle-of_total s.jobs (sym (Reach-Inv r).counts ∙ idle)
shutdown_lem r (submit_tag e live) h h' = absurd (h h')
shutdown_lem r (begin front back e room) h h' = absurd (h h')
shutdown_lem r (count_job front back e) h h' = absurd (h h')
shutdown_lem r (list_fails front back e) h h' = absurd (h h')
shutdown_lem r (start_fetching front back regions e open_now) h h' = absurd (h h')
shutdown_lem r (pool_refuses front back e closed) h h' = absurd (h h')
shutdown_lem r (fetch_begins front back left running raised e room) h h' = absurd (h h')
shutdown_lem r (fetch_ends front back left running raised raises e) h h' = absurd (h h')
shutdown_lem r (give_up front back left running e) h h' = absurd (h h')
shutdown_lem r (straggler_ends front back running e) h h' = absurd (h h')
shutdown_lem {s = s} r (finish_collecting front back e) h h' = absurd (wake-ne-shut s.main h h')
shutdown_lem r (join e) h h' = absurd (cc)
shutdown_lem r (wait e busy) h h' = absurd (cc)

abbrev failure : Phase → ℕ
failure (Phase.failed running) = 1
failure Phase.queued = 0
failure Phase.taken = 0
failure Phase.counted = 0
failure (Phase.fetching left running raised) = 0
failure Phase.finished = 0

-- How many collections have failed.
abbrev failures : List Phase → ℕ
failures jobs = sum failure jobs

-- A failure stays.
Step-failures :
    {workers : ℕ} {dry_run : Bool} {s t : System}
    → Step workers dry_run s t
    → failures s.jobs ≤ failures t.jobs
Step-failures {s = s} (submit_tag e live) =
    omega (arith, sum-append failure s.jobs (Phase.queued ∷ []))
Step-failures (begin front back e room) =
    omega (arith, sum-moved failure front back Phase.queued Phase.taken e)
Step-failures (count_job front back e) =
    omega (arith, sum-moved failure front back Phase.taken Phase.counted e)
Step-failures (list_fails front back e) =
    omega (arith, sum-moved failure front back Phase.counted (Phase.failed 0) e)
Step-failures (start_fetching front back regions e open_now) =
    omega (arith, sum-moved failure front back Phase.counted (Phase.fetching regions 0 false) e)
Step-failures (pool_refuses front back e closed) =
    omega (arith, sum-moved failure front back Phase.counted (Phase.failed 0) e)
Step-failures (fetch_begins front back left running raised e room) =
    let before = Phase.fetching (suc left) running raised in
    let after = Phase.fetching left (suc running) raised in
    omega (arith, sum-moved failure front back before after e)
Step-failures (fetch_ends front back left running raised raises e) =
    let before = Phase.fetching left (suc running) raised in
    let after = Phase.fetching left running (raised || raises) in
    omega (arith, sum-moved failure front back before after e)
Step-failures (give_up front back left running e) =
    let before = Phase.fetching left running true in
    omega (arith, sum-moved failure front back before (Phase.failed running) e)
Step-failures (straggler_ends front back running e) =
    omega
      (arith, sum-moved failure front back (Phase.failed (suc running)) (Phase.failed running) e)
Step-failures (finish_collecting front back e) =
    omega (arith, sum-moved failure front back (Phase.fetching 0 0 false) Phase.finished e)
Step-failures (join e) = omega arith
Step-failures (wait e busy) = omega arith
Step-failures (shutdown e idle) = omega arith

-- What holds from the first failure on, as long as the pool is open.
record Stuck (workers : ℕ) (dry_run : Bool) (s : System) : Type 0 where
  reached : Reach workers dry_run s
  failing : 0 < failures s.jobs
  before : s.main ≢ Main.shut

Step-Stuck :
    {workers : ℕ} {dry_run : Bool} {s t : System}
    → Step workers dry_run s t
    → Stuck workers dry_run s
    → Stuck workers dry_run t
Step-Stuck {s = s} {t} step stuck = record {
  reached = later stuck.reached step;
  failing = omega (arith, Step-failures step, stuck.failing);
  before = λ gone.
      none_idle t.jobs (omega (arith, Step-failures step, stuck.failing))
        (shutdown_lem stuck.reached step stuck.before gone);
}
  where
    none_idle : (jobs : List Phase) → 0 < failures jobs → All IsIdle jobs → ⊥
    none_idle [] h idle = omega arith
    none_idle (p ∷ jobs) h (inl e, idle) =
        none_idle jobs (omega (arith, subst (λ q. 0 < failure q + failures jobs) e h)) idle
    none_idle (p ∷ jobs) h (inr (inl e), idle) =
        none_idle jobs (omega (arith, subst (λ q. 0 < failure q + failures jobs) e h)) idle
    none_idle (p ∷ jobs) h (inr (inr e), idle) =
        none_idle jobs (omega (arith, subst (λ q. 0 < failure q + failures jobs) e h)) idle

-- Once a collection has failed while the main thread is not past the loop of `join`, it never gets
-- past it, whatever the threads do.
pub join-stuck :
    {workers : ℕ} {dry_run : Bool} {s t : System}
    → Reach workers dry_run s
    → 0 < failures s.jobs
    → s.main ≢ Main.shut
    → Steps workers dry_run s t
    → t.main ≢ Main.shut
join-stuck {workers} {dry_run} {s} r failing before steps = (go steps).before
  where
    go : {u : System} → Steps workers dry_run s u → Stuck workers dry_run u
    go stay = record { reached = r; failing = failing; before = before }
    go (onward earlier step) = Step-Stuck step (go earlier)
