-- ===== src/Experiment/Collector/Invariant.antt =====
-- What holds of the collector in every interleaving (tools/experiment.py).
use sunstorm_xactserver.Base.{
  ℕ, suc, ◌<◌, ◌≤◌, ◌≡◌, ◌≢◌, refl, ◌∙◌, Bool, true, false, List, [], ◌∷◌, ◌++◌, ◌||◌, arith,
}
use sunstorm_xactserver.Experiment.Collector.{
  Phase, Main, System, slots, sum, wake, Step, submit_tag, begin, count_job, list_fails,
  start_fetching, pool_refuses, fetch_begins, fetch_ends, give_up, straggler_ends,
  finish_collecting, join, wait, shutdown, Reach, here, later,
}
use sunstorm_xactserver.Experiment.Collector.Sums.{sum-append, sum-moved}

-- A job that has been counted, and has not been taken off again.
abbrev pub weight : Phase → ℕ
weight Phase.queued = 0
weight Phase.taken = 0
weight Phase.counted = 1
weight (Phase.fetching left running raised) = 1
weight Phase.finished = 0
weight (Phase.failed running) = 1

abbrev pub total : List Phase → ℕ
total jobs = sum weight jobs

pub record Inv (workers : ℕ) (s : System) : Type 0 where
  pub counts : s.in_progress_count ≡ total s.jobs
  bounded : sum slots s.jobs ≤ workers
  awake : s.main ≡ Main.waiting → 0 < s.in_progress_count

wake-ne-waiting : (m : Main) → wake m ≢ Main.waiting
wake-ne-waiting Main.submitting h = cc
wake-ne-waiting Main.testing h = cc
wake-ne-waiting Main.waiting h = cc
wake-ne-waiting Main.shut h = cc

module _ {workers : ℕ} where
  -- A collection goes on without a change of the count.
  moved-Inv :
      {s : System} (front back : List Phase) (p q : Phase)
      → s.jobs ≡ front ++ p ∷ back
      → weight q ≡ weight p
      → sum slots (front ++ q ∷ back) ≤ workers
      → Inv workers s
      → Inv workers (record s { jobs = front ++ q ∷ back })
  moved-Inv front back p q e same room inv = record {
    counts = omega (arith, inv.counts, sum-moved weight front back p q e);
    bounded = room;
    awake = inv.awake;
  }

  -- The same where it takes up no more workers.
  eased-Inv :
      {s : System} (front back : List Phase) (p q : Phase)
      → s.jobs ≡ front ++ p ∷ back
      → weight q ≡ weight p
      → slots q ≤ slots p
      → Inv workers s
      → Inv workers (record s { jobs = front ++ q ∷ back })
  eased-Inv front back p q e same less inv =
      moved-Inv front back p q e same (omega (arith, sum-moved slots front back p q e, inv.bounded))
        inv

  Step-Inv :
      {dry_run : Bool} {s t : System} → Step workers dry_run s t → Inv workers s → Inv workers t
  Step-Inv {s = s} (submit_tag e live) inv = record {
    counts = inv.counts ∙ omega (arith, sum-append weight s.jobs (Phase.queued ∷ []));
    bounded = omega (arith, inv.bounded, sum-append slots s.jobs (Phase.queued ∷ []));
    awake = inv.awake;
  }
  Step-Inv (begin front back e room) inv =
      moved-Inv front back Phase.queued Phase.taken e refl
        (omega (arith, room, sum-moved slots front back Phase.queued Phase.taken e)) inv
  Step-Inv (count_job front back e) inv = record {
    counts = omega (arith, inv.counts, sum-moved weight front back Phase.taken Phase.counted e);
    bounded = omega (arith, inv.bounded, sum-moved slots front back Phase.taken Phase.counted e);
    awake = λ _. omega arith;
  }
  Step-Inv (list_fails front back e) inv =
      eased-Inv front back Phase.counted (Phase.failed 0) e refl (omega arith) inv
  Step-Inv (start_fetching front back regions e open_now) inv =
      eased-Inv front back Phase.counted (Phase.fetching regions 0 false) e refl (omega arith) inv
  Step-Inv (pool_refuses front back e closed) inv =
      eased-Inv front back Phase.counted (Phase.failed 0) e refl (omega arith) inv
  Step-Inv (fetch_begins front back left running raised e room) inv =
      let before = Phase.fetching (suc left) running raised in
      let after = Phase.fetching left (suc running) raised in
      moved-Inv front back before after e refl
        (omega (arith, room, sum-moved slots front back before after e)) inv
  Step-Inv (fetch_ends front back left running raised raises e) inv =
      eased-Inv front back (Phase.fetching left (suc running) raised)
        (Phase.fetching left running (raised || raises)) e refl (omega arith) inv
  Step-Inv (give_up front back left running e) inv =
      eased-Inv front back (Phase.fetching left running true) (Phase.failed running) e refl
        (omega arith) inv
  Step-Inv (straggler_ends front back running e) inv =
      eased-Inv front back (Phase.failed (suc running)) (Phase.failed running) e refl (omega arith)
        inv
  Step-Inv {s = s} (finish_collecting front back e) inv =
      let before = Phase.fetching 0 0 false in
      record {
        counts = omega (arith, inv.counts, sum-moved weight front back before Phase.finished e);
        bounded = omega (arith, inv.bounded, sum-moved slots front back before Phase.finished e);
        awake = λ slept. absurd (wake-ne-waiting s.main slept);
      }
  Step-Inv (join e) inv = record { counts = inv.counts; bounded = inv.bounded; awake = λ h. cc }
  Step-Inv (wait e busy) inv = record {
    counts = inv.counts;
    bounded = inv.bounded;
    awake = λ _. busy;
  }
  Step-Inv (shutdown e idle) inv = record {
    counts = inv.counts;
    bounded = inv.bounded;
    awake = λ h. cc;
  }

  -- In every state that is reached, in whatever order the threads run, `in_progress_count` is the
  -- number of collections that have been counted and have not ended well, the tasks that run are no more
  -- than the workers of the pool, and the main thread sleeps only while the count is not 0: no
  -- wake-up is lost.
  pub Reach-Inv : {dry_run : Bool} {s : System} → Reach workers dry_run s → Inv workers s
  Reach-Inv here = record { counts = refl; bounded = omega arith; awake = λ h. cc }
  Reach-Inv (later r step) = Step-Inv step (Reach-Inv r)
