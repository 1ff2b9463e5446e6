-- ===== src/Experiment/Collector/Deadlock.antt =====
-- How the collections of tools/experiment.py come to wait for each other: their inner tasks are in the
-- queue of the pool whose workers they take up themselves.
use sunstorm_xactserver.Base.{
  ℕ, zero, suc, ◌≤◌, ◌<◌, ◌≡◌, ◌≢◌, refl, ◌∙◌, Bool, true, false, List, [], ◌∷◌, ◌++◌, arith, inl,
}
use sunstorm_xactserver.Experiment.Collector.{
  Phase, Main, System, slots, sum, Step, submit_tag, begin, count_job, list_fails, start_fetching,
  pool_refuses, fetch_begins, fetch_ends, give_up, straggler_ends, finish_collecting, join, wait,
  shutdown, Reach, here, later, Steps, stay, onward,
}
use sunstorm_xactserver.Experiment.Collector.Invariant.{weight, Reach-Inv}
use sunstorm_xactserver.Experiment.Collector.Sums.{sum-append, sum-moved, sum_mono}

abbrev waits_with : Bool → ℕ → ℕ → ℕ
waits_with true left running = 0
waits_with false zero running = 0
waits_with false (suc left) zero = 1
waits_with false (suc left) (suc running) = 0

-- A collection that waits for inner tasks of which none runs.
abbrev waits : Phase → ℕ
waits Phase.queued = 0
waits Phase.taken = 0
waits Phase.counted = 0
waits Phase.finished = 0
waits (Phase.fetching left running raised) = waits_with raised left running
waits (Phase.failed running) = 0

waits_with-le : (raised : Bool) (left running : ℕ) → waits_with raised left running ≤ 1
waits_with-le true left running = omega arith
waits_with-le false zero running = omega arith
waits_with-le false (suc left) zero = omega arith
waits_with-le false (suc left) (suc running) = omega arith

waits_with-suc : (raised : Bool) (left running : ℕ) → waits_with raised left (suc running) ≡ 0
waits_with-suc true left running = refl
waits_with-suc false zero running = refl
waits_with-suc false (suc left) running = refl

waits-le-slots : (p : Phase) → waits p ≤ slots p
waits-le-slots Phase.queued = omega arith
waits-le-slots Phase.taken = omega arith
waits-le-slots Phase.counted = omega arith
waits-le-slots Phase.finished = omega arith
waits-le-slots (Phase.fetching left running raised) =
    omega (arith, waits_with-le raised left running)
waits-le-slots (Phase.failed running) = omega arith

waits-le-weight : (p : Phase) → waits p ≤ weight p
waits-le-weight Phase.queued = omega arith
waits-le-weight Phase.taken = omega arith
waits-le-weight Phase.counted = omega arith
waits-le-weight Phase.finished = omega arith
waits-le-weight (Phase.fetching left running raised) = waits_with-le raised left running
waits-le-weight (Phase.failed running) = omega arith

-- Every worker is taken up by a collection that waits for inner tasks of which none runs.
pub record Deadlocked (workers : ℕ) (s : System) : Type 0 where
  pub waiting : sum waits s.jobs ≡ workers
  full : sum slots s.jobs ≡ workers

-- Then there is no collection of any other kind that takes up a worker.
no_other :
    {workers : ℕ} {s : System} (front back : List Phase) (p : Phase)
    → s.jobs ≡ front ++ p ∷ back
    → waits p < slots p
    → Deadlocked workers s
    → ⊥
no_other front back p e less dead = omega (
  arith,
  dead.waiting,
  dead.full,
  sum-moved waits front back p Phase.queued e,
  sum-moved slots front back p Phase.queued e,
  sum_mono waits slots waits-le-slots (front ++ Phase.queued ∷ back),
)

record Stuck (workers : ℕ) (dry_run : Bool) (s : System) : Type 0 where
  reached : Reach workers dry_run s
  dead : Deadlocked workers s
  before : s.main ≢ Main.shut

module _ {workers : ℕ} {dry_run : Bool} (some_worker : 0 < workers) where
  Step-Stuck :
      {s t : System} → Step workers dry_run s t → Stuck workers dry_run s → Stuck workers dry_run t
  Step-Stuck {s = s} (submit_tag e live) stuck = record {
    reached = later stuck.reached (submit_tag e live);
    dead = record {
      waiting = sum-append waits s.jobs (Phase.queued ∷ []) ∙ omega (arith, stuck.dead.waiting);
      full = sum-append slots s.jobs (Phase.queued ∷ []) ∙ omega (arith, stuck.dead.full);
    };
    before = stuck.before;
  }
  Step-Stuck (begin front back e room) stuck = absurd (omega (arith, room, stuck.dead.full))
  Step-Stuck (count_job front back e) stuck =
      absurd (no_other front back Phase.taken e (omega arith) stuck.dead)
  Step-Stuck (list_fails front back e) stuck =
      absurd (no_other front back Phase.counted e (omega arith) stuck.dead)
  Step-Stuck (start_fetching front back regions e open_now) stuck =
      absurd (no_other front back Phase.counted e (omega arith) stuck.dead)
  Step-Stuck (pool_refuses front back e closed) stuck =
      absurd (no_other front back Phase.counted e (omega arith) stuck.dead)
  Step-Stuck (fetch_begins front back left running raised e room) stuck =
      absurd (omega (arith, room, stuck.dead.full))
  Step-Stuck (fetch_ends front back left running raised raises e) stuck = absurd (
      no_other front back (Phase.fetching left (suc running) raised) e
        (omega (arith, waits_with-suc raised left running)) stuck.dead)
  Step-Stuck (give_up front back left running e) stuck =
      absurd (no_other front back (Phase.fetching left running true) e (omega arith) stuck.dead)
  Step-Stuck (straggler_ends front back running e) stuck =
      absurd (no_other front back (Phase.failed (suc running)) e (omega arith) stuck.dead)
  Step-Stuck (finish_collecting front back e) stuck =
      absurd (no_other front back (Phase.fetching 0 0 false) e (omega arith) stuck.dead)
  Step-Stuck (join e) stuck = record {
    reached = later stuck.reached (join e);
    dead = record { waiting = stuck.dead.waiting; full = stuck.dead.full };
    before = λ h. cc;
  }
  Step-Stuck (wait e busy) stuck = record {
    reached = later stuck.reached (wait e busy);
    dead = record { waiting = stuck.dead.waiting; full = stuck.dead.full };
    before = λ h. cc;
  }
  Step-Stuck {s = s} (shutdown e idle) stuck = absurd (
      omega (
        arith,
        some_worker,
        idle,
        (Reach-Inv stuck.reached).counts,
        stuck.dead.waiting,
        sum_mono waits weight waits-le-weight s.jobs,
      ))

  -- Once every worker is taken up by a collection that waits for inner tasks of which none runs, and
  -- the main thread is not past the loop of `join`, this stays so, whatever the threads do: no file is
  -- fetched any more, and `join` never returns.
  pub deadlock_lem :
      {s t : System}
      → Reach workers dry_run s
      → Deadlocked workers s
      → s.main ≢ Main.shut
      → Steps workers dry_run s t
      → Deadlocked workers t × (t.main ≢ Main.shut)
  deadlock_lem {s} r dead before steps = let end = go steps in (end.dead, end.before)
    where
      go : {u : System} → Steps workers dry_run s u → Stuck workers dry_run u
      go stay = record { reached = r; dead = dead; before = before }
      go (onward earlier step) = Step-Stuck step (go earlier)

abbrev pub waiting_jobs : ℕ → List Phase
waiting_jobs zero = []
waiting_jobs (suc n) = waiting_jobs n ++ Phase.fetching 1 0 false ∷ []

abbrev waiting_system : ℕ → System
waiting_system n = record { jobs = waiting_jobs n; in_progress_count = n; main = Main.submitting }

waiting_jobs-slots : (n : ℕ) → sum slots (waiting_jobs n) ≡ n
waiting_jobs-slots zero = refl
waiting_jobs-slots (suc n) =
    omega (
      arith,
      sum-append slots (waiting_jobs n) (Phase.fetching 1 0 false ∷ []),
      waiting_jobs-slots n,
    )

waiting_jobs-waits : (n : ℕ) → sum waits (waiting_jobs n) ≡ n
waiting_jobs-waits zero = refl
waiting_jobs-waits (suc n) =
    omega (
      arith,
      sum-append waits (waiting_jobs n) (Phase.fetching 1 0 false ∷ []),
      waiting_jobs-waits n,
    )

-- However many workers the pool has, as many collections may all come to wait.
pub Reach-waiting_system : (workers n : ℕ) → n ≤ workers → Reach workers false (waiting_system n)
Reach-waiting_system workers zero h = here
Reach-waiting_system workers (suc n) h =
    later
      (later
        (later (later (Reach-waiting_system workers n (omega arith)) (submit_tag refl refl)) (
          begin (waiting_jobs n) [] refl (
            omega (
              arith,
              sum-append slots (waiting_jobs n) (Phase.queued ∷ []),
              waiting_jobs-slots n,
            ))))
        (count_job (waiting_jobs n) [] refl))
      (start_fetching (waiting_jobs n) [] 1 refl (inl refl))

pub waiting_system-Deadlocked : (workers : ℕ) → Deadlocked workers (waiting_system workers)
waiting_system-Deadlocked workers = record {
  waiting = waiting_jobs-waits workers;
  full = waiting_jobs-slots workers;
}
