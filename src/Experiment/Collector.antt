-- ===== src/Experiment/Collector.antt =====
-- `ResultCollector` of tools/experiment.py: the collections of the thread pool, beside the main
-- thread that submits and joins. A step is one section under the lock, one call of the pool, or one
-- call of MinIO; the steps of all threads are interleaved in any order.
pub mod Invariant
pub mod Sums
pub mod Join
pub mod Deadlock
mod Tests
use sunstorm_xactserver.Base.{
  ℕ, suc, ◌+◌, ◌-◌, ◌<◌, ◌≡◌, ◌⊎◌, Bool, true, false, ◌||◌, List, [], ◌∷◌, ◌++◌,
}

-- How far `_collect` is for a tag: in the queue of the pool, taken by a worker, counted, waiting
-- for its inner tasks, at its end, or past the handler of its exceptions. `fetching` has the inner
-- tasks that are in the queue and those that run, and whether one has raised; `failed` those that
-- still run.
pub data Phase : Type 0 where
  queued taken counted finished : Phase
  fetching : ℕ → ℕ → Bool → Phase
  failed : ℕ → Phase

-- The workers of the pool that a collection takes up.
abbrev pub slots : Phase → ℕ
slots Phase.queued = 0
slots Phase.taken = 1
slots Phase.counted = 1
slots Phase.finished = 0
slots (Phase.fetching left running raised) = suc running
slots (Phase.failed running) = running

abbrev pub sum : (Phase → ℕ) → List Phase → ℕ
sum f [] = 0
sum f (p ∷ ps) = f p + sum f ps

-- The main thread: before `join`, at the test of the loop of `join`, in `wait`, and in `shutdown`.
pub data Main : Type 0 where
  submitting testing waiting shut : Main

pub record System : Type 0 where
  pub jobs : List Phase
  pub in_progress_count : ℕ
  pub main : Main

-- Whether the pool takes new tasks.
abbrev is_open : Main → Bool
is_open Main.shut = false
is_open Main.submitting = true
is_open Main.testing = true
is_open Main.waiting = true

-- `notify_all`
abbrev pub wake : Main → Main
wake Main.waiting = Main.testing
wake Main.submitting = Main.submitting
wake Main.testing = Main.testing
wake Main.shut = Main.shut

abbrev pub init : System
init = record { jobs = []; in_progress_count = 0; main = Main.submitting }

-- A step of a collection stands for one job, with those before and behind it. Of the tasks in the
-- queue any one may be taken by a worker that is free.
pub data Step (workers : ℕ) (dry_run : Bool) (s : System) : System → Type 0 where
  submit_tag :
      s.main ≡ Main.submitting
      → dry_run ≡ false
      → Step workers dry_run s (record s { jobs = s.jobs ++ Phase.queued ∷ [] })
  begin :
      (front back : List Phase)
      → s.jobs ≡ front ++ Phase.queued ∷ back
      → sum slots s.jobs < workers
      → Step workers dry_run s (record s { jobs = front ++ Phase.taken ∷ back })
  count_job :
      (front back : List Phase)
      → s.jobs ≡ front ++ Phase.taken ∷ back
      → Step workers dry_run s (record s {
        jobs = front ++ Phase.counted ∷ back;
        in_progress_count = suc s.in_progress_count;
      })
  list_fails :
      (front back : List Phase)
      → s.jobs ≡ front ++ Phase.counted ∷ back
      → Step workers dry_run s (record s { jobs = front ++ Phase.failed 0 ∷ back })
  start_fetching :
      (front back : List Phase) (regions : ℕ)
      → s.jobs ≡ front ++ Phase.counted ∷ back
      → (is_open s.main ≡ true) ⊎ (regions ≡ 0)
      → Step workers dry_run s (record s { jobs = front ++ Phase.fetching regions 0 false ∷ back })
  pool_refuses :
      (front back : List Phase)
      → s.jobs ≡ front ++ Phase.counted ∷ back
      → is_open s.main ≡ false
      → Step workers dry_run s (record s { jobs = front ++ Phase.failed 0 ∷ back })
  fetch_begins :
      (front back : List Phase) (left running : ℕ) (raised : Bool)
      → s.jobs ≡ front ++ Phase.fetching (suc left) running raised ∷ back
      → sum slots s.jobs < workers
      → Step workers dry_run s
          (record s { jobs = front ++ Phase.fetching left (suc running) raised ∷ back })
  fetch_ends :
      (front back : List Phase) (left running : ℕ) (raised raises : Bool)
      → s.jobs ≡ front ++ Phase.fetching left (suc running) raised ∷ back
      → Step workers dry_run s
          (record s { jobs = front ++ Phase.fetching left running (raised || raises) ∷ back })
  give_up :
      (front back : List Phase) (left running : ℕ)
      → s.jobs ≡ front ++ Phase.fetching left running true ∷ back
      → Step workers dry_run s (record s { jobs = front ++ Phase.failed running ∷ back })
  straggler_ends :
      (front back : List Phase) (running : ℕ)
      → s.jobs ≡ front ++ Phase.failed (suc running) ∷ back
      → Step workers dry_run s (record s { jobs = front ++ Phase.failed running ∷ back })
  finish_collecting :
      (front back : List Phase)
      → s.jobs ≡ front ++ Phase.fetching 0 0 false ∷ back
      → Step workers dry_run s (record {
        jobs = front ++ Phase.finished ∷ back;
        in_progress_count = s.in_progress_count - 1;
        main = wake s.main;
      })
  join : s.main ≡ Main.submitting → Step workers dry_run s (record s { main = Main.testing })
  wait :
      s.main ≡ Main.testing
      → 0 < s.in_progress_count
      → Step workers dry_run s (record s { main = Main.waiting })
  shutdown :
      s.main ≡ Main.testing
      → s.in_progress_count ≡ 0
      → Step workers dry_run s (record s { main = Main.shut })

pub data Reach (workers : ℕ) (dry_run : Bool) : System → Type 0 where
  here : Reach workers dry_run init
  later :
      {s t : System} → Reach workers dry_run s → Step workers dry_run s t → Reach workers dry_run t

-- Any steps from a state on.
pub data Steps (workers : ℕ) (dry_run : Bool) (s : System) : System → Type 0 where
  stay : Steps workers dry_run s s
  onward :
      {t u : System}
      → Steps workers dry_run s t
      → Step workers dry_run t u
      → Steps workers dry_run s u
