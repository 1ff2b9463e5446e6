-- ===== src/Experiment/Collector/Tests.antt =====
-- A collection that fails while the main thread waits, one that ends well, and two that wait for each
-- other's workers.
use sunstorm_xactserver.Base.{ℕ, ◌≢◌, refl, true, false, [], ◌∷◌, arith, All, inl}
use sunstorm_xactserver.Experiment.Collector.{
  Phase, Main, System, submit_tag, begin, count_job, start_fetching, fetch_begins, fetch_ends,
  give_up, finish_collecting, join, wait, shutdown, Reach, here, later, stay, onward,
}
use sunstorm_xactserver.Experiment.Collector.Deadlock.{
  Deadlocked, deadlock_lem, waiting_jobs, Reach-waiting_system, waiting_system-Deadlocked,
}
use sunstorm_xactserver.Experiment.Collector.Invariant.{Inv, Reach-Inv}
use sunstorm_xactserver.Experiment.Collector.Join.{IsIdle, shutdown_lem, join-stuck}

-- One job and the main thread.
abbrev one : Phase → ℕ → Main → System
one phase count main = record { jobs = phase ∷ []; in_progress_count = count; main = main }

-- Two workers, and a region whose files are being fetched.
fetching : Reach 2 false (one (Phase.fetching 0 1 false) 1 Main.submitting)
fetching =
    later
      (later
        (later (later (later here (submit_tag refl refl)) (begin [] [] refl (omega arith)))
          (count_job [] [] refl))
        (start_fetching [] [] 1 refl (inl refl)))
      (fetch_begins [] [] 0 0 false refl (omega arith))

waiting : Reach 2 false (one (Phase.fetching 0 1 false) 1 Main.waiting)
waiting = later (later fetching (join refl)) (wait refl (omega arith))

Reach-Inv_example : Inv 2 (one (Phase.fetching 0 1 false) 1 Main.waiting)
Reach-Inv_example = Reach-Inv waiting

ended : Reach 2 false (one Phase.finished 0 Main.testing)
ended = later (later waiting (fetch_ends [] [] 0 0 false false refl)) (finish_collecting [] [] refl)

shutdown_lem_example : All IsIdle (Phase.finished ∷ [])
shutdown_lem_example = shutdown_lem ended (shutdown refl refl) (λ e. cc) refl

failed : Reach 2 false (one (Phase.failed 0) 1 Main.testing)
failed =
    later (later (later fetching (join refl)) (fetch_ends [] [] 0 0 false true refl))
      (give_up [] [] 0 0 refl)

join-stuck_example : (one (Phase.failed 0) 1 Main.waiting).main ≢ Main.shut
join-stuck_example =
    join-stuck {t = one (Phase.failed 0) 1 Main.waiting} failed (omega arith) (λ e. cc)
      (onward stay (wait refl (omega arith)))

-- A collection that a worker has taken does not hold `join` up before it is counted; by then the
-- pool takes no more tasks.
too_late : Reach 2 false (one Phase.counted 1 Main.shut)
too_late =
    later
      (later
        (later (later (later here (submit_tag refl refl)) (begin [] [] refl (omega arith)))
          (join refl))
        (shutdown refl refl))
      (count_job [] [] refl)

abbrev at_join : System
at_join = record { jobs = waiting_jobs 2; in_progress_count = 2; main = Main.testing }

deadlock_lem_example : Deadlocked 2 at_join × (at_join.main ≢ Main.shut)
deadlock_lem_example =
    deadlock_lem (omega arith) {t = at_join} (Reach-waiting_system 2 2 (omega arith))
      (waiting_system-Deadlocked 2) (λ e. cc) (onward stay (join refl))
