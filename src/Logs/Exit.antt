-- ===== src/Logs/Exit.antt =====
-- When the threads of `print_logs` set the event, and what the callback has recorded then
-- (tools/utils.py).
use mathlib.Core.List.{Perm, perm_middle, append-nil, append_assoc}
use mathlib.Core.List.Perm
use sunstorm_xactserver.Base.{
  ℕ, ◌+◌, ◌≤◌, ◌<◌, ◌≡◌, ◌↔◌, refl, sym, ◌∙◌, ap, subst, String, true, false, Option, none, some,
  List, [], ◌∷◌, ◌++◌, arith, eqb, length, All, if◌then◌else◌,
}
use sunstorm_xactserver.Logs.{
  NamedLogs, Thread, running, died, ended, PrintSystem, to_list, threads_of, PrintStep, line,
  read_raises, print_raises, last, PrintReach, here, later,
}

abbrev weight : Thread → ℕ
weight (running _ _) = 1
weight (died _ _) = 1
weight ended = 0

-- How many threads have not come to the end of their last section.
abbrev alive : List Thread → ℕ
alive [] = 0
alive (t ∷ ts) = weight t + alive ts

alive-append : (ts us : List Thread) → alive (ts ++ us) ≡ alive ts + alive us
alive-append [] us = omega arith
alive-append (t ∷ ts) us = omega (arith, alive-append ts us)

alive-threads_of : (named_logs : List NamedLogs) → alive (threads_of named_logs) ≡ length named_logs
alive-threads_of [] = refl
alive-threads_of (logs ∷ rest) = omega (arith, alive-threads_of rest)

alive-moved :
    (front back : List Thread) (t u : Thread) {threads : List Thread}
    → threads ≡ front ++ t ∷ back
    → alive (front ++ u ∷ back) + weight t ≡ alive threads + weight u
alive-moved front back t u e =
    rw e (omega (arith, alive-append front (t ∷ back), alive-append front (u ∷ back)))

module _ {H : Type 0} (callback : String → String → Option H) (logs_per_sec : ℕ) where
  -- What the callback records of some lines, and of all lines that threads have before them.
  abbrev recorded : String → List String → List H
  recorded name [] = []
  recorded name (text ∷ rest) = to_list (callback name text) ++ recorded name rest

  abbrev ahead : Thread → List H
  ahead (running name rest) = recorded name rest
  ahead (died name rest) = recorded name rest
  ahead ended = []

  abbrev pub all_recorded : List Thread → List H
  all_recorded [] = []
  all_recorded (t ∷ ts) = ahead t ++ all_recorded ts

  all_recorded-append :
      (ts us : List Thread) → all_recorded (ts ++ us) ≡ all_recorded ts ++ all_recorded us
  all_recorded-append [] us = refl
  all_recorded-append (t ∷ ts) us =
      ap (λ hs. ahead t ++ hs) (all_recorded-append ts us)
      ∙ sym (append_assoc (ahead t) (all_recorded ts) (all_recorded us))

  hit_moves :
      (hits : List H) (hit : Option H) (before after : List H)
      → Perm
          ((hits ++ to_list hit) ++ (before ++ after))
          (hits ++ (before ++ (to_list hit ++ after)))
  hit_moves hits none before after = rw (append-nil hits) (Perm.refl (hits ++ (before ++ after)))
  hit_moves hits (some h) before after =
      rw (append_assoc hits (h ∷ []) (before ++ after))
        (Perm.append_left hits (Perm.symm (perm_middle before after)))

  -- The event is set just when there are threads and all of them have ended; what has been recorded
  -- and what is still ahead is together what the logs have.
  record Inv (named_logs : List NamedLogs) (s : PrintSystem H) : Type 0 where
    counts : s.alive_threads ≡ alive s.threads
    exits : s.exit_event ≡ (
        if eqb s.alive_threads 0
        then (if eqb (length named_logs) 0 then false else true)
        else false)
    below : s.alive_threads ≤ length named_logs
    kept : Perm (s.hits ++ all_recorded s.threads) (all_recorded (threads_of named_logs))

  kept_on :
      {named_logs : List NamedLogs} {s : PrintSystem H} (front back : List Thread) (t u : Thread)
      → s.threads ≡ front ++ t ∷ back
      → ahead u ≡ ahead t
      → Inv named_logs s
      → Perm (s.hits ++ all_recorded (front ++ u ∷ back)) (all_recorded (threads_of named_logs))
  kept_on {named_logs} {s} front back t u e same inv =
      subst (λ hs. Perm (s.hits ++ hs) (all_recorded (threads_of named_logs)))
        (ap all_recorded e
          ∙ all_recorded-append front (t ∷ back)
          ∙ ap (λ hs. all_recorded front ++ (hs ++ all_recorded back)) (sym same)
          ∙ sym (all_recorded-append front (u ∷ back)))
        inv.kept

  kept_line :
      {named_logs : List NamedLogs} {s : PrintSystem H} (front back : List Thread)
      (name text : String) (rest : List String) (u : Thread)
      → s.threads ≡ front ++ running name (text ∷ rest) ∷ back
      → ahead u ≡ recorded name rest
      → Inv named_logs s
      → Perm
          ((s.hits ++ to_list (callback name text)) ++ all_recorded (front ++ u ∷ back))
          (all_recorded (threads_of named_logs))
  kept_line {named_logs} {s} front back name text rest u e same inv =
      rw (all_recorded-append front (u ∷ back), same)
        (Perm.trans
          (hit_moves s.hits (callback name text) (all_recorded front)
            (recorded name rest ++ all_recorded back))
          (subst (λ hs. Perm (s.hits ++ hs) (all_recorded (threads_of named_logs)))
            (ap all_recorded e
              ∙ all_recorded-append front (running name (text ∷ rest) ∷ back)
              ∙ ap (λ hs. all_recorded front ++ hs)
                  (append_assoc (to_list (callback name text)) (recorded name rest)
                    (all_recorded back)))
            inv.kept))

  PrintStep-Inv :
      {named_logs : List NamedLogs} {s t : PrintSystem H}
      → PrintStep callback logs_per_sec s t
      → Inv named_logs s
      → Inv named_logs t
  PrintStep-Inv {named_logs} {s} (line front back name text rest passes e limit) inv = record {
    counts = omega (
      arith,
      inv.counts,
      alive-moved front back (running name (text ∷ rest)) (running name rest) e,
    );
    exits = inv.exits;
    below = inv.below;
    kept = kept_line front back name text rest (running name rest) e refl inv;
  }
  PrintStep-Inv {named_logs} {s} (read_raises front back name lines e) inv = record {
    counts =
        omega (arith, inv.counts, alive-moved front back (running name lines) (died name lines) e);
    exits = inv.exits;
    below = inv.below;
    kept = kept_on front back (running name lines) (died name lines) e refl inv;
  }
  PrintStep-Inv {named_logs} {s} (print_raises front back name text rest e) inv = record {
    counts =
        omega (
          arith,
          inv.counts,
          alive-moved front back (running name (text ∷ rest)) (died name rest) e,
        );
    exits = inv.exits;
    below = inv.below;
    kept = kept_line front back name text rest (died name rest) e refl inv;
  }
  PrintStep-Inv {named_logs} {s} (last front back name e) inv = record {
    counts = omega (arith, inv.counts, alive-moved front back (running name []) ended e);
    exits =
        ground (
          arith,
          inv.exits,
          inv.counts,
          inv.below,
          alive-moved front back (running name []) ended e,
        );
    below = omega (arith, inv.below);
    kept = kept_on front back (running name []) ended e refl inv;
  }

  PrintReach-Inv :
      {named_logs : List NamedLogs} {s : PrintSystem H}
      → PrintReach callback logs_per_sec named_logs s
      → Inv named_logs s
  PrintReach-Inv {named_logs} here = record {
    counts = sym (alive-threads_of named_logs);
    exits = ground arith;
    below = omega arith;
    kept = Perm.refl (all_recorded (threads_of named_logs));
  }
  PrintReach-Inv (later r step) = PrintStep-Inv step (PrintReach-Inv r)

  all_ended : (threads : List Thread) → alive threads ≡ 0 → All (λ t. t ≡ ended) threads
  all_ended [] e = tt
  all_ended (running name rest ∷ threads) e = absurd (omega arith)
  all_ended (died name rest ∷ threads) e = absurd (omega arith)
  all_ended (ended ∷ threads) e = (refl, all_ended threads (omega arith))

  none_alive : (threads : List Thread) → All (λ t. t ≡ ended) threads → alive threads ≡ 0
  none_alive [] h = refl
  none_alive (t ∷ threads) (e, h) = rw e (omega (arith, none_alive threads h))

  nothing_ahead : (threads : List Thread) → All (λ t. t ≡ ended) threads → all_recorded threads ≡ []
  nothing_ahead [] h = refl
  nothing_ahead (t ∷ threads) (e, h) = rw e (nothing_ahead threads h)

-- In every interleaving, whichever threads an exception ends, the event is set just when there is a
-- log and every thread has come to the end of its last section: after an exception in one of them it
-- is never set. Once it is set, what the callback has recorded is what it records of all lines of
-- all logs, each line once, in some order.
pub exit_event_lem :
    {H : Type 0} (callback : String → String → Option H) (logs_per_sec : ℕ)
    (named_logs : List NamedLogs) (s : PrintSystem H)
    → PrintReach callback logs_per_sec named_logs s
    → ((s.exit_event ≡ true) ↔ ((0 < length named_logs) × All (λ t. t ≡ ended) s.threads))
      × (s.exit_event ≡ true
          → Perm s.hits (all_recorded callback logs_per_sec (threads_of named_logs)))
exit_event_lem callback logs_per_sec named_logs s r =
    let inv = PrintReach-Inv callback logs_per_sec r in
    let at_end : s.exit_event ≡ true → All (λ t. t ≡ ended) s.threads =
      λ h. all_ended callback logs_per_sec s.threads (ground (arith, inv.exits, inv.counts, h)) in
    (
      (
        λ h. (ground (arith, inv.exits, h), at_end h),
        λ h.
            let quiet = none_alive callback logs_per_sec s.threads h.1 in
            ground (arith, inv.exits, inv.counts, h.0, quiet),
      ),
      λ h.
          subst (λ hs. Perm hs (all_recorded callback logs_per_sec (threads_of named_logs)))
            (ap (λ hs. s.hits ++ hs) (nothing_ahead callback logs_per_sec s.threads (at_end h))
              ∙ append-nil s.hits)
            inv.kept,
    )
