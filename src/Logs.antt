-- ===== src/Logs.antt =====
-- `Kube.print_logs` of tools/utils.py: one thread for each log, and the event that the last of them
-- sets. The lines of a log come in as texts, decoded and without their line ends; `callback` says
-- what a line adds to the caller's records, and whether the token bucket lets a line through is left
-- open. Colours are left out. The steps of all threads are interleaved in any order.
pub mod Exit
pub mod Pods
mod Tests
use sunstorm_xactserver.Base.{
  ℕ, ◌-◌, ◌<>◌, ◌≡◌, String, Bool, true, false, Option, none, some, List, [], ◌∷◌, ◌++◌, eqb,
  length, if◌then◌else◌,
}

-- `Kube.NamedLogs`
pub record NamedLogs : Type 0 where
  pub namespace : String
  pub name : String
  pub stream : List String

-- A thread that has lines of its log before it, one that an exception has ended with these lines
-- before it, and one that is behind its last section.
pub data Thread : Type 0 where
  running died : String → List String → Thread
  ended : Thread

pub record PrintSystem (H : Type 0) : Type 0 where
  pub threads : List Thread
  pub alive_threads : ℕ
  pub hits : List H
  pub printed : List (String × String)
  pub exit_event : Bool

abbrev pub to_list : {H : Type 0} → Option H → List H
to_list none = []
to_list (some h) = h ∷ []

-- `name`, and the rest of a log
abbrev thread_of : NamedLogs → Thread
thread_of logs = running (logs.namespace <> ("|" <> logs.name)) logs.stream

abbrev pub threads_of : List NamedLogs → List Thread
threads_of [] = []
threads_of (logs ∷ rest) = thread_of logs ∷ threads_of rest

abbrev print_init : {H : Type 0} → List NamedLogs → PrintSystem H
print_init named_logs = record {
  threads = threads_of named_logs;
  alive_threads = length named_logs;
  hits = [];
  printed = [];
  exit_event = false;
}

module _ {H : Type 0} (callback : String → String → Option H) (logs_per_sec : ℕ) where
  -- A round of the loop of `print_log`, the section after the loop, or an exception that ends the
  -- thread, of one of the threads: the stream, the decoding or the callback raises, or the console
  -- does once the callback has been called. Then the section after the loop is not run.
  pub data PrintStep (s : PrintSystem H) : PrintSystem H → Type 0 where
    line :
        (front back : List Thread) (name text : String) (rest : List String) (passes : Bool)
        → s.threads ≡ front ++ running name (text ∷ rest) ∷ back
        → (logs_per_sec ≡ 0 → passes ≡ true)
        → PrintStep s (record s {
          threads = front ++ running name rest ∷ back;
          hits = s.hits ++ to_list (callback name text);
          printed = if passes then s.printed ++ (name, text) ∷ [] else s.printed;
        })
    read_raises :
        (front back : List Thread) (name : String) (lines : List String)
        → s.threads ≡ front ++ running name lines ∷ back
        → PrintStep s (record s { threads = front ++ died name lines ∷ back })
    print_raises :
        (front back : List Thread) (name text : String) (rest : List String)
        → s.threads ≡ front ++ running name (text ∷ rest) ∷ back
        → PrintStep s (record s {
          threads = front ++ died name rest ∷ back;
          hits = s.hits ++ to_list (callback name text);
        })
    last :
        (front back : List Thread) (name : String)
        → s.threads ≡ front ++ running name [] ∷ back
        → PrintStep s (record s {
          threads = front ++ ended ∷ back;
          alive_threads = s.alive_threads - 1;
          exit_event = if eqb (s.alive_threads - 1) 0 then true else s.exit_event;
        })

  pub data PrintReach (named_logs : List NamedLogs) : PrintSystem H → Type 0 where
    here : PrintReach named_logs (print_init named_logs)
    later :
        {s t : PrintSystem H} → PrintReach named_logs s → PrintStep s t → PrintReach named_logs t
