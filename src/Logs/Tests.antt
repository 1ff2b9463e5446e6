-- ===== src/Logs/Tests.antt =====
-- Two logs, one of which has two lines, and the steps of their threads.
use mathlib.Core.List.{Perm}
use sunstorm_xactserver.Base.{
  ◌<◌, ◌≡◌, ◌↔◌, refl, String, true, Option, some, List, [], ◌∷◌, All, length,
}
use sunstorm_xactserver.Logs.{
  NamedLogs, running, ended, PrintSystem, threads_of, line, last, PrintReach, here, later,
}
use sunstorm_xactserver.Logs.Exit.{all_recorded, exit_event_lem}

abbrev log_of : String → List String → NamedLogs
log_of name stream = record { namespace = "eu"; name = name; stream = stream }

abbrev two_logs : List NamedLogs
two_logs = log_of "a" ("x" ∷ "y" ∷ []) ∷ log_of "b" ("z" ∷ []) ∷ []

abbrev keep : String → String → Option String
keep name text = some text

abbrev at_end : PrintSystem String
at_end = record {
  threads = ended ∷ ended ∷ [];
  alive_threads = 0;
  hits = "x" ∷ "z" ∷ "y" ∷ [];
  printed = ("eu|a", "x") ∷ ("eu|b", "z") ∷ ("eu|a", "y") ∷ [];
  exit_event = true;
}

run : PrintReach keep 0 two_logs at_end
run =
    later
      (later
        (later
          (later
            (later here (
              line [] (running "eu|b" ("z" ∷ []) ∷ []) "eu|a" "x" ("y" ∷ []) true refl (λ _. refl)))
            (line (running "eu|a" ("y" ∷ []) ∷ []) [] "eu|b" "z" [] true refl (λ _. refl)))
          (last (running "eu|a" ("y" ∷ []) ∷ []) [] "eu|b" refl))
        (line [] (ended ∷ []) "eu|a" "y" [] true refl (λ _. refl)))
      (last [] (ended ∷ []) "eu|a" refl)

exit_event_lem_example :
    ((at_end.exit_event ≡ true) ↔ ((0 < length two_logs) × All (λ t. t ≡ ended) at_end.threads))
    × (at_end.exit_event ≡ true → Perm at_end.hits (all_recorded keep 0 (threads_of two_logs)))
exit_event_lem_example = exit_event_lem keep 0 two_logs at_end run
