-- ===== src/Deployment/Harmless.antt =====
-- Events of tools/deploy.py that leave the clusters as they are, and runs that add no others.
use sunstorm_xactserver.Base.{◌≡◌, String, true, List, [], ◌∷◌, All, string_eq}
use sunstorm_xactserver.Base.Dict.{Dict}
use sunstorm_xactserver.Base.Result.{ok, err}
use sunstorm_xactserver.Config.{NamespaceInfo}
use sunstorm_xactserver.Deployment.{
  Event, command, delete_namespace, create_namespace, write_addresses, Run, then_do, run_pool,
  for_each,
}

-- No command, a call that Kubernetes is told to treat as a dry run, or an empty list of addresses.
abbrev pub IsHarmless : Event → Type 0
IsHarmless (command _) = ⊥
IsHarmless (delete_namespace _ dry_run) = dry_run ≡ true
IsHarmless (create_namespace _ dry_run) = dry_run ≡ true
IsHarmless (write_addresses addresses) = addresses ≡ []

abbrev pub Harmless : List Event → Type 0
Harmless events = All IsHarmless events

abbrev pub Keeps : (List Event → Run) → Type 0
Keeps f = (events : List Event) → Harmless events → Harmless (f events).1

pub then_do-Harmless :
    (r : Run) (next : List Event → Run) → Harmless r.1 → Keeps next → Harmless (then_do r next).1
then_do-Harmless (ok _, events) next h f = f events h
then_do-Harmless (err e, events) next h f = h

pub for_each-Keeps :
    (f : String → List Event → Run) (regions : List String)
    → ((r : String) → Keeps (f r))
    → Keeps (for_each f regions)
unfolding for_each
for_each-Keeps f [] k events h = h
for_each-Keeps f (r ∷ regions) k events h =
    then_do-Harmless (f r events) (for_each f regions) (k r events h) (for_each-Keeps f regions k)

pub run_pool-Keeps :
    (task : String × NamespaceInfo → List Event → Run) (ns : Dict String NamespaceInfo)
    → ((n : String × NamespaceInfo) → Keeps (task n))
    → Keeps (run_pool task ns)
unfolding run_pool
run_pool-Keeps task [] k events h = h
run_pool-Keeps task (n ∷ ns) k events h = run_pool-Keeps task ns k (task n events).1 (k n events h)
