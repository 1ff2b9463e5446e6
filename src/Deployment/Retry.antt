-- ===== src/Deployment/Retry.antt =====
-- The attempts at creating a namespace in tools/deploy.py.
use mathlib.Core.List.{append_assoc}
use sunstorm_xactserver.Base.{
  ℕ, zero, suc, ◌+◌, ◌≤◌, ◌<◌, ◌≡◌, ◌≢◌, refl, ◌∙◌, ap, String, Bool, List, [], ◌∷◌, ◌++◌, arith,
}
use sunstorm_xactserver.Base.Result.{Result, ok, err}
use sunstorm_xactserver.Deployment.{
  Event, create_namespace, DeployError, bad_body, unfinished, World, Setup,
}
use sunstorm_xactserver.Deployment.Kubernetes.{Next, raise, retry, stop, after_answer, create_from}

-- Calls in a row.
abbrev pub calls : ℕ → Event → List Event
calls zero event = []
calls (suc n) event = event ∷ calls n event

abbrev pub outcome : Next → Result DeployError (Unit {0})
outcome raise = err bad_body
outcome retry = err unfinished
outcome stop = ok tt

module _ (world : World) (setup : Setup) (dry_run : Bool) (namespace : String) where
  abbrev pub next : ℕ → Next
  next k = after_answer (world.create_answer namespace k)

  -- An attempt that is not answered by a retry is the last.
  last_attempt :
      (k fuel : ℕ) (events : List Event) (answer : Next)
      → next k ≡ answer
      → answer ≢ retry
      → create_from world setup dry_run (suc fuel) k namespace events
        ≡ (outcome answer, events ++ create_namespace namespace dry_run ∷ [])
  unfolding create_from
  last_attempt k fuel events raise e free = rw (e, create_from) refl
  last_attempt k fuel events retry e free = absurd (free refl)
  last_attempt k fuel events stop e free = rw (e, create_from) refl

  create_from_lem :
      (n k m fuel : ℕ) (events : List Event)
      → m ≡ k + n
      → n < fuel
      → ((q : ℕ) → k ≤ q → q < m → next q ≡ retry)
      → next m ≢ retry
      → create_from world setup dry_run fuel k namespace events
        ≡ (outcome (next m), events ++ calls (suc n) (create_namespace namespace dry_run))
  unfolding create_from
  create_from_lem n k m zero events here lt busy free = absurd (omega arith)
  create_from_lem zero k m (suc fuel) events here lt busy free =
      last_attempt k fuel events (next m) (ap next (omega arith)) free
  create_from_lem (suc n) k m (suc fuel) events here lt busy free =
      rw (busy k (omega arith) (omega arith), create_from)
        (create_from_lem n (suc k) m fuel (events ++ create_namespace namespace dry_run ∷ [])
            (omega arith) (omega arith) (λ q low high. busy q (omega arith) high) free
          ∙ ap (λ es. (outcome (next m), es)) (append_assoc events _ _))

-- Where Kubernetes answers that the namespace is being deleted to a number of attempts, and
-- something else to the next one, creating the namespace makes just these attempts, with rounds to
-- spare, and what it raises is decided by the last answer alone.
pub create_from-attempts :
    (world : World) (setup : Setup) (dry_run : Bool) (namespace : String) (m fuel : ℕ)
    (events : List Event)
    → m < fuel
    → ((q : ℕ) → q < m → next world setup dry_run namespace q ≡ retry)
    → next world setup dry_run namespace m ≢ retry
    → create_from world setup dry_run fuel 0 namespace events ≡ (
      outcome (next world setup dry_run namespace m),
      events ++ calls (suc m) (create_namespace namespace dry_run),
    )
create_from-attempts world setup dry_run namespace m fuel events enough busy free =
    create_from_lem world setup dry_run namespace m 0 m fuel events (omega arith) enough
      (λ q _ lt. busy q lt) free
