-- ===== src/Monitor/Status.antt =====
-- The status of a pod (tools/monitor.py), read off all its conditions and containers.
use sunstorm_xactserver.Base.{
  ◌≡◌, refl, ◌∙◌, String, Bool, true, false, ◌||◌, Option, some, List, [], ◌∷◌, arith, string_eq,
  if◌then◌else◌, Bool-cases, inl, inr,
}
use sunstorm_xactserver.Monitor.{
  Condition, Container, waiting, terminated, other, Pod, is_disruption, is_containers_ready,
  scan_conditions, scan_containers, is_running, compute_status,
}

abbrev pub any {ℓ} : {A : Type ℓ} → (A → Bool) → List A → Bool
any p [] = false
any p (x ∷ xs) = p x || any p xs

-- The reasons of the containers that are not ready and are waiting or terminated, in order.
abbrev pub reasons : List Container → List (Option String)
reasons [] = []
reasons (c ∷ rest) =
    let later = reasons rest in
    if c.ready then later else elim c.state [
      | waiting reason ↦ reason ∷ later
      | terminated reason ↦ reason ∷ later
      | other ↦ later
    ]

abbrev pub first_or {ℓ} : {A : Type ℓ} → A → List A → A
first_or d [] = d
first_or d (x ∷ xs) = x

scan_conditions-disrupted :
    (cs : List Condition) (ready : Bool) → (scan_conditions cs ready).0 ≡ any is_disruption cs
unfolding scan_conditions
scan_conditions-disrupted [] ready = refl
scan_conditions-disrupted (c ∷ rest) ready = elim (Bool-cases (is_disruption c)) [
  | inl e ↦ rw (e, scan_conditions)
  | inr e ↦
      rw (e, scan_conditions)
        (scan_conditions-disrupted rest (if is_containers_ready c then true else ready))
]

or_if : (r p x : Bool) → (if p then true else r) || x ≡ r || (p || x)
or_if true true x = refl
or_if true false x = refl
or_if false true x = refl
or_if false false x = refl

-- Where no condition is a disruption, the loop has seen them all.
scan_conditions-ready :
    (cs : List Condition) (ready : Bool)
    → any is_disruption cs ≡ false
    → (scan_conditions cs ready).1 ≡ ready || any is_containers_ready cs
unfolding scan_conditions
scan_conditions-ready [] true h = refl
scan_conditions-ready [] false h = refl
scan_conditions-ready (c ∷ rest) ready h = elim (Bool-cases (is_disruption c)) [
  | inl e ↦ absurd (ground (arith, e, h))
  | inr e ↦
      rw (e, scan_conditions)
        (scan_conditions-ready rest (if is_containers_ready c then true else ready)
            (ground (arith, e, h))
          ∙ or_if ready (is_containers_ready c) (any is_containers_ready rest))
]

scan_containers-reasons :
    (cs : List Container) → scan_containers cs ≡ first_or (some "Running") (reasons cs)
unfolding scan_containers
scan_containers-reasons [] = refl
scan_containers-reasons (c ∷ rest) = ground (arith, scan_containers-reasons rest)

-- A pod that is not in the phase `Running` has its phase as its status. One that is running has
-- `Terminating` if any condition is a disruption; else `Running` if any condition says that the
-- containers are ready; else the first reason of a container that is not ready and is waiting or
-- terminated; and `Running` without such a container.
pub compute_status_lem :
    (pod : Pod)
    → compute_status pod ≡ (
        if is_running pod.phase
        then if any is_disruption pod.conditions
          then some "Terminating"
          else if any is_containers_ready pod.conditions
          then some "Running"
          else first_or (some "Running") (reasons pod.containers)
        else pod.phase)
unfolding compute_status
compute_status_lem pod = elim (Bool-cases (any is_disruption pod.conditions)) [
  | inl e ↦ rw (scan_conditions-disrupted pod.conditions false, e)
  | inr e ↦ rw (
    scan_conditions-disrupted pod.conditions false,
    e,
    scan_conditions-ready pod.conditions false e,
    scan_containers-reasons pod.containers,
  )
]
