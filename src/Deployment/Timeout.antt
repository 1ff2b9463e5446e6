-- ===== src/Deployment/Timeout.antt =====
-- The loops of tools/deploy.py that wait: they end, and how.
use native.Mathlib.Decide.{ℕ_discrete}
use sunstorm_xactserver.Base.{
  ℕ, zero, suc, ◌+◌, ◌-◌, ◌≤◌, ◌<◌, ◌≡◌, ◌⊎◌, refl, subst, none, some, arith, leb, Bool-cases, inl,
  inr,
}
use sunstorm_xactserver.Base.Result.{Result, ok, err, Result-cases}
use sunstorm_xactserver.Deployment.{DeployError, timed_out}
use sunstorm_xactserver.Deployment.Wait.{Poll, try_from, try_with_timeout}

module _ {A : Type 0} (fn : Poll A) (clock : ℕ → ℕ) (timeout : ℕ) where
  -- How a wait ends in round `r`: `fn` raises, it has a result, or the time is up.
  abbrev EndsAt : Result DeployError A → ℕ → Type 0
  EndsAt out r =
      ((e : DeployError) × (fn r ≡ err e) × (out ≡ err e))
      ⊎ (((a : A) × (fn r ≡ ok (some a)) × (out ≡ ok a))
          ⊎ ((fn r ≡ ok none)
              × (timeout ≤ clock (suc r) - clock 0)
              × (out ≡ err (timed_out timeout))))

  -- In a round `fn` has no result yet, and there is time left.
  abbrev GoesOn : ℕ → Type 0
  GoesOn r = (fn r ≡ ok none) × (clock (suc r) - clock 0 < timeout)

  -- The first round in which a wait that starts at round `k` ends.
  abbrev pub EndsFrom : Result DeployError A → ℕ → Type 0
  EndsFrom out k = (r : ℕ) × (k ≤ r) × EndsAt out r × ((q : ℕ) → k ≤ q → q < r → GoesOn q)

  -- Every round takes time.
  abbrev IsTicking : Type 0
  IsTicking = (r : ℕ) → clock r < clock (suc r)

  ticks_since : IsTicking → (r : ℕ) → r + clock 0 ≤ clock r
  ticks_since ticking zero = omega arith
  ticks_since ticking (suc r) = omega (arith, ticks_since ticking r, ticking r)

  ends_now : (out : Result DeployError A) (k : ℕ) → EndsAt out k → EndsFrom out k
  ends_now out k h = (k, omega arith, h, λ q low high. absurd (omega arith))

  ends_later :
      (out : Result DeployError A) (k : ℕ) → GoesOn k → EndsFrom out (suc k) → EndsFrom out k
  ends_later out k on (r, low, h, before) = (
    r,
    omega arith,
    h,
    λ q from to. elim (ℕ_discrete k q) [
      | yes same ↦ subst GoesOn same on
      | no differ ↦ before q (omega (arith, differ)) to
    ],
  )

  try_from-ends :
      (fuel k : ℕ)
      → IsTicking
      → k ≤ timeout
      → timeout < k + fuel
      → EndsFrom (try_from fn clock timeout fuel k) k
  unfolding try_from
  try_from-ends zero k ticking low enough = absurd (omega arith)
  try_from-ends (suc fuel) k ticking low enough = elim (Result-cases (fn k)) [
    | inl (e, raised) ↦ ends_now _ k (inl (e, raised, rw (raised, try_from) refl))
    | inr (none, silent) ↦ elim (Bool-cases (leb timeout (clock (suc k) - clock 0))) [
      | inl late ↦
          ends_now _ k (inr (inr (silent, ground (arith, late), rw (silent, late, try_from) refl)))
      | inr early ↦
          let time : clock (suc k) - clock 0 < timeout = ground (arith, early) in
          rw (silent, early, try_from)
            (ends_later (try_from fn clock timeout fuel (suc k)) k (silent, time)
              (try_from-ends fuel (suc k) ticking (omega (arith, ticks_since ticking (suc k)))
                (omega arith)))
    ]
    | inr (some a, answered) ↦ ends_now _ k (inr (inl (a, answered, rw (answered, try_from) refl)))
  ]

-- Where every round takes time, a wait ends: in its first round in which the function raises or
-- has a result, or at whose end the time is up, and with that exception, that result or the
-- timeout. Its rounds do not run out.
pub try_with_timeout_lem :
    {A : Type 0} (fn : Poll A) (clock : ℕ → ℕ) (timeout : ℕ)
    → IsTicking fn clock timeout
    → EndsFrom fn clock timeout (try_with_timeout fn clock timeout) 0
unfolding try_with_timeout
try_with_timeout_lem fn clock timeout ticking =
    try_from-ends fn clock timeout (suc timeout) 0 ticking (omega arith) (omega arith)
