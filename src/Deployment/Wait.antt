-- ===== src/Deployment/Wait.antt =====
-- `try_with_timeout` of tools/deploy.py, with the readings of the clock as a function of the round.
use sunstorm_xactserver.Base.{ℕ, zero, suc, ◌-◌, Option, none, some, if◌then◌else◌, leb}
use sunstorm_xactserver.Base.Result.{Result, ok, err}
use sunstorm_xactserver.Deployment.{DeployError, timed_out, unfinished}

-- What `fn` returns in a round, `None` or a result, unless it raises.
abbrev pub Poll : Type 0 → Type 0
Poll A = ℕ → Result DeployError (Option A)

-- `clock 0` is read before the first round, `clock (suc k)` at the end of round `k`.
unfoldable pub try_from : {A : Type 0} → Poll A → (ℕ → ℕ) → ℕ → ℕ → ℕ → Result DeployError A
try_from fn clock timeout zero k = err unfinished
try_from fn clock timeout (suc fuel) k =
    let later = try_from fn clock timeout fuel (suc k) in
    elim (fn k) [
      | err e ↦ err e
      | ok (some result) ↦ ok result
      | ok none ↦ if leb timeout (clock (suc k) - clock 0) then err (timed_out timeout) else later
    ]

-- `timeout + 1` rounds are enough where each of them takes a tick.
unfoldable pub try_with_timeout : {A : Type 0} → Poll A → (ℕ → ℕ) → ℕ → Result DeployError A
unfolding try_from
try_with_timeout fn clock timeout = try_from fn clock timeout (suc timeout) 0
