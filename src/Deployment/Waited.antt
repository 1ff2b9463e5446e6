-- ===== src/Deployment/Waited.antt =====
-- How a wait of tools/deploy.py for the addresses of a region ends, by the answers of its rounds.
use sunstorm_xactserver.Base.{
  ℕ, zero, suc, ◌*◌, ◌-◌, ◌≡◌, refl, sym, ◌∙◌, ap, ◌⊎◌, inl, inr, String, none, some, List, [], ◌∷◌,
  leb, Bool-cases,
}
use sunstorm_xactserver.Base.Result.{
  Result, ok, err, >>=-eq-ok, ok-injective, err-injective, Result-cases,
}
use sunstorm_xactserver.Deployment.{DeployError, timed_out, unfinished, World}
use sunstorm_xactserver.Deployment.Dns.{
  first_name, get_load_balancer_public_addresses, get_load_balancer_ip_addresses, region_addresses,
}
use sunstorm_xactserver.Deployment.Wait.{Poll, try_from, try_with_timeout}

-- The time is up, or the rounds of the model have run out.
abbrev IsGivenUp : World → DeployError → Type 0
IsGivenUp world e = (e ≡ timed_out (300 * world.ticks_per_second)) ⊎ (e ≡ unfinished)

module _ {A : Type 0} (fn : Poll A) (clock : ℕ → ℕ) (timeout : ℕ) where
  -- A result is that of a round.
  try_from-ok :
      (fuel k : ℕ) (a : A)
      → try_from fn clock timeout fuel k ≡ ok a
      → (q : ℕ) × (fn q ≡ ok (some a))
  unfolding try_from
  try_from-ok zero k a h = absurd (cc)
  try_from-ok (suc fuel) k a h = elim (Result-cases (fn k)) [
    | inl (e, raised) ↦ absurd (cc (rw (raised, try_from) at h))
    | inr (some b, answered) ↦ (k, answered ∙ cc (rw (answered, try_from) at h))
    | inr (none, silent) ↦ elim (Bool-cases (leb timeout (clock (suc k) - clock 0))) [
      | inl late ↦ absurd (cc (rw (silent, late, try_from) at h))
      | inr early ↦ try_from-ok fuel (suc k) a (rw (silent, early, try_from) at h)
    ]
  ]

  -- An error is that of a round, or the first round had no answer and the wait was given up.
  try_from-err :
      (fuel k : ℕ) (e : DeployError)
      → try_from fn clock timeout fuel k ≡ err e
      → ((q : ℕ) × (fn q ≡ err e)) ⊎ ((e ≡ timed_out timeout) ⊎ (e ≡ unfinished))
  unfolding try_from
  try_from-err zero k e h = inr (inr (sym (err-injective h)))
  try_from-err (suc fuel) k e h = elim (Result-cases (fn k)) [
    | inl (e', raised) ↦ inl (k, raised ∙ cc (rw (raised, try_from) at h))
    | inr (some b, answered) ↦ absurd (cc (rw (answered, try_from) at h))
    | inr (none, silent) ↦ elim (Bool-cases (leb timeout (clock (suc k) - clock 0))) [
      | inl late ↦ inr (inl (sym (err-injective (rw (silent, late, try_from) at h))))
      | inr early ↦ try_from-err fuel (suc k) e (rw (silent, early, try_from) at h)
    ]
  ]

  wait-ok : (a : A) → try_with_timeout fn clock timeout ≡ ok a → (q : ℕ) × (fn q ≡ ok (some a))
  unfolding try_with_timeout
  wait-ok a h = try_from-ok (suc timeout) 0 a h

  wait-err :
      (e : DeployError)
      → try_with_timeout fn clock timeout ≡ err e
      → ((q : ℕ) × (fn q ≡ err e))
        ⊎ ((fn 0 ≡ ok none) × ((e ≡ timed_out timeout) ⊎ (e ≡ unfinished)))
  unfolding try_with_timeout try_from
  wait-err e h = elim (Result-cases (fn 0)) [
    | inl (e', raised) ↦ inl (0, raised ∙ cc (rw (raised, try_from) at h))
    | inr (some b, answered) ↦ absurd (cc (rw (answered, try_from) at h))
    | inr (none, silent) ↦ elim (try_from-err (suc timeout) 0 e h) [
      | inl raised ↦ inl raised
      | inr given_up ↦ inr (silent, given_up)
    ]
  ]

module _ (world : World) where
  -- The addresses that the resolver gives, in some round, for the first name that the balancer of
  -- the region has in some round.
  abbrev pub IsFound : String → List String → Type 0
  IsFound region found =
      (j : ℕ) × (name : String) × (others : List String) × (k : ℕ) × (world.balancers region j
        ≡ ok (name ∷ others))
      × (world.resolve name k ≡ some found)

  -- The question for the balancer's names has raised the error; or the wait was given up, and at
  -- first the balancer had no name, or the resolver no address for a name that it had.
  abbrev pub IsLost : String → DeployError → Type 0
  IsLost region e =
      ((j : ℕ) × (world.balancers region j ≡ err e))
      ⊎ (IsGivenUp world e
          × ((world.balancers region 0 ≡ ok [])
              ⊎ ((j : ℕ) × (name : String) × (others : List String) × (world.balancers region j
                    ≡ ok (name ∷ others))
                  × (world.resolve name 0 ≡ none))))

  name_of_round :
      (r : Result DeployError (List String)) (name : String)
      → first_name r ≡ ok (some name)
      → (others : List String) × (r ≡ ok (name ∷ others))
  name_of_round (err e) name h = absurd (cc)
  name_of_round (ok []) name h = absurd (cc)
  name_of_round (ok (n ∷ others)) name h = (others, cc)

  error_of_round :
      (r : Result DeployError (List String)) (e : DeployError) → first_name r ≡ err e → r ≡ err e
  error_of_round (err e') e h = cc
  error_of_round (ok []) e h = absurd (cc)
  error_of_round (ok (n ∷ others)) e h = absurd (cc)

  silence_of_round : (r : Result DeployError (List String)) → first_name r ≡ ok none → r ≡ ok []
  silence_of_round (err e) h = absurd (cc)
  silence_of_round (ok []) h = refl
  silence_of_round (ok (n ∷ others)) h = absurd (cc)

  abbrev names : String → Result DeployError String
  names region =
      try_with_timeout (get_load_balancer_public_addresses world region) (world.name_clock region)
        (300 * world.ticks_per_second)

  named :
      (region name : String)
      → names region ≡ ok name
      → (j : ℕ) × (others : List String) × (world.balancers region j ≡ ok (name ∷ others))
  unfolding get_load_balancer_public_addresses
  named region name h =
      let (j, e) =
        wait-ok (get_load_balancer_public_addresses world region) (world.name_clock region)
          (300 * world.ticks_per_second) name h in
      let (others, same) = name_of_round (world.balancers region j) name e in (j, others, same)

  pub region_addresses-IsFound :
      (region : String) (found : List String)
      → region_addresses world region ≡ ok found
      → IsFound region found
  unfolding region_addresses get_load_balancer_ip_addresses
  region_addresses-IsFound region found h =
      let (name, e, more) = >>=-eq-ok (names region) _ h in
      let (j, others, same) = named region name e in
      let (k, e') =
        wait-ok (get_load_balancer_ip_addresses world name) (world.address_clock region)
          (300 * world.ticks_per_second) found more in
      (j, name, others, k, same, ok-injective e')

  pub region_addresses-IsLost :
      (region : String) (e : DeployError) → region_addresses world region ≡ err e → IsLost region e
  unfolding region_addresses get_load_balancer_public_addresses get_load_balancer_ip_addresses
  region_addresses-IsLost region e h = elim (Result-cases (names region)) [
    | inl (e', failed) ↦
        elim (wait-err (get_load_balancer_public_addresses world region) (world.name_clock region)
          (300 * world.ticks_per_second) e (failed ∙ ap err (err-injective (rw failed at h)))) [
            | inl (j, raised) ↦ inl (j, error_of_round (world.balancers region j) e raised)
            | inr (silent, up) ↦ inr (up, inl (silence_of_round (world.balancers region 0) silent))
          ]
    | inr (name, e') ↦
        let (j, others, same) = named region name e' in
        elim (wait-err (get_load_balancer_ip_addresses world name) (world.address_clock region)
          (300 * world.ticks_per_second) e (rw e' at h)) [
            | inl (k, raised) ↦ absurd (cc)
            | inr (silent, up) ↦ inr (up, inr (j, name, others, same, ok-injective silent))
          ]
  ]
