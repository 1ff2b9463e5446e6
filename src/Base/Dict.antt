-- ===== src/Base/Dict.antt =====
-- Python dicts in insertion order. Proofs elsewhere go by the laws.
use mathlib.Core.Path.{◌≡◌, refl, subst}
use mathlib.Core.Logic.{◌≢◌}
use mathlib.Core.Bool.{true, false, ◌||◌}
use mathlib.Core.Option.{Option, none, some}
use mathlib.Core.List.{List, [], ◌∷◌, ◌++◌}
use native.Mathlib.Omega.{arith}
use sunstorm_xactserver.Base.Equality.{Eq, ◌==◌, contains, Distinct, if◌then◌else◌}

abbrev pub Dict {ℓ κ} : Type ℓ → Type κ → Type (ℓ ⊔ κ)
Dict K V = List (K × V)

abbrev pub keys {ℓ κ} : {K : Type ℓ} {V : Type κ} → Dict K V → List K
keys [] = []
keys ((k, _) ∷ d) = k ∷ keys d

-- The value that a later dict has, or else that of an earlier one.
abbrev pub or_else {ℓ} : {V : Type ℓ} → Option V → Option V → Option V
or_else none old = old
or_else (some v) old = some v

pub or_else-none {ℓ} : {V : Type ℓ} (o : Option V) → or_else o none ≡ o
or_else-none none = refl
or_else-none (some v) = refl

module _ {ℓ κ} {K : Type ℓ} {V : Type κ} ⦃e : Eq K⦄ where
  abbrev pub lookup : K → Dict K V → Option V
  lookup k [] = none
  lookup k ((j, v) ∷ d) = if k == j then some v else lookup k d

  -- `d[k] = v`
  abbrev pub insert : K → V → Dict K V → Dict K V
  insert k v [] = (k, v) ∷ []
  insert k v ((j, w) ∷ d) = if k == j then (k, v) ∷ d else (j, w) ∷ insert k v d

  -- `{**d, **u}`, and `d.update(u)`
  abbrev pub update : Dict K V → Dict K V → Dict K V
  update d [] = d
  update d ((k, v) ∷ u) = update (insert k v d) u

  -- `d.pop(k, None)`
  abbrev pub erase : K → Dict K V → Dict K V
  erase k [] = []
  erase k ((j, v) ∷ d) = let rest = erase k d in if k == j then rest else (j, v) ∷ rest

  abbrev pub NodupKeys : Dict K V → Type κ
  NodupKeys [] = Unit
  NodupKeys ((k, _) ∷ d) = (lookup k d ≡ none) × NodupKeys d

  pub lookup-insert :
      (j k : K) (v : V) (d : Dict K V)
      → lookup j (insert k v d) ≡ (if j == k then some v else lookup j d)
  lookup-insert j k v [] = refl
  lookup-insert j k v (_ ∷ d) = ground (arith, lookup-insert j k v d)

  pub lookup-erase :
      (j k : K) (d : Dict K V) → lookup j (erase k d) ≡ (if j == k then none else lookup j d)
  lookup-erase j k [] = ground arith
  lookup-erase j k (_ ∷ d) = ground (arith, lookup-erase j k d)

  -- Writing a key that is there changes no key.
  pub keys-insert :
      (k : K) (v : V) (d : Dict K V) → lookup k d ≢ none → keys (insert k v d) ≡ keys d
  keys-insert k v [] h = absurd (h refl)
  keys-insert k v (_ ∷ d) h = ground (arith, keys-insert k v d)

  -- Writing a key that is not there adds it at the end.
  pub insert_new :
      (k : K) (v : V) (d : Dict K V) → lookup k d ≡ none → insert k v d ≡ d ++ (k, v) ∷ []
  insert_new k v [] h = refl
  insert_new k v (_ ∷ d) h = ground (arith, insert_new k v d)

  -- A key is found exactly when it is listed.
  pub contains-keys : (k : K) (d : Dict K V) → contains (keys d) k ≡ true → lookup k d ≢ none
  contains-keys k [] h = cc
  contains-keys k (_ ∷ d) h = ground (arith, contains-keys k d)

  pub contains_of_lookup : (k : K) (d : Dict K V) → lookup k d ≢ none → contains (keys d) k ≡ true
  contains_of_lookup k [] h = absurd (h refl)
  contains_of_lookup k (_ ∷ d) h = ground (arith, contains_of_lookup k d)

  pub lookup-update :
      (j : K) (d u : Dict K V)
      → NodupKeys u
      → lookup j (update d u) ≡ or_else (lookup j u) (lookup j d)
  lookup-update j d [] fresh = refl
  lookup-update j d ((k, v) ∷ u) (new, fresh) =
      ground (arith, lookup-update j (insert k v d) u fresh, lookup-insert j k v d)

  contains-keys-insert :
      (j k : K) (v : V) (d : Dict K V)
      → contains (keys (insert k v d)) j ≡ (j == k || contains (keys d) j)
  contains-keys-insert j k v [] = refl
  contains-keys-insert j k v (_ ∷ d) = ground (arith, contains-keys-insert j k v d)

  pub insert-Distinct :
      (k : K) (v : V) (d : Dict K V) → Distinct (keys d) → Distinct (keys (insert k v d))
  insert-Distinct k v [] h = (refl, tt)
  insert-Distinct k v ((j, _) ∷ d) (new, h) =
      ground (arith, insert-Distinct k v d h, contains-keys-insert j k v d)

  pub update-Distinct : (d u : Dict K V) → Distinct (keys d) → Distinct (keys (update d u))
  update-Distinct d [] h = h
  update-Distinct d ((k, v) ∷ u) h = update-Distinct (insert k v d) u (insert-Distinct k v d h)

  pub lookup-none : (k : K) (d : Dict K V) → contains (keys d) k ≡ false → lookup k d ≡ none
  lookup-none k [] n = refl
  lookup-none k (_ ∷ d) n = ground (arith, lookup-none k d)

  pub NodupKeys-of_Distinct : (d : Dict K V) → Distinct (keys d) → NodupKeys d
  NodupKeys-of_Distinct [] h = tt
  NodupKeys-of_Distinct ((k, _) ∷ d) (new, h) = (lookup-none k d new, NodupKeys-of_Distinct d h)

module _ {ℓ κ} {K : Type ℓ} {V W : Type κ} ⦃e : Eq K⦄ where
  -- Which keys are found depends on the list of keys alone.
  pub lookup_of_keys :
      (k : K) (d : Dict K V) (d' : Dict K W)
      → keys d ≡ keys d'
      → lookup k d ≢ none
      → lookup k d' ≢ none
  lookup_of_keys k d d' same h =
      contains-keys k d' (subst (λ ks. contains ks k ≡ true) same (contains_of_lookup k d h))
