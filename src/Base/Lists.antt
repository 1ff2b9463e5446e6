-- ===== src/Base/Lists.antt =====
-- Lists measured and indexed by native numbers, under the library's names.
use Prim.Native.Nat.{ℕ, zero, suc, ◌+◌}
use mathlib.Core.Path.{◌≡◌, refl, ap}
use mathlib.Core.List.{List, [], ◌∷◌, ◌++◌, map}
use mathlib.Core.Option.{Option, none, some}
use native.Mathlib.Omega.{arith}

-- A predicate on every item, by recursion.
abbrev pub All {ℓ κ} : {A : Type ℓ} → (A → Type κ) → List A → Type κ
All P [] = Unit
All P (x ∷ xs) = P x × All P xs

-- What needs no proof holds of every item.
pub all_units {ℓ} : {A : Type ℓ} (xs : List A) → All (λ x. Unit {0}) xs
all_units [] = tt
all_units (x ∷ xs) = (tt, all_units xs)

-- Two lists of one length, related item by item.
abbrev pub Zipped {ℓ κ} : {A : Type ℓ} {B : Type κ} → (A → B → Type 0) → List A → List B → Type 0
Zipped R [] [] = Unit
Zipped R [] (y ∷ ys) = ⊥
Zipped R (x ∷ xs) [] = ⊥
Zipped R (x ∷ xs) (y ∷ ys) = R x y × Zipped R xs ys

-- Related items of a list whose items all meet `P` are related by what follows.
pub Zipped-mono {ℓ κ ν} :
    {A : Type ℓ} {B : Type κ} (P : A → Type ν) (R S : A → B → Type 0)
    → ((x : A) (y : B) → P x → R x y → S x y)
    → (xs : List A) (ys : List B) → All P xs
    → Zipped R xs ys
    → Zipped S xs ys
Zipped-mono P R S f [] [] h z = tt
Zipped-mono P R S f [] (y ∷ ys) h z = absurd z
Zipped-mono P R S f (x ∷ xs) [] h z = absurd z
Zipped-mono P R S f (x ∷ xs) (y ∷ ys) (p, h) (r, z) = (f x y p r, Zipped-mono P R S f xs ys h z)

pub All-append {ℓ κ} :
    {A : Type ℓ} (P : A → Type κ) (front back : List A)
    → All P front
    → All P back
    → All P (front ++ back)
All-append P [] back h later = later
All-append P (x ∷ front) back (here, h) later = (here, All-append P front back h later)

module _ {ℓ} {A : Type ℓ} where
  abbrev pub length : List A → ℕ
  length [] = 0
  length (x ∷ xs) = suc (length xs)

  abbrev pub get_elem? : List A → ℕ → Option A
  get_elem? [] i = none
  get_elem? (x ∷ xs) zero = some x
  get_elem? (x ∷ xs) (suc i) = get_elem? xs i

  pub length-append : (xs ys : List A) → length (xs ++ ys) ≡ length xs + length ys
  length-append [] ys = omega arith
  length-append (x ∷ xs) ys = omega (arith, length-append xs ys)

  -- Applies `f` to the item at an index; out of bounds nothing changes.
  abbrev pub modify : ℕ → (A → A) → List A → List A
  modify i f [] = []
  modify zero f (x ∷ xs) = f x ∷ xs
  modify (suc i) f (x ∷ xs) = x ∷ modify i f xs

module _ {ℓ κ} {A : Type ℓ} {B : Type κ} where
  pub length-map : (xs : List A) (f : A → B) → length (map f xs) ≡ length xs
  length-map [] f = refl
  length-map (x ∷ xs) f = ap suc (length-map xs f)
