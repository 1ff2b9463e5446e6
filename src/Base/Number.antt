-- ===== src/Base/Number.antt =====
-- Python's `int` on decimal digits. A text with a sign, blanks or
-- underscores is not read.
use Prim.Native.Nat.{ℕ, zero, suc, ◌+◌, ◌-◌, ◌*◌, ◌/◌, ◌%◌, ◌<◌}
use Prim.Native.Char.{Char, code}
use Prim.Native.String.{String}
use mathlib.Core.Path.{◌≡◌, refl, sym, ◌∙◌, ap}
use mathlib.Core.Logic.{◌≢◌, inl, inr}
use mathlib.Core.Bool.{Bool, true, ◌&&◌}
use mathlib.Core.Option.{Option, none, some}
use native.Mathlib.Omega.{arith}
use sunstorm_xactserver.Base.Equality.{if◌then◌else◌}
use sunstorm_xactserver.Base.Tests.{leb, Bool-cases}
use sunstorm_xactserver.Base.Text.{digit, show_onto, show}

-- The number whose digits stand behind those of `acc`.
pub value : ℕ → String → ℕ
value acc String.[] = acc
value acc (String.◌∷◌ c text) = value (acc * 10 + (code c - 48)) text

abbrev is_digit : Char → Bool
is_digit c = leb 48 (code c) && leb (code c) 57

unfoldable pub all_digits : String → Bool
all_digits String.[] = true
all_digits (String.◌∷◌ c text) = is_digit c && all_digits text

-- `int(text)`; `none` is a `ValueError`
unfoldable pub int : String → Option ℕ
unfolding value all_digits
int String.[] = none
int (String.◌∷◌ c text) =
    if all_digits (String.◌∷◌ c text) then some (value 0 (String.◌∷◌ c text)) else none

value-digit :
    (acc d : ℕ) (rest : String)
    → d < 10
    → value acc (String.◌∷◌ (digit d) rest) ≡ value (acc * 10 + d) rest
unfolding value digit
value-digit acc zero rest h = refl
value-digit acc (suc zero) rest h = refl
value-digit acc (suc (suc zero)) rest h = refl
value-digit acc (suc (suc (suc zero))) rest h = refl
value-digit acc (suc (suc (suc (suc zero)))) rest h = refl
value-digit acc (suc (suc (suc (suc (suc zero))))) rest h = refl
value-digit acc (suc (suc (suc (suc (suc (suc zero)))))) rest h = refl
value-digit acc (suc (suc (suc (suc (suc (suc (suc zero))))))) rest h = refl
value-digit acc (suc (suc (suc (suc (suc (suc (suc (suc zero)))))))) rest h = refl
value-digit acc (suc (suc (suc (suc (suc (suc (suc (suc (suc zero))))))))) rest h = refl
value-digit acc (suc (suc (suc (suc (suc (suc (suc (suc (suc (suc n)))))))))) rest h =
    absurd (omega arith)

value-show_onto :
    (fuel n : ℕ) (rest : String) → n < fuel → value 0 (show_onto fuel n rest) ≡ value n rest
unfolding show_onto
value-show_onto zero n rest h = absurd (omega arith)
value-show_onto (suc fuel) n rest h = elim (Bool-cases (leb 10 n)) [
  | inl e ↦ rw e (
      value-show_onto fuel (n / 10) (String.◌∷◌ (digit (n % 10)) rest) (ground arith)
      ∙ value-digit (n / 10) (n % 10) rest (omega arith)
      ∙ ap (λ k. value k rest) (omega arith))
  | inr e ↦ rw e (value-digit 0 (n % 10) rest (omega arith) ∙ ap (λ k. value k rest) (ground arith))
]

value-show : (n : ℕ) → value 0 (show n) ≡ n
unfolding show value
value-show n = value-show_onto (suc n) n "" (omega arith)

-- Different numbers are written differently.
pub show-injective : (m n : ℕ) → show m ≡ show n → m ≡ n
show-injective m n h = sym (value-show m) ∙ ap (λ s. value 0 s) h ∙ value-show n

all_digits-digit :
    (d : ℕ) (rest : String) → all_digits (String.◌∷◌ (digit d) rest) ≡ all_digits rest
unfolding all_digits digit
all_digits-digit zero rest = refl
all_digits-digit (suc zero) rest = refl
all_digits-digit (suc (suc zero)) rest = refl
all_digits-digit (suc (suc (suc zero))) rest = refl
all_digits-digit (suc (suc (suc (suc zero)))) rest = refl
all_digits-digit (suc (suc (suc (suc (suc zero))))) rest = refl
all_digits-digit (suc (suc (suc (suc (suc (suc zero)))))) rest = refl
all_digits-digit (suc (suc (suc (suc (suc (suc (suc zero))))))) rest = refl
all_digits-digit (suc (suc (suc (suc (suc (suc (suc (suc zero)))))))) rest = refl
all_digits-digit (suc (suc (suc (suc (suc (suc (suc (suc (suc n))))))))) rest = refl

all_digits-show_onto :
    (fuel n : ℕ) (rest : String) → all_digits (show_onto fuel n rest) ≡ all_digits rest
unfolding show_onto
all_digits-show_onto zero n rest = refl
all_digits-show_onto (suc fuel) n rest = elim (Bool-cases (leb 10 n)) [
  | inl e ↦ rw e (
      all_digits-show_onto fuel (n / 10) (String.◌∷◌ (digit (n % 10)) rest)
      ∙ all_digits-digit (n % 10) rest)
  | inr e ↦ rw e (all_digits-digit (n % 10) rest)
]

pub all_digits-show : (n : ℕ) → all_digits (show n) ≡ true
unfolding show all_digits
all_digits-show n = all_digits-show_onto (suc n) n ""

int_of_digits :
    (text : String) → all_digits text ≡ true → text ≢ "" → int text ≡ some (value 0 text)
unfolding int
int_of_digits String.[] h ne = absurd (ne refl)
int_of_digits (String.◌∷◌ c text) h ne = rw (h, int)

show-ne-nil : (n : ℕ) → show n ≢ ""
unfolding show value
show-ne-nil zero e = cc
show-ne-nil (suc n) e =
    let is_zero : suc n ≡ 0 = sym (value-show (suc n)) ∙ ap (λ s. value 0 s) e in omega arith

pub int-show : (n : ℕ) → int (show n) ≡ some n
int-show n = int_of_digits (show n) (all_digits-show n) (show-ne-nil n) ∙ ap some (value-show n)
