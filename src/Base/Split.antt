-- ===== src/Base/Split.antt =====
-- `text.split(sep)` on two pieces put together with the separator.
use Prim.Native.Nat.{ℕ, ◌≤◌}
use Prim.Native.Char.{Char, code}
use Prim.Native.String.{String, ◌++◌ as ◌<>◌}
use mathlib.Core.Path.{◌≡◌, refl}
use mathlib.Core.Bool.{Bool, true, ◌&&◌, not}
use mathlib.Core.List.{[], ◌∷◌}
use native.Mathlib.Omega.{arith}
use text.Mathlib.TextLemmas.{nil-append, cons-append}
use sunstorm_xactserver.Base.Tests.{eqb}
use sunstorm_xactserver.Base.Number.{all_digits}
use sunstorm_xactserver.Base.Text.{split}

-- The separator is not in the text.
unfoldable pub lacks : ℕ → String → Bool
lacks sep String.[] = true
lacks sep (String.◌∷◌ c text) = not (eqb (code c) sep) && lacks sep text

split-lacks : (sep : ℕ) (text : String) → lacks sep text ≡ true → split sep text ≡ text ∷ []
unfolding split lacks
split-lacks sep String.[] h = refl
split-lacks sep (String.◌∷◌ c text) h = ground (arith, split-lacks sep text, h)

split-append :
    (sep : ℕ) (c : Char) (a b : String)
    → lacks sep a ≡ true
    → code c ≡ sep
    → split sep (a <> String.◌∷◌ c b) ≡ a ∷ split sep b
unfolding split lacks
split-append sep c String.[] b h e = rw nil-append (ground arith)
split-append sep c (String.◌∷◌ d a) b h e =
    rw cons-append (ground (arith, split-append sep c a b, h))

-- Two pieces come apart again.
pub split_two :
    (sep : ℕ) (c : Char) (a b : String)
    → lacks sep a ≡ true
    → lacks sep b ≡ true
    → code c ≡ sep
    → split sep (a <> String.◌∷◌ c b) ≡ a ∷ b ∷ []
split_two sep c a b ha hb e = rw (split-append sep c a b ha e, split-lacks sep b hb)

pub lacks_of_digits :
    (sep : ℕ) (text : String) → 58 ≤ sep → all_digits text ≡ true → lacks sep text ≡ true
unfolding lacks all_digits
lacks_of_digits sep String.[] le h = refl
lacks_of_digits sep (String.◌∷◌ c text) le h = ground (arith, lacks_of_digits sep text le, h)
