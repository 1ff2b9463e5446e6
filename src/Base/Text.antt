-- ===== src/Base/Text.antt =====
-- Python's `str`: decimal numbers, `split`, `strip`, `join` and the substring test.
use Prim.Native.Nat.{ℕ, zero, suc, ◌/◌, ◌%◌, Ordering}
use Prim.Native.Char.{Char, code}
use Prim.Native.String.{String, ◌++◌ as ◌<>◌, compare}
use mathlib.Core.Bool.{Bool, true, false, ◌&&◌, ◌||◌}
use mathlib.Core.Option.{none, some}
use mathlib.Core.List.{List, [], ◌∷◌}
use text.Mathlib.Text.{find?}
use sunstorm_xactserver.Base.Equality.{if◌then◌else◌}
use sunstorm_xactserver.Base.Int.{ℤ, pos, negsuc}
use sunstorm_xactserver.Base.Tests.{eqb, leb}

unfoldable pub digit : ℕ → Char
digit zero = "0"
digit (suc zero) = "1"
digit (suc (suc zero)) = "2"
digit (suc (suc (suc zero))) = "3"
digit (suc (suc (suc (suc zero)))) = "4"
digit (suc (suc (suc (suc (suc zero))))) = "5"
digit (suc (suc (suc (suc (suc (suc zero)))))) = "6"
digit (suc (suc (suc (suc (suc (suc (suc zero))))))) = "7"
digit (suc (suc (suc (suc (suc (suc (suc (suc zero)))))))) = "8"
digit (suc (suc (suc (suc (suc (suc (suc (suc (suc n))))))))) = "9"

-- The digits of `n` in front of `rest`; `n + 1` rounds are enough, since `n / 10` falls.
unfoldable pub show_onto : ℕ → ℕ → String → String
show_onto zero n rest = rest
show_onto (suc fuel) n rest =
    let done = String.◌∷◌ (digit (n % 10)) rest in
    let more = show_onto fuel (n / 10) done in if leb 10 n then more else done

-- `str(n)` of a number that is not negative
unfoldable pub show : ℕ → String
unfolding digit show_onto
show n = show_onto (suc n) n ""

unfoldable pub show_ℤ : ℤ → String
unfolding show
show_ℤ (pos n) = show n
show_ℤ (negsuc n) = "-" <> show (suc n)

-- `sep.join(parts)`
abbrev pub join : String → List String → String
join sep [] = ""
join sep (part ∷ []) = part
join sep (part ∷ next ∷ parts) = part <> (sep <> join sep (next ∷ parts))

-- `part in text`
unfoldable pub includes : String → String → Bool
includes text part = elim (find? text part) [ none ↦ false | some _ ↦ true ]

-- Puts a character in front of the first piece.
abbrev push : Char → List String → List String
push c [] = String.◌∷◌ c "" ∷ []
push c (piece ∷ pieces) = String.◌∷◌ c piece ∷ pieces

-- `text.split(sep)` for a separator of one character, given by its code
unfoldable pub split : ℕ → String → List String
split sep String.[] = "" ∷ []
split sep (String.◌∷◌ c text) =
    let rest = split sep text in if eqb (code c) sep then "" ∷ rest else push c rest

-- `text.split(ab)` for a separator of two different characters, given by their codes
unfoldable pub split_pair : ℕ → ℕ → String → List String
split_pair a b String.[] = "" ∷ []
split_pair a b (String.◌∷◌ c String.[]) = String.◌∷◌ c "" ∷ []
split_pair a b (String.◌∷◌ c (String.◌∷◌ d text)) = elim (eqb (code c) a && eqb (code d) b) [
  | true ↦ "" ∷ split_pair a b text
  | false ↦ push c (split_pair a b (String.◌∷◌ d text))
]

-- `c.isspace()`
abbrev is_space : ℕ → Bool
is_space c =
    (leb 9 c && leb c 13)
    || (leb 28 c && leb c 32)
    || eqb c 133
    || eqb c 160
    || eqb c 5760
    || (leb 8192 c && leb c 8202)
    || eqb c 8232
    || eqb c 8233
    || eqb c 8239
    || eqb c 8287
    || eqb c 12288

strip_left : String → String
strip_left String.[] = ""
strip_left (String.◌∷◌ c text) =
    let rest = strip_left text in if is_space (code c) then rest else String.◌∷◌ c text

strip_right : String → String
strip_right String.[] = ""
strip_right (String.◌∷◌ c text) = elim (strip_right text) [
  | String.[] ↦ if is_space (code c) then "" else String.◌∷◌ c ""
  | String.◌∷◌ d more ↦ String.◌∷◌ c (String.◌∷◌ d more)
]

-- `text.strip()`
unfoldable pub strip : String → String
unfolding strip_left strip_right
strip text = strip_right (strip_left text)

-- `name > other`
unfoldable pub comes_after : String → String → Bool
comes_after name other = elim (compare name other) [ Ordering.gt ↦ true | _ ↦ false ]
