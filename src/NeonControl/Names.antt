-- ===== src/NeonControl/Names.antt =====
-- The names of numbered regions, and their order when they are sorted (tools/neonctl.py).
use Prim.Native.Char.{code}
use Prim.Native.Nat.compare as nat_compare
use Prim.Native.Nat.{Ordering, compare as compare_ℕ}
use Prim.Native.String.compare as string_compare
use Prim.Native.String.{compare}
use text.Mathlib.TextLemmas.{nil-append, cons-append, append_cancel_left}
use sunstorm_xactserver.Base.{
  ℕ, zero, suc, ◌+◌, ◌≤◌, ◌<◌, ◌≡◌, refl, ◌∙◌, ap, String, ◌<>◌, true, false, [], ◌∷◌, ◌++◌, map,
  arith, contains, ◌==◌, string_eq, inl, inr, Bool-cases,
}
use sunstorm_xactserver.Base.Number.{show-injective}
use sunstorm_xactserver.Base.Text.{comes_after, show}
use sunstorm_xactserver.NeonControl.{Arguments}
use sunstorm_xactserver.NeonControl.Commands.{insert_name, sort_names, range_from}
use sunstorm_xactserver.NeonControl.Create.{region_names}

compare_self : (n : ℕ) → compare_ℕ n n ≡ Ordering.eq
compare_self zero = nat_compare.zero-zero
compare_self (suc n) = nat_compare.suc-suc n n ∙ compare_self n

compare-append : (p s t : String) → compare (p <> s) (p <> t) ≡ compare s t
compare-append String.[] s t = rw (nil-append s, nil-append t) refl
compare-append (String.◌∷◌ c p) s t =
    rw (cons-append c p s, cons-append c p t)
      (string_compare.cons-cons c c (p <> s) (p <> t)
        ∙ rw (compare_self (code c)) (compare-append p s t))

comes_after-append : (p s t : String) → comes_after (p <> s) (p <> t) ≡ comes_after s t
unfolding comes_after
comes_after-append p s t =
    ap (λ order. elim order [ Ordering.gt ↦ true | _ ↦ false ]) (compare-append p s t)

-- The name of a region.
abbrev pub name : String → ℕ → String
name prefix i = prefix <> show i

comes_after-show : (i : ℕ) → i < 9 → comes_after (show i) (show (suc i)) ≡ false
unfolding comes_after show
comes_after-show zero lt = refl
comes_after-show (suc zero) lt = refl
comes_after-show (suc (suc zero)) lt = refl
comes_after-show (suc (suc (suc zero))) lt = refl
comes_after-show (suc (suc (suc (suc zero)))) lt = refl
comes_after-show (suc (suc (suc (suc (suc zero))))) lt = refl
comes_after-show (suc (suc (suc (suc (suc (suc zero)))))) lt = refl
comes_after-show (suc (suc (suc (suc (suc (suc (suc zero))))))) lt = refl
comes_after-show (suc (suc (suc (suc (suc (suc (suc (suc zero)))))))) lt = refl
comes_after-show (suc (suc (suc (suc (suc (suc (suc (suc (suc i))))))))) lt = absurd (omega arith)

sorted_lem :
    (prefix : String) (i n : ℕ)
    → i + n ≤ 10
    → sort_names (map (name prefix) (range_from i n)) ≡ map (name prefix) (range_from i n)
unfolding sort_names
sorted_lem prefix i zero h = refl
sorted_lem prefix i (suc zero) h = refl
sorted_lem prefix i (suc (suc n)) h =
    rw
      (
        sorted_lem prefix (suc i) (suc n) (omega arith),
        insert_name,
        comes_after-append prefix (show i) (show (suc i)),
        comes_after-show i (omega arith),
      )
      refl

-- A region's name is not that of an earlier one.
name-apart : (prefix : String) (i j : ℕ) → i < j → (name prefix j == name prefix i) ≡ false
name-apart prefix i j lt = elim (Bool-cases (name prefix j == name prefix i)) [
  | inl same ↦ absurd (
      omega
        (arith, show-injective j i (append_cancel_left prefix (show j) (show i) (ground arith))))
  | inr differ ↦ differ
]

pub earlier :
    (prefix : String) (i n b : ℕ)
    → i + n ≤ b
    → contains (map (name prefix) (range_from i n)) (name prefix b) ≡ false
earlier prefix i zero b h = refl
earlier prefix i (suc n) b h =
    rw (name-apart prefix i b (omega arith)) (earlier prefix (suc i) n b (omega arith))

pub range_from-suc : (i n : ℕ) → range_from i (suc n) ≡ range_from i n ++ (i + n) ∷ []
range_from-suc i zero = ap (λ k. k ∷ []) (omega arith)
range_from-suc i (suc n) =
    ap (λ ks. i ∷ ks)
      (range_from-suc (suc i) n ∙ ap (λ k. range_from (suc i) n ++ k ∷ []) (omega arith))

pub region_names_sorted :
    (args : Arguments) → args.num_regions ≤ 9 → sort_names (region_names args) ≡ region_names args
unfolding region_names
region_names_sorted args few = sorted_lem args.region_prefix 0 (suc args.num_regions) (omega arith)
