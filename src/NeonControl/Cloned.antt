-- ===== src/NeonControl/Cloned.antt =====
-- The regions that there are after each clone (tools/neonctl.py).
use mathlib.Core.List.{map-append}
use mathlib.Core.Option.{some-ne-none}
use sunstorm_xactserver.Base.{
  ℕ, zero, suc, ◌+◌, ◌<◌, ◌≡◌, ◌≢◌, refl, sym, ◌∙◌, ap, String, false, Option, none, some, List, [],
  ◌∷◌, ◌++◌, map, arith, contains, eqb, string_eq, if◌then◌else◌, ==-refl,
}
use sunstorm_xactserver.Base.Dict.{
  Dict, lookup, keys, insert_new, keys-insert, lookup-none, lookup-insert,
}
use sunstorm_xactserver.Base.Result.{ok, err, Result}
use sunstorm_xactserver.NeonClone.{NeonDir, CloneError, clone_neon}
use sunstorm_xactserver.NeonControl.{Tool, ControlError, Region, Cluster, Run, then_do, Arguments}
use sunstorm_xactserver.NeonControl.Names.{name, earlier, range_from-suc}
use sunstorm_xactserver.NeonControl.Keys.{KeepsKeys}
use sunstorm_xactserver.NeonControl.Commands.{enumerate_from, range_from, with_tool}
use sunstorm_xactserver.NeonControl.Create.{make_dir, cloned, place_of, clone_one, clone_all}

keys-append : (d e : Dict String Region) → keys (d ++ e) ≡ keys d ++ keys e
keys-append [] e = refl
keys-append ((k, _) ∷ d) e = ap (λ ks. k ∷ ks) (keys-append d e)

-- What `clone_neon` leaves is the one key that it writes.
cloned-KeepsKeys :
    (region : String) (out : Result CloneError (Unit {0}) × Option NeonDir) (c : Cluster)
    → lookup region c.regions ≢ none
    → KeepsKeys c (cloned region out c)
cloned-KeepsKeys region (err e, none) c there = refl
cloned-KeepsKeys region (err e, some neon) c there = keys-insert region _ c.regions there
cloned-KeepsKeys region (ok _, neon) c there = keys-insert region _ c.regions there

-- What a run leaves meets `P`, where it raises nothing.
abbrev pub WhenOk : (Cluster → Type 0) → Run → Type 0
WhenOk P out = out.0 ≡ ok tt → P out.1

pub then_do-WhenOk :
    (P Q : Cluster → Type 0) (first : Run) (next : Cluster → Run)
    → WhenOk P first
    → ((c : Cluster) → P c → WhenOk Q (next c))
    → WhenOk Q (then_do first next)
then_do-WhenOk P Q (ok _, c) next h h' good = h' c (h refl) good
then_do-WhenOk P Q (err e, c) next h h' good = cc

pub with_tool-WhenOk :
    (Q : Cluster → Type 0) (found : Result ControlError Tool) (c : Cluster) (next : Tool → Run)
    → ((tool : Tool) → WhenOk Q (next tool))
    → WhenOk Q (with_tool found c next)
with_tool-WhenOk Q (err e) c next h good = cc
with_tool-WhenOk Q (ok tool) c next h good = h tool good

then_do-ok :
    (first : Run) (next : Cluster → Run)
    → (then_do first next).0 ≡ ok tt
    → (first.0 ≡ ok tt) × (then_do first next ≡ next first.1)
then_do-ok (ok _, c) next good = (refl, refl)
then_do-ok (err e, c) next good = cc

module _ (args : Arguments) where
  pub make_dir-new :
      (region : String) (c : Cluster)
      → args.dry_run ≡ false
      → lookup region c.regions ≡ none
      → (keys (make_dir args region c).regions ≡ keys c.regions ++ region ∷ [])
        × (lookup region (make_dir args region c).regions ≢ none)
  unfolding make_dir
  make_dir-new region c live new =
      let empty : Region = record { neon = none; pid_file = none } in
      rw (live, new)
        (
          ap keys (insert_new region empty c.regions new)
              ∙ keys-append c.regions ((region, empty) ∷ []),
          λ gone. some-ne-none empty (
              sym (
                lookup-insert region region empty c.regions
                ∙ rw (==-refl region) (refl {a = some empty}))
              ∙ gone),
        )

  clone_one-new :
      (global : String) (i : ℕ) (region : String) (c : Cluster)
      → args.dry_run ≡ false
      → lookup region c.regions ≡ none
      → keys (clone_one args global i region c).1.regions ≡ keys c.regions ++ region ∷ []
  unfolding clone_one
  clone_one-new global i region c live new =
      let (added, there) = make_dir-new region c live new in
      let c1 = make_dir args region c in
      let out =
        clone_neon (place_of (lookup global c1.regions)) (place_of (lookup region c1.regions)) i
          none in
      ap (λ dry. keys (if dry then (ok tt, c) else cloned region out c1).1.regions) live
      ∙ cloned-KeepsKeys region out c1 there
      ∙ added

  -- The names from a number on.
  abbrev pub names_from : ℕ → ℕ → List (ℕ × String)
  names_from i n = enumerate_from i (map (name args.region_prefix) (range_from i n))

  pub clone_all-keys :
      (global : String) (i n : ℕ) (c : Cluster)
      → args.dry_run ≡ false
      → 0 < i
      → keys c.regions ≡ map (name args.region_prefix) (range_from 0 i)
      → (clone_all args global (names_from i n) c).0 ≡ ok tt
      → keys (clone_all args global (names_from i n) c).1.regions
        ≡ map (name args.region_prefix) (range_from 0 (i + n))
  unfolding clone_all
  clone_all-keys global i zero c live pos same good =
      same ∙ ap (λ k. map (name args.region_prefix) (range_from 0 k)) (omega arith)
  clone_all-keys global i (suc n) c live pos same good =
      let region = name args.region_prefix i in
      let names = map (name args.region_prefix) in
      let rest = clone_all args global (names_from (suc i) n) in
      let numbered : eqb i 0 ≡ false = ground arith in
      let step : clone_all args global (names_from i (suc n)) c
          ≡ then_do (clone_one args global i region c) rest =
        ap (λ b. if b then rest c else then_do (clone_one args global i region c) rest) numbered in
      let (_, run) =
        then_do-ok (clone_one args global i region c) rest (sym (ap (λ out. out.0) step) ∙ good) in
      let new : lookup region c.regions ≡ none =
        lookup-none region c.regions
          (ap (λ ks. contains ks region) same ∙ earlier args.region_prefix 0 i i (omega arith)) in
      let added : keys (clone_one args global i region c).1.regions ≡ names (range_from 0 (suc i)) =
        clone_one-new global i region c live new
        ∙ ap (λ ks. ks ++ region ∷ []) same
        ∙ sym (
            ap names (range_from-suc 0 i ∙ ap (λ k. range_from 0 i ++ k ∷ []) (omega arith))
            ∙ map-append (name args.region_prefix) (range_from 0 i) (i ∷ [])) in
      ap (λ out. keys out.1.regions) (step ∙ run)
      ∙ clone_all-keys global (suc i) n (clone_one args global i region c).1 live (omega arith)
          added (sym (ap (λ out. out.0) (step ∙ run)) ∙ good)
      ∙ ap (λ k. names (range_from 0 k)) (omega arith)
