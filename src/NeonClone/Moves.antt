-- ===== src/NeonClone/Moves.antt =====
-- The renames of the directories of the safekeepers, one after the other (tools/neonclone.py).
use text.Mathlib.TextLemmas.{append_cancel_left}
use sunstorm_xactserver.Base.{
  ℕ, ◌+◌, ◌≤◌, ◌<◌, ◌≡◌, ◌≢◌, refl, sym, ◌∙◌, subst, inl, inr, String, false, none, some, List, [],
  ◌∷◌, map, arith, All, ◌==◌, string_eq, if◌then◌else◌, Option-cases, Bool-cases,
}
use sunstorm_xactserver.Base.Dict.{lookup, insert, erase, lookup-insert, lookup-erase}
use sunstorm_xactserver.Base.Number.{show-injective}
use sunstorm_xactserver.Base.Result.{ok}
use sunstorm_xactserver.Base.Text.{show}
use sunstorm_xactserver.NeonClone.{Safekeeper, Files, Dirs, sk_name, rename, rename_all}

sk_name-ne : (m n : ℕ) → m ≢ n → (sk_name m == sk_name n) ≡ false
unfolding sk_name
sk_name-ne m n ne = elim (Bool-cases (sk_name m == sk_name n)) [
  | inl e ↦
      absurd
        (ne (show-injective m n (append_cancel_left "sk" (show m) (show n) (ground (arith, e)))))
  | inr e ↦ e
]

-- What happens to one safekeeper whose new name is free.
abbrev moved : ℕ → Safekeeper → Files → Dirs → Dirs
moved shift sk files dirs =
    insert (sk_name (sk.id + shift)) (erase "safekeeper.id" files)
      (insert (sk_name (sk.id + shift)) files (erase (sk_name sk.id) dirs))

lookup-moved :
    (j : String) (shift : ℕ) (sk : Safekeeper) (files : Files) (dirs : Dirs)
    → lookup j (moved shift sk files dirs) ≡ (
        if j == sk_name (sk.id + shift)
        then some (erase "safekeeper.id" files)
        else if j == sk_name sk.id
        then none
        else lookup j dirs)
lookup-moved j shift sk files dirs = ground (
  arith,
  lookup-insert j (sk_name (sk.id + shift)) (erase "safekeeper.id" files)
      (insert (sk_name (sk.id + shift)) files (erase (sk_name sk.id) dirs)),
  lookup-insert j (sk_name (sk.id + shift)) files (erase (sk_name sk.id) dirs),
  lookup-erase j (sk_name sk.id) dirs,
)

abbrev pub shifted : ℕ → Safekeeper → Safekeeper
shifted shift sk = record sk { id = sk.id + shift }

-- The directories and ids of safekeepers that can be renamed: each has its directory, its new
-- name is free, and the ids are different and in one range that is no wider than the shift.
pub record IsReady (b shift : ℕ) (dirs : Dirs) (sk : Safekeeper) : Type 0 where
  pub above : b < sk.id
  pub below : sk.id ≤ b + shift
  pub files : Files
  pub has_files : lookup (sk_name sk.id) dirs ≡ some files
  pub new_free : lookup (sk_name (sk.id + shift)) dirs ≡ none

abbrev pub DistinctIds : List Safekeeper → Type 0
DistinctIds [] = Unit
DistinctIds (sk ∷ rest) = All (λ other. other.id ≢ sk.id) rest × DistinctIds rest

-- The safekeeper's directory has its new name, without `safekeeper.id`, and the old name is gone.
abbrev pub IsMoved : ℕ → Dirs → Dirs → Safekeeper → Type 0
IsMoved shift dirs dirs' sk =
    (files : Files)
    → lookup (sk_name sk.id) dirs ≡ some files
    → (lookup (sk_name (sk.id + shift)) dirs' ≡ some (erase "safekeeper.id" files))
      × (lookup (sk_name sk.id) dirs' ≡ none)

module _ (b shift : ℕ) where
  IsReady-moved :
      (sk other : Safekeeper) (files : Files) (dirs : Dirs)
      → other.id ≢ sk.id
      → IsReady b shift dirs sk
      → IsReady b shift dirs other
      → IsReady b shift (moved shift sk files dirs) other
  IsReady-moved sk other files dirs ne r h = record {
    above = h.above;
    below = h.below;
    files = h.files;
    has_files =
        lookup-moved (sk_name other.id) shift sk files dirs
        ∙ rw
            (
              sk_name-ne other.id (sk.id + shift) (λ e. omega (arith, h.below, r.above)),
              sk_name-ne other.id sk.id ne,
            )
            h.has_files;
    new_free =
        lookup-moved (sk_name (other.id + shift)) shift sk files dirs
        ∙ rw
            (
              sk_name-ne (other.id + shift) (sk.id + shift) (λ e. ne (omega arith)),
              sk_name-ne (other.id + shift) sk.id (λ e. omega (arith, r.below, h.above)),
            )
            h.new_free;
  }

  all_ready :
      (sk : Safekeeper) (rest : List Safekeeper) (files : Files) (dirs : Dirs)
      → All (λ other. other.id ≢ sk.id) rest
      → IsReady b shift dirs sk
      → All (IsReady b shift dirs) rest
      → All (IsReady b shift (moved shift sk files dirs)) rest
  all_ready sk [] files dirs ne r h = tt
  all_ready sk (other ∷ rest) files dirs (n, ne) r (here, h) =
      (IsReady-moved sk other files dirs n r here, all_ready sk rest files dirs ne r h)

  rename-free :
      (sk : Safekeeper) (files : Files) (dirs : Dirs)
      → IsReady b shift dirs sk
      → rename (sk_name sk.id) (sk_name (sk.id + shift)) files dirs
        ≡ ok (insert (sk_name (sk.id + shift)) files (erase (sk_name sk.id) dirs))
  unfolding rename
  rename-free sk files dirs r =
      rw (sk_name-ne sk.id (sk.id + shift) (λ e. omega (arith, r.above, r.below)), r.new_free)

  -- The directories after all renames.
  abbrev pub after : List Safekeeper → Dirs → Dirs
  after [] dirs = dirs
  after (sk ∷ rest) dirs = elim (lookup (sk_name sk.id) dirs) [
    | none ↦ dirs
    | some files ↦ after rest (moved shift sk files dirs)
  ]

  after-cons :
      (sk : Safekeeper) (rest : List Safekeeper) (files : Files) (dirs : Dirs)
      → lookup (sk_name sk.id) dirs ≡ some files
      → after (sk ∷ rest) dirs ≡ after rest (moved shift sk files dirs)
  after-cons sk rest files dirs e = rw (e, after)

  pub rename_all-after :
      (sks : List Safekeeper) (dirs : Dirs)
      → DistinctIds sks
      → All (IsReady b shift dirs) sks
      → rename_all shift sks dirs ≡ (ok (map (shifted shift) sks), after sks dirs)
  unfolding rename_all
  rename_all-after [] dirs d h = refl
  rename_all-after (sk ∷ rest) dirs (ne, d) (r, h) =
      let later =
        rename_all-after rest (moved shift sk r.files dirs) d
          (all_ready sk rest r.files dirs ne r h) in
      rw
        (
          r.has_files,
          rename_all,
          rename-free sk r.files dirs r,
          later,
          after-cons sk rest r.files dirs r.has_files,
        )
        refl

  abbrev Avoids : String → Safekeeper → Type 0
  Avoids j sk = ((j == sk_name sk.id) ≡ false) × ((j == sk_name (sk.id + shift)) ≡ false)

  -- A name that is no old one and no new one keeps its directory.
  after_keeps :
      (j : String) (sks : List Safekeeper) (dirs : Dirs)
      → All (Avoids j) sks
      → lookup j (after sks dirs) ≡ lookup j dirs
  after_keeps j [] dirs h = refl
  after_keeps j (sk ∷ rest) dirs ((old, new), h) =
      elim (Option-cases (lookup (sk_name sk.id) dirs)) [
        | inl e ↦ rw (e, after)
        | inr (files, e) ↦ rw (after-cons sk rest files dirs e) (
            after_keeps j rest (moved shift sk files dirs) h
            ∙ lookup-moved j shift sk files dirs
            ∙ rw (old, new))
      ]

  Avoids-old :
      (sk : Safekeeper) (rest : List Safekeeper) (dirs : Dirs)
      → All (λ other. other.id ≢ sk.id) rest
      → IsReady b shift dirs sk
      → All (IsReady b shift dirs) rest
      → All (Avoids (sk_name sk.id)) rest
  Avoids-old sk [] dirs ne r h = tt
  Avoids-old sk (other ∷ rest) dirs (n, ne) r (here, h) = (
    (
      sk_name-ne sk.id other.id (λ e. n (sym e)),
      sk_name-ne sk.id (other.id + shift) (λ e. omega (arith, r.below, here.above)),
    ),
    Avoids-old sk rest dirs ne r h,
  )

  Avoids-new :
      (sk : Safekeeper) (rest : List Safekeeper) (dirs : Dirs)
      → All (λ other. other.id ≢ sk.id) rest
      → IsReady b shift dirs sk
      → All (IsReady b shift dirs) rest
      → All (Avoids (sk_name (sk.id + shift))) rest
  Avoids-new sk [] dirs ne r h = tt
  Avoids-new sk (other ∷ rest) dirs (n, ne) r (here, h) = (
    (
      sk_name-ne (sk.id + shift) other.id (λ e. omega (arith, here.below, r.above)),
      sk_name-ne (sk.id + shift) (other.id + shift) (λ e. n (omega arith)),
    ),
    Avoids-new sk rest dirs ne r h,
  )

  -- What is moved in the later directories was there before.
  IsMoved-before :
      (sk : Safekeeper) (rest : List Safekeeper) (files : Files) (dirs dirs' : Dirs)
      → All (λ other. other.id ≢ sk.id) rest
      → IsReady b shift dirs sk
      → All (IsReady b shift dirs) rest
      → All (IsMoved shift (moved shift sk files dirs) dirs') rest
      → All (IsMoved shift dirs dirs') rest
  IsMoved-before sk [] files dirs dirs' ne r h m = tt
  IsMoved-before sk (other ∷ rest) files dirs dirs' (n, ne) r (here, h) (first, m) = (
    λ fs e. first fs (
        lookup-moved (sk_name other.id) shift sk files dirs
        ∙ rw
            (
              sk_name-ne other.id (sk.id + shift) (λ t. omega (arith, here.below, r.above)),
              sk_name-ne other.id sk.id n,
            )
            e),
    IsMoved-before sk rest files dirs dirs' ne r h m,
  )

  pub after-IsMoved :
      (sks : List Safekeeper) (dirs : Dirs)
      → DistinctIds sks
      → All (IsReady b shift dirs) sks
      → All (IsMoved shift dirs (after sks dirs)) sks
  after-IsMoved [] dirs d h = tt
  after-IsMoved (sk ∷ rest) dirs (ne, d) (r, h) =
      let dirs1 = moved shift sk r.files dirs in
      let ready = all_ready sk rest r.files dirs ne r h in
      subst (λ dirs'. All (IsMoved shift dirs dirs') (sk ∷ rest))
        (sym (after-cons sk rest r.files dirs r.has_files))
        (
          λ fs e. (
            after_keeps (sk_name (sk.id + shift)) rest dirs1 (Avoids-new sk rest dirs ne r h)
                ∙ ground (
                  arith,
                  lookup-moved (sk_name (sk.id + shift)) shift sk r.files dirs,
                  e,
                  r.has_files,
                ),
            after_keeps (sk_name sk.id) rest dirs1 (Avoids-old sk rest dirs ne r h)
                ∙ lookup-moved (sk_name sk.id) shift sk r.files dirs
                ∙ rw (sk_name-ne sk.id (sk.id + shift) (λ t. omega (arith, r.above, r.below)))
                    (ground arith),
          ),
          IsMoved-before sk rest r.files dirs _ ne r h (after-IsMoved rest dirs1 d ready),
        )
