-- ===== src/NeonClone/Safekeepers.antt =====
-- The directories of the safekeepers of a clone, and their ids (tools/neonclone.py).
use native.Mathlib.Nat.{mul-le-mul_left}
use sunstorm_xactserver.Base.{
  ℕ, suc, ◌+◌, ◌*◌, ◌≤◌, ◌<◌, ◌≡◌, ◌≢◌, some, List, [], ◌∷◌, map, arith, All, length, string_eq,
}
use sunstorm_xactserver.Base.Result.{ok}
use sunstorm_xactserver.NeonClone.{Safekeeper, Dirs, NeonDir, edit_safekeeper_ids}
use sunstorm_xactserver.NeonClone.Moves.{
  shifted, IsReady, DistinctIds, IsMoved, after, rename_all-after, after-IsMoved,
}

-- With different ids in one range that is no wider than the shift, a directory for each
-- safekeeper, and the new names free, the edit succeeds: every id goes up by the number of
-- safekeepers times the offset, and every directory is moved from its old name to its new one,
-- without `safekeeper.id`. No rename meets the directory of another safekeeper.
pub edit_safekeeper_ids_lem :
    (b ordinal : ℕ) (neon : NeonDir) (dirs : Dirs)
    → let sks = neon.config.safekeepers in
      let shift = length sks * ordinal in
      neon.safekeepers ≡ some dirs
      → DistinctIds sks
      → All (IsReady b shift dirs) sks
      → (dirs' : Dirs) × (edit_safekeeper_ids ordinal neon ≡ (
        ok tt,
        record neon {
          safekeepers = some dirs';
          config = record neon.config { safekeepers = map (shifted shift) sks };
        },
      ))
        × All (IsMoved shift dirs dirs') sks
unfolding edit_safekeeper_ids
edit_safekeeper_ids_lem b ordinal neon dirs there d h =
    let sks = neon.config.safekeepers in
    let shift = length sks * ordinal in
    (
      after b shift sks dirs,
      rw (there, rename_all-after b shift sks dirs d h),
      after-IsMoved b shift sks dirs d h,
    )

apart_lem :
    (b num o o' i j : ℕ)
    → o < o'
    → (b < i) × (i ≤ b + num)
    → (b < j) × (j ≤ b + num)
    → i + num * o ≢ j + num * o'
apart_lem b num o o' i j lt hi hj e =
    let wide : num * suc o ≤ num * o' = mul-le-mul_left num (omega arith) in
    let more : num * suc o ≡ num * o + num = ground arith in omega arith

-- The ids of the safekeepers are in one range that is no wider than their number.
abbrev pub InRange : ℕ → ℕ → Safekeeper → Type 0
InRange b num sk = (b < sk.id) × (sk.id ≤ b + num)

apart_one :
    (b num o o' : ℕ) (sk : Safekeeper) (sks : List Safekeeper)
    → o < o'
    → InRange b num sk
    → All (InRange b num) sks
    → All (λ other. sk.id + num * o ≢ other.id) (map (shifted (num * o')) sks)
apart_one b num o o' sk [] lt h hs = tt
apart_one b num o o' sk (other ∷ sks) lt h (here, hs) =
    (apart_lem b num o o' sk.id other.id lt h here, apart_one b num o o' sk sks lt h hs)

apart_all :
    (b num o o' : ℕ) (sks others : List Safekeeper)
    → o < o'
    → All (InRange b num) sks
    → All (InRange b num) others
    → All
        (λ sk. All (λ other. sk.id ≢ other.id) (map (shifted (num * o')) others))
        (map (shifted (num * o)) sks)
apart_all b num o o' [] others lt hs ho = tt
apart_all b num o o' (sk ∷ sks) others lt (here, hs) ho =
    (apart_one b num o o' sk others lt here ho, apart_all b num o o' sks others lt hs ho)

module _ (b o : ℕ) (neon : NeonDir) (dirs : Dirs) where
  -- What `edit_safekeeper_ids` wants of the directory.
  pub record CanEdit : Type 0 where
    pub there : neon.safekeepers ≡ some dirs
    pub distinct : DistinctIds neon.config.safekeepers
    pub ready : All (IsReady b (length neon.config.safekeepers * o) dirs) neon.config.safekeepers

-- Clones of one directory that are edited with two different offsets have no id of a safekeeper
-- in common, where the ids of the directory are in one range that is no wider than their number.
pub edit_safekeeper_ids_apart :
    (b o o' : ℕ) (neon : NeonDir) (dirs : Dirs)
    → o < o'
    → All (InRange b (length neon.config.safekeepers)) neon.config.safekeepers
    → CanEdit b o neon dirs
    → CanEdit b o' neon dirs
    → All
        (λ sk. All (λ other. sk.id ≢ other.id) (edit_safekeeper_ids o' neon).1.config.safekeepers)
        (edit_safekeeper_ids o neon).1.config.safekeepers
edit_safekeeper_ids_apart b o o' neon dirs lt range h h' =
    let (dirs1, e, moved1) = edit_safekeeper_ids_lem b o neon dirs h.there h.distinct h.ready in
    let (dirs2, e', moved2) =
      edit_safekeeper_ids_lem b o' neon dirs h'.there h'.distinct h'.ready in
    rw (e, e')
      (apart_all b (length neon.config.safekeepers) o o' neon.config.safekeepers
        neon.config.safekeepers lt range range)
