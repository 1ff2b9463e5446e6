-- ===== src/NeonClone.antt =====
-- tools/neonclone.py: cloning a `.neon` directory and editing its ports, addresses and ids. The
-- TOML files come in as records of the keys that are edited, the others pass unchanged; ids, ports
-- and the offset are natural numbers. Under `safekeepers` there are only directories.
pub mod Address
pub mod Moves
pub mod Safekeepers
mod Tests
use sunstorm_xactserver.Base.{
  ℕ, ◌+◌, ◌*◌, ◌<>◌, String, Bool, true, false, Option, none, some, List, [], ◌∷◌, length, ◌==◌,
  string_eq, if◌then◌else◌,
}
use sunstorm_xactserver.Base.Dict.{Dict, lookup, insert, erase}
use sunstorm_xactserver.Base.Number.{int}
use sunstorm_xactserver.Base.Result.{Result, ok, err, ◌>>=◌}
use sunstorm_xactserver.Base.Text.{show, split}

-- `CloneError`, and the exceptions of `split`, `int`, `copytree` and `rename`.
pub data CloneError : Type 0 where
  no_source no_neon no_destination destination_exists bad_address bad_port no_safekeepers :
      CloneError
  no_safekeeper : ℕ → CloneError
  rename_failed : String → CloneError

pub record PageserverToml : Type 0 where
  pub listen_http_addr : String
  pub listen_pg_addr : String
  pub id : ℕ

pub record Safekeeper : Type 0 where
  pub id : ℕ
  pub http_port : ℕ
  pub pg_port : ℕ

pub record Config : Type 0 where
  pub pageserver : PageserverToml
  pub xactserver_listen_pg_addr : String
  pub safekeepers : List Safekeeper

-- The files of a directory, by name.
abbrev pub Files : Type 0
Files = Dict String String

-- The directories under `safekeepers`.
abbrev pub Dirs : Type 0
Dirs = Dict String Files

pub record NeonDir : Type 0 where
  pub pageserver_toml : PageserverToml
  pub config : Config
  pub safekeepers : Option Dirs

-- A path: no directory, or one that may hold `.neon`.
pub data Place : Type 0 where
  missing : Place
  directory : Option NeonDir → Place

-- `deep_copy_neon`: what the destination is afterwards.
deep_copy_neon : Place → Place → Result CloneError NeonDir
deep_copy_neon missing dst = err no_source
deep_copy_neon (directory none) dst = err no_neon
deep_copy_neon (directory (some neon)) missing = err no_destination
deep_copy_neon (directory (some neon)) (directory none) = ok neon
deep_copy_neon (directory (some neon)) (directory (some _)) = err destination_exists

-- `hostname or old_hostname`, and the port
abbrev pub join_address : Option String → String → ℕ → String
join_address none old port = old <> String.◌∷◌ ":" (show port)
join_address (some host) old port = (if host == "" then old else host) <> String.◌∷◌ ":" (show port)

abbrev pub bump_port : ℕ → Option String → String → Option ℕ → Result CloneError String
bump_port ordinal hostname old none = err bad_port
bump_port ordinal hostname old (some port) = ok (join_address hostname old (port + ordinal))

pub change_parts : ℕ → Option String → List String → Result CloneError String
unfolding int
change_parts ordinal hostname (old ∷ port ∷ []) = bump_port ordinal hostname old (int port)
change_parts ordinal hostname _ = err bad_address

pub change_addr : ℕ → Option String → String → Result CloneError String
unfolding change_parts split
change_addr ordinal hostname hostname_and_port =
    change_parts ordinal hostname (split b':' hostname_and_port)

pub edit_pageserver : ℕ → Option String → PageserverToml → Result CloneError PageserverToml
unfolding change_addr
edit_pageserver ordinal hostname t = change_addr ordinal hostname t.listen_http_addr >>= λ http.
    change_addr ordinal hostname t.listen_pg_addr >>= λ pg.
    ok (record { listen_http_addr = http; listen_pg_addr = pg; id = t.id + ordinal })

pub edit_ports : ℕ → List Safekeeper → List Safekeeper
edit_ports ordinal [] = []
edit_ports ordinal (sk ∷ rest) =
    record sk { http_port = sk.http_port + ordinal; pg_port = sk.pg_port + ordinal }
    ∷ edit_ports ordinal rest

-- The `config` file takes the pageserver's values from the file that was edited before.
pub edit_config : ℕ → Option String → PageserverToml → Config → Result CloneError Config
unfolding change_addr edit_ports
edit_config ordinal hostname edited c =
    change_addr ordinal hostname c.xactserver_listen_pg_addr >>= λ pg. ok (record {
      pageserver = edited;
      xactserver_listen_pg_addr = pg;
      safekeepers = edit_ports ordinal c.safekeepers;
    })

-- What a function returns or raises, and the directory as it leaves it.
abbrev Edit : Type 0
Edit = Result CloneError (Unit {0}) × NeonDir

pub edit_configs : ℕ → Option String → NeonDir → Edit
unfolding edit_pageserver edit_config
edit_configs ordinal hostname neon = elim (edit_pageserver ordinal hostname neon.pageserver_toml) [
  | err e ↦ (err e, neon)
  | ok edited ↦ elim (edit_config ordinal hostname edited neon.config) [
    | err e ↦ (err e, record neon { pageserver_toml = edited })
    | ok config ↦ (ok tt, record neon { pageserver_toml = edited; config = config })
  ]
]

pub sk_name : ℕ → String
unfolding show
sk_name id = "sk" <> show id

abbrev pub is_empty : Files → Bool
is_empty [] = true
is_empty (_ ∷ _) = false

-- `rename`, which replaces an empty directory, but no other one.
pub rename : String → String → Files → Dirs → Result CloneError Dirs
rename old new files dirs = if old == new then ok dirs else elim (lookup new dirs) [
  | none ↦ ok (insert new files (erase old dirs))
  | some taken ↦
      if is_empty taken then ok (insert new files (erase old dirs)) else err (rename_failed new)
]

-- The loop of `edit_safekeeper_ids`; `shift` is `num_sk * ordinal`. A failure leaves the renames
-- that have been done.
pub rename_all : ℕ → List Safekeeper → Dirs → Result CloneError (List Safekeeper) × Dirs
unfolding rename sk_name
rename_all shift [] dirs = (ok [], dirs)
rename_all shift (sk ∷ rest) dirs = elim (lookup (sk_name sk.id) dirs) [
  | none ↦ (err (no_safekeeper sk.id), dirs)
  | some files ↦ elim (rename (sk_name sk.id) (sk_name (sk.id + shift)) files dirs) [
    | err e ↦ (err e, dirs)
    | ok renamed ↦
        let (ids, dirs') =
          rename_all shift rest
            (insert (sk_name (sk.id + shift)) (erase "safekeeper.id" files) renamed) in
        (ids >>= λ sks. ok (record sk { id = sk.id + shift } ∷ sks), dirs')
  ]
]

abbrev with_ids : NeonDir → Result CloneError (List Safekeeper) × Dirs → Edit
with_ids neon (err e, dirs) = (err e, record neon { safekeepers = some dirs })
with_ids neon (ok sks, dirs) = (
  ok tt,
  record neon { safekeepers = some dirs; config = record neon.config { safekeepers = sks } },
)

pub edit_safekeeper_ids : ℕ → NeonDir → Edit
unfolding rename_all
edit_safekeeper_ids ordinal neon = elim neon.safekeepers [
  | none ↦ (err no_safekeepers, neon)
  | some dirs ↦
      with_ids neon
        (rename_all (length neon.config.safekeepers * ordinal) neon.config.safekeepers dirs)
]

abbrev after_configs : ℕ → Edit → Edit
after_configs offset (err e, neon) = (err e, neon)
after_configs offset (ok _, neon) = edit_safekeeper_ids offset neon

-- `clone_neon`: the outcome, and the `.neon` directory of the destination, if it has been copied.
unfoldable pub clone_neon :
    Place → Place → ℕ → Option String → Result CloneError (Unit {0}) × Option NeonDir
unfolding deep_copy_neon edit_configs edit_safekeeper_ids
clone_neon src dst offset hostname = elim (deep_copy_neon src dst) [
  | err e ↦ (err e, none)
  | ok neon ↦
      let (result, edited) = after_configs offset (edit_configs offset hostname neon) in
      (result, some edited)
]
