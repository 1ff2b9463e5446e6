-- ===== src/NeonControl.antt =====
-- tools/neonctl.py: the binaries, the commands that are run in the directory of a region, and what
-- they leave there. What the binaries do comes in as functions of the events so far. A region is
-- named by its directory below the data directory.
pub mod Commands
pub mod Create
pub mod Cloned
pub mod Created
pub mod Names
pub mod Destroy
pub mod Keys
pub mod Processes
mod Tests
use sunstorm_xactserver.Base.{
  ℕ, ◌<>◌, String, Bool, true, false, not, ◌&&◌, Option, none, some, List, [], ◌∷◌, ◌++◌, ◌==◌,
  string_eq, if◌then◌else◌,
}
use sunstorm_xactserver.Base.Dict.{Dict, lookup, insert}
use sunstorm_xactserver.Base.Number.{int}
use sunstorm_xactserver.Base.Result.{Result, ok, err}
use sunstorm_xactserver.Base.Text.{show}
use sunstorm_xactserver.NeonClone.{CloneError, NeonDir}

-- `Neon` and `XactServer`, which are made alike.
pub record Tool : Type 0 where
  pub bin : String
  pub env : Dict String String
  pub dry_run : Bool

-- A program that is run in a directory, one that is started there, and a signal.
pub data Event : Type 0 where
  run start : Tool → String → List String → Event
  kill : ℕ → Event

pub data ControlError : Type 0 where
  no_neon no_xactserver : ControlError
  called_process : Event → ControlError
  no_directory bad_pid : String → ControlError
  clone_failed : CloneError → ControlError

-- Whether a program exits with status 0, what a command of `neon_local` leaves as `.neon` of the
-- directory, and the id of a process that is started.
pub record World : Type 0 where
  pub succeeds : List Event → Event → Bool
  pub effect : List Event → Event → Option NeonDir → Option NeonDir
  pub pid : List Event → Event → ℕ

-- The directory of a region.
pub record Region : Type 0 where
  pub neon : Option NeonDir
  pub pid_file : Option String

pub record Cluster : Type 0 where
  pub regions : Dict String Region
  pub events : List Event

abbrev pub Run : Type 0
Run = Result ControlError (Unit {0}) × Cluster

-- Goes on where nothing has been raised.
abbrev pub then_do : Run → (Cluster → Run) → Run
then_do (ok _, c) next = next c
then_do (err e, c) next = (err e, c)

-- `os.path.join`
ends_in_slash : String → Bool
ends_in_slash String.[] = false
ends_in_slash (String.◌∷◌ c String.[]) = String.◌∷◌ c "" == "/"
ends_in_slash (String.◌∷◌ c (String.◌∷◌ d text)) = ends_in_slash (String.◌∷◌ d text)

path_join : String → String → String
unfolding ends_in_slash
path_join dir name =
    if dir == "" then name else if ends_in_slash dir then dir <> name else dir <> ("/" <> name)

-- `given or fallback`
abbrev or_use : Option String → String → String
or_use none fallback = fallback
or_use (some text) fallback = if text == "" then fallback else text

-- `os.environ.get(key, default)`
abbrev or_default : Option String → String → String
or_default none d = d
or_default (some text) d = text

-- The command line, and what the environment says.
pub record Arguments : Type 0 where
  pub neon_dir : Option String
  pub pg_dir : Option String
  pub xactserver_dir : Option String
  pub env_neon_dir : Option String
  pub env_xactserver_dir : Option String
  pub env_rust_log : Option String
  pub dry_run : Bool
  pub no_xactserver : Bool
  pub valgrind : Bool
  pub keep_neon : Bool
  pub pg_version : String
  pub region_prefix : String
  pub valgrind_supp : String
  pub num_regions : ℕ
  pub pageserver_config : List String
  pub tenant_config : List String

-- The first candidate that is a file; `absolute` is `os.path.abspath`.
find_binary : (String → Bool) → (String → String) → String → List String → Option String
unfolding path_join
find_binary is_file absolute dir [] = none
find_binary is_file absolute dir (name ∷ names) =
    let rest = find_binary is_file absolute dir names in
    let bin = absolute (path_join dir name) in if is_file bin then some bin else rest

module _ (is_file : String → Bool) (absolute : String → String) (args : Arguments) where
  abbrev rust_log : String × String
  rust_log = ("RUST_LOG", or_default args.env_rust_log "info")

  pub get_neon : Result ControlError Tool
  unfolding find_binary
  get_neon =
      let dir = or_use args.neon_dir (or_default args.env_neon_dir ".") in
      elim (find_binary is_file absolute dir
        ("neon_local" ∷ "target/debug/neon_local" ∷ "target/release/neon_local" ∷ [])) [
          | none ↦ err no_neon
          | some bin ↦ ok (record {
            bin = bin;
            env =
                ("POSTGRES_DISTRIB_DIR", or_use args.pg_dir (path_join dir "pg_install"))
                ∷ rust_log
                ∷ [];
            dry_run = args.dry_run;
          })
        ]

  pub get_xactserver : Result ControlError Tool
  unfolding find_binary
  get_xactserver =
      let dir = or_use args.xactserver_dir (or_default args.env_xactserver_dir ".") in
      elim (find_binary is_file absolute dir
        ("xactserver" ∷ "target/debug/xactserver" ∷ "target/release/xactserver" ∷ [])) [
          | none ↦ err no_xactserver
          | some bin ↦ ok (record {
            bin = bin;
            env = rust_log ∷ [];
            dry_run = if args.dry_run then true else args.no_xactserver;
          })
        ]

module _ (world : World) where
  -- `Neon.run`, in the directory of a region; it raises if that is not there.
  pub neon_run : Tool → Bool → String → List String → Cluster → Run
  neon_run neon check region args c =
      let event = run neon region args in
      if neon.dry_run then (ok tt, c) else elim (lookup region c.regions) [
        | none ↦ (err (no_directory region), c)
        | some r ↦ (
          if check && not (world.succeeds c.events event)
              then err (called_process event)
              else ok tt,
          record {
            regions =
                insert region (record r { neon = world.effect c.events event r.neon }) c.regions;
            events = c.events ++ event ∷ [];
          },
        )
      ]

  -- `XactServer.run`, which writes the id of the process to a file.
  pub xactserver_run : Tool → String → List String → Cluster → Run
  unfolding show
  xactserver_run xactserver region args c =
      let event = start xactserver region args in
      if xactserver.dry_run then (ok tt, c) else elim (lookup region c.regions) [
        | none ↦ (err (no_directory region), c)
        | some r ↦ (
          ok tt,
          record {
            regions =
                insert region (record r { pid_file = some (show (world.pid c.events event)) })
                  c.regions;
            events = c.events ++ event ∷ [];
          },
        )
      ]

-- The text of `xactserver.pid`, if the region and the file are there.
abbrev pub pid_text : Option Region → Option String
pid_text none = none
pid_text (some r) = r.pid_file

abbrev kill_pid : String → Option ℕ → Cluster → Run
kill_pid text none c = (err (bad_pid text), c)
kill_pid text (some pid) c = (ok tt, record c { events = c.events ++ kill pid ∷ [] })

-- `XactServer.stop`; a process that does not exist is skipped, and the file stays.
pub xactserver_stop : Tool → String → Cluster → Run
unfolding int
xactserver_stop xactserver region c =
    if xactserver.dry_run then (ok tt, c) else elim (pid_text (lookup region c.regions)) [
      | none ↦ (ok tt, c)
      | some text ↦ kill_pid text (int text) c
    ]
