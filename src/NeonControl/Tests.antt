-- ===== src/NeonControl/Tests.antt =====
-- A cluster of two regions, and the theorems at it.
use sunstorm_xactserver.Base.{
  ℕ, ◌+◌, ◌≡◌, ◌≢◌, refl, String, Bool, true, false, none, some, List, [], ◌∷◌, ◌++◌, arith, length,
  get_elem?, string_eq, Distinct, contains,
}
use sunstorm_xactserver.Base.Dict.{lookup}
use sunstorm_xactserver.Base.Result.{ok}
use sunstorm_xactserver.NeonClone.{NeonDir}
use sunstorm_xactserver.NeonControl.{Tool, kill, World, Region, Cluster, Arguments, xactserver_stop}
use sunstorm_xactserver.NeonControl.Commands.{
  get_regions_in_root_dir, sort_names, start_xactservers, stop_xactservers, stop_all_regions,
  destroy,
}
use sunstorm_xactserver.NeonControl.Create.{region_names, create}
use sunstorm_xactserver.NeonControl.Created.{create-listed}
use sunstorm_xactserver.NeonControl.Destroy.{destroy_lem}
use sunstorm_xactserver.NeonControl.Processes.{names, stop_xactservers-start_xactservers}

abbrev keep_all : String → Bool
keep_all _ = true

abbrev same_path : String → String
same_path path = path

abbrev neon : NeonDir
neon = record {
  pageserver_toml = record {
    listen_http_addr = "127.0.0.1:9898";
    listen_pg_addr = "127.0.0.1:64000";
    id = 1;
  };
  config = record {
    pageserver = record {
      listen_http_addr = "127.0.0.1:9898";
      listen_pg_addr = "127.0.0.1:64000";
      id = 1;
    };
    xactserver_listen_pg_addr = "127.0.0.1:10000";
    safekeepers = record { id = 1; http_port = 7676; pg_port = 5454 } ∷ [];
  };
  safekeepers = some (("sk1", ("wal", "x") ∷ []) ∷ []);
}

-- Every program succeeds, and the first one writes the `.neon` directory.
abbrev world : World
world = record {
  succeeds = λ _ _. true;
  effect = λ _ _ _. some neon;
  pid = λ events _. 100 + length events;
}

abbrev args : Arguments
args = record {
  neon_dir = none;
  pg_dir = none;
  xactserver_dir = none;
  env_neon_dir = none;
  env_xactserver_dir = none;
  env_rust_log = none;
  dry_run = false;
  no_xactserver = false;
  valgrind = false;
  keep_neon = false;
  pg_version = "14";
  region_prefix = "r";
  valgrind_supp = "valgrind.supp";
  num_regions = 1;
  pageserver_config = [];
  tenant_config = [];
}

abbrev tool : Tool
tool = record { bin = "xactserver"; env = []; dry_run = false }

abbrev fresh : Region
fresh = record { neon = some neon; pid_file = none }

abbrev two : Cluster
two = record { regions = ("r1", fresh) ∷ ("r0", fresh) ∷ []; events = [] }

abbrev numbered : List (ℕ × String)
numbered = (0, "r0") ∷ (1, "r1") ∷ []

distinct : Distinct (names numbered)
unfolding string_eq
distinct = (refl, (refl, tt))

there : (k : String) → contains (names numbered) k ≡ true → lookup k two.regions ≢ none
there k h = ground arith

stop_xactservers-start_xactservers_example :
    let c' = (start_xactservers world tool 2 numbered two).1 in
    ((start_xactservers world tool 2 numbered two).0 ≡ ok tt)
    × (stop_xactservers tool ("r0" ∷ "r1" ∷ []) c'
        ≡ (ok tt, record c' { events = c'.events ++ kill 100 ∷ kill 101 ∷ [] }))
stop_xactservers-start_xactservers_example =
    stop_xactservers-start_xactservers world tool 2 numbered two refl distinct there

destroy_lem_example :
    let (result, c1) = stop_all_regions keep_all same_path world args two in
    (result ≡ ok tt
      → destroy keep_all same_path world args two ≡ (ok tt, record c1 { regions = [] }))
    × (result ≢ ok tt → destroy keep_all same_path world args two ≡ (result, c1))
unfolding string_eq
destroy_lem_example = destroy_lem keep_all same_path world args two refl distinct

created : (create keep_all same_path world args (record { regions = []; events = [] })).0 ≡ ok tt
unfolding create string_eq
created = refl

create-listed_example :
    get_regions_in_root_dir
      (create keep_all same_path world args (record { regions = []; events = [] })).1
    ≡ "r0" ∷ "r1" ∷ []
unfolding region_names
create-listed_example =
    create-listed keep_all same_path world args (record { regions = []; events = [] }) refl
      (omega arith) refl created

-- With ten regions beside the global one, the region that `create` numbers 10 is started as
-- number 2.
eleven_regions :
    get_elem? (sort_names (region_names (record args { num_regions = 10 }))) 2 ≡ some "r10"
unfolding region_names sort_names
eleven_regions = refl

-- A second `stop` sends a second signal to the process that the file names.
stopped_twice :
    let c =
      (xactserver_stop tool "r"
        (record { regions = ("r", record fresh { pid_file = some "7" }) ∷ []; events = [] })).1 in
    (xactserver_stop tool "r" c).1.events ≡ kill 7 ∷ kill 7 ∷ []
unfolding xactserver_stop string_eq
stopped_twice = refl
