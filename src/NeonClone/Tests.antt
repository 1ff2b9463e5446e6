-- ===== src/NeonClone/Tests.antt =====
-- A directory with two safekeepers, and the theorems at it.
use sunstorm_xactserver.Base.{ℕ, ◌≡◌, ◌≢◌, refl, some, [], ◌∷◌, map, arith, All, string_eq}
use sunstorm_xactserver.Base.Result.{ok}
use sunstorm_xactserver.Base.Split.{lacks}
use sunstorm_xactserver.Base.Text.{show}
use sunstorm_xactserver.NeonClone.{
  PageserverToml, Safekeeper, Dirs, NeonDir, edit_configs, sk_name, edit_safekeeper_ids,
}
use sunstorm_xactserver.NeonClone.Address.{
  address, new_host, moved_up, HasAddresses, edit_configs_lem,
}
use sunstorm_xactserver.NeonClone.Moves.{shifted, IsReady, DistinctIds, IsMoved}
use sunstorm_xactserver.NeonClone.Safekeepers.{
  InRange, edit_safekeeper_ids_lem, edit_safekeeper_ids_apart,
}

abbrev keeper : ℕ → Safekeeper
keeper id = record { id = id; http_port = 7676; pg_port = 5454 }

abbrev pageserver : PageserverToml
pageserver = record {
  listen_http_addr = "localhost:9898";
  listen_pg_addr = "localhost:64000";
  id = 1;
}

abbrev dirs : Dirs
dirs = ("sk1", ("safekeeper.id", "1") ∷ ("wal", "x") ∷ []) ∷ ("sk2", ("wal", "y") ∷ []) ∷ []

abbrev neon : NeonDir
neon = record {
  pageserver_toml = pageserver;
  config = record {
    pageserver = pageserver;
    xactserver_listen_pg_addr = "localhost:10000";
    safekeepers = keeper 1 ∷ keeper 2 ∷ [];
  };
  safekeepers = some dirs;
}

has_addresses : HasAddresses neon "localhost" 9898 64000 10000
unfolding lacks show
has_addresses = record { host_lacks = refl; http_addr = refl; pg_addr = refl; xact_addr = refl }

edit_configs_lem_example :
    let edited : PageserverToml = record {
      listen_http_addr = address (new_host (some "h") "localhost") 9900;
      listen_pg_addr = address (new_host (some "h") "localhost") 64002;
      id = 3;
    } in
    edit_configs 2 (some "h") neon ≡ (
      ok tt,
      record neon {
        pageserver_toml = edited;
        config = record {
          pageserver = edited;
          xactserver_listen_pg_addr = address (new_host (some "h") "localhost") 10002;
          safekeepers = map (moved_up 2) neon.config.safekeepers;
        };
      },
    )
edit_configs_lem_example =
    edit_configs_lem 2 (some "h") neon "localhost" 9898 64000 10000 has_addresses

distinct : DistinctIds neon.config.safekeepers
distinct = ((λ e. omega arith, tt), (tt, tt))

ready : All (IsReady 0 2 dirs) neon.config.safekeepers
unfolding sk_name string_eq
ready = (
  record {
    above = omega arith;
    below = omega arith;
    files = ("safekeeper.id", "1") ∷ ("wal", "x") ∷ [];
    has_files = refl;
    new_free = refl;
  },
  (
    record {
      above = omega arith;
      below = omega arith;
      files = ("wal", "y") ∷ [];
      has_files = refl;
      new_free = refl;
    },
    tt,
  ),
)

ready_second : All (IsReady 0 4 dirs) neon.config.safekeepers
unfolding sk_name string_eq
ready_second = (
  record {
    above = omega arith;
    below = omega arith;
    files = ("safekeeper.id", "1") ∷ ("wal", "x") ∷ [];
    has_files = refl;
    new_free = refl;
  },
  (
    record {
      above = omega arith;
      below = omega arith;
      files = ("wal", "y") ∷ [];
      has_files = refl;
      new_free = refl;
    },
    tt,
  ),
)

edit_safekeeper_ids_lem_example :
    (dirs' : Dirs) × (edit_safekeeper_ids 1 neon ≡ (
      ok tt,
      record neon {
        safekeepers = some dirs';
        config = record neon.config { safekeepers = map (shifted 2) neon.config.safekeepers };
      },
    ))
    × All (IsMoved 2 dirs dirs') neon.config.safekeepers
edit_safekeeper_ids_lem_example = edit_safekeeper_ids_lem 0 1 neon dirs refl distinct ready

in_range : All (InRange 0 2) neon.config.safekeepers
in_range = ((omega arith, omega arith), ((omega arith, omega arith), tt))

edit_safekeeper_ids_apart_example :
    All
      (λ sk. All (λ other. sk.id ≢ other.id) (edit_safekeeper_ids 2 neon).1.config.safekeepers)
      (edit_safekeeper_ids 1 neon).1.config.safekeepers
edit_safekeeper_ids_apart_example =
    edit_safekeeper_ids_apart 0 1 2 neon dirs (omega arith) in_range
      (record { there = refl; distinct = distinct; ready = ready })
      (record { there = refl; distinct = distinct; ready = ready_second })
