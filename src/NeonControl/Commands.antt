-- ===== src/NeonControl/Commands.antt =====
-- The commands of tools/neonctl.py: start, stop and destroy.
use sunstorm_xactserver.Base.{
  ℕ, zero, suc, ◌+◌, ◌*◌, ◌<>◌, String, Bool, true, false, none, some, List, [], ◌∷◌, map, length,
  string_eq, if◌then◌else◌,
}
use sunstorm_xactserver.Base.Dict.{keys, lookup, erase}
use sunstorm_xactserver.Base.Result.{Result, ok, err}
use sunstorm_xactserver.Base.Text.{show, join, comes_after}
use sunstorm_xactserver.NeonControl.{
  Tool, ControlError, no_directory, World, Cluster, Run, then_do, Arguments, get_neon,
  get_xactserver, neon_run, xactserver_run, xactserver_stop,
}

unfoldable pub insert_name : String → List String → List String
unfolding comes_after
insert_name name [] = name ∷ []
insert_name name (x ∷ xs) =
    let rest = insert_name name xs in if comes_after name x then x ∷ rest else name ∷ x ∷ xs

-- `sorted(names)`
unfoldable pub sort_names : List String → List String
unfolding insert_name
sort_names [] = []
sort_names (name ∷ names) = insert_name name (sort_names names)

unfoldable pub get_regions_in_root_dir : Cluster → List String
unfolding sort_names
get_regions_in_root_dir c = sort_names (keys c.regions)

-- `enumerate`, from a number on
abbrev pub enumerate_from : ℕ → List String → List (ℕ × String)
enumerate_from i [] = []
enumerate_from i (x ∷ xs) = (i, x) ∷ enumerate_from (suc i) xs

-- The ports of the region with a number.
abbrev listen_pg_port : ℕ → ℕ
listen_pg_port i = 10000 + i

abbrev listen_http_port : ℕ → ℕ
listen_http_port i = 8080 + i

abbrev listen_peer_port : ℕ → ℕ
listen_peer_port i = 23000 + i

abbrev pub endpoint_pg_port : ℕ → ℕ
endpoint_pg_port i = 55432 + 2 * i

-- `range(i, i + n)`
abbrev pub range_from : ℕ → ℕ → List ℕ
range_from i zero = []
range_from i (suc n) = i ∷ range_from (suc i) n

xactserver_nodes : ℕ → String
unfolding show
xactserver_nodes n =
    join "," (map (λ i. "http://localhost:" <> show (listen_peer_port i)) (range_from 0 n))

-- The arguments of the xactserver of the region with a number.
pub xactserver_args : ℕ → ℕ → List String
unfolding show xactserver_nodes
xactserver_args n i =
    "--node-id"
    ∷ show i
    ∷ "--listen-pg"
    ∷ ("127.0.0.1:" <> show (listen_pg_port i))
    ∷ "--connect-pg"
    ∷ ("postgresql://cloud_admin@localhost:" <> (show (endpoint_pg_port i) <> "/postgres"))
    ∷ "--nodes"
    ∷ xactserver_nodes n
    ∷ "--listen-http"
    ∷ ("127.0.0.1:" <> show (listen_http_port i))
    ∷ "--listen-peer"
    ∷ ("0.0.0.0:" <> show (listen_peer_port i))
    ∷ []

abbrev endpoint_start_args : Arguments → String → List String
endpoint_start_args args region =
    "endpoint"
    ∷ "start"
    ∷ region
    ∷ "--pg-version"
    ∷ args.pg_version
    ∷ (if args.valgrind
        then "--valgrind"
          ∷ join " " (
              "valgrind"
              ∷ "--leak-check=no"
              ∷ "--error-markers=VALGRINDERROR-BEGIN,VALGRINDERROR-END"
              ∷ ("--suppressions=" <> args.valgrind_supp)
              ∷ "--trace-children=yes"
              ∷ "--time-stamp=yes"
              ∷ [])
          ∷ []
        else [])

abbrev pub with_tool : Result ControlError Tool → Cluster → (Tool → Run) → Run
with_tool (err e) c next = (err e, c)
with_tool (ok tool) c next = next tool

unfoldable pub stop_xactservers : Tool → List String → Cluster → Run
unfolding xactserver_stop
stop_xactservers xactserver [] c = (ok tt, c)
stop_xactservers xactserver (region ∷ rest) c =
    then_do (xactserver_stop xactserver region c) (stop_xactservers xactserver rest)

module _ (world : World) where
  -- `n` is the number of all regions.
  unfoldable pub start_xactservers : Tool → ℕ → List (ℕ × String) → Cluster → Run
  unfolding xactserver_run xactserver_args
  start_xactservers xactserver n [] c = (ok tt, c)
  start_xactservers xactserver n ((i, region) ∷ rest) c =
      then_do (xactserver_run world xactserver region (xactserver_args n i) c)
        (start_xactservers xactserver n rest)

  unfoldable pub stop_neon : Tool → List String → Cluster → Run
  unfolding neon_run
  stop_neon neon [] c = (ok tt, c)
  stop_neon neon (region ∷ rest) c =
      then_do (neon_run world neon false region ("stop" ∷ []) c) (stop_neon neon rest)

module _ (args : Arguments) where
  -- `shutil.rmtree`, which raises if the directory is not there
  unfoldable pub remove_all : List String → Cluster → Run
  remove_all [] c = (ok tt, c)
  remove_all (region ∷ rest) c =
      if args.dry_run then remove_all rest c else elim (lookup region c.regions) [
        | none ↦ (err (no_directory region), c)
        | some _ ↦ remove_all rest (record c { regions = erase region c.regions })
      ]

module _ (world : World) (args : Arguments) where
  start_neon : Tool → List String → Cluster → Run
  unfolding neon_run
  start_neon neon [] c = (ok tt, c)
  start_neon neon (region ∷ rest) c =
      then_do (neon_run world neon true region ("start" ∷ []) c) λ c1.
        then_do (neon_run world neon true region (endpoint_start_args args region) c1)
          (start_neon neon rest)

module _ (is_file : String → Bool) (absolute : String → String) (world : World)
    (args : Arguments) where
  unfoldable start_all_regions : Cluster → Run
  unfolding start_neon start_xactservers get_regions_in_root_dir get_neon get_xactserver
  start_all_regions c =
      let regions = get_regions_in_root_dir c in
      with_tool (get_neon is_file absolute args) c λ neon.
        then_do (start_neon world args neon regions c) λ c1.
          with_tool (get_xactserver is_file absolute args) c1 λ xactserver.
            start_xactservers world xactserver (length regions) (enumerate_from 0 regions) c1

  unfoldable pub stop_all_regions : Cluster → Run
  unfolding stop_xactservers stop_neon get_regions_in_root_dir get_neon get_xactserver
  stop_all_regions c =
      let regions = get_regions_in_root_dir c in
      then_do
        (if args.no_xactserver
          then (ok tt, c)
          else with_tool (get_xactserver is_file absolute args) c
              λ xactserver. stop_xactservers xactserver regions c)
        λ c1. with_tool (get_neon is_file absolute args) c1 λ neon. stop_neon world neon regions c1

  -- `DestroyCommand.do_command`
  unfoldable pub destroy : Cluster → Run
  unfolding stop_all_regions remove_all get_regions_in_root_dir
  destroy c = then_do (stop_all_regions c) λ c1. remove_all args (get_regions_in_root_dir c1) c1
