-- ===== src/NeonControl/Create.antt =====
-- The create command of tools/neonctl.py.
use sunstorm_xactserver.Base.{
  ℕ, suc, ◌+◌, ◌<>◌, String, Bool, true, Option, none, some, List, [], ◌∷◌, map, string_eq,
  if◌then◌else◌, eqb,
}
use sunstorm_xactserver.Base.Dict.{lookup, insert}
use sunstorm_xactserver.Base.Result.{Result, ok, err}
use sunstorm_xactserver.Base.Text.{show}
use sunstorm_xactserver.NeonClone.{NeonDir, Place, missing, directory, CloneError, clone_neon}
use sunstorm_xactserver.NeonControl.{
  Tool, clone_failed, World, Region, Cluster, Run, then_do, Arguments, get_neon, neon_run,
}
use sunstorm_xactserver.NeonControl.Commands.{
  enumerate_from, endpoint_pg_port, range_from, with_tool,
}

-- `[option, c]` for each `c`
abbrev pub with_option : String → List String → List String
with_option option [] = []
with_option option (c ∷ cs) = option ∷ c ∷ with_option option cs

abbrev pub place_of : Option Region → Place
place_of none = missing
place_of (some r) = directory r.neon

abbrev with_neon : Option NeonDir → Option Region → Region
with_neon neon none = record { neon = neon; pid_file = none }
with_neon neon (some r) = record r { neon = neon }

abbrev pub cloned : String → Result CloneError (Unit {0}) × Option NeonDir → Cluster → Run
cloned region (err e, none) c = (err (clone_failed e), c)
cloned region (err e, some neon) c = (
  err (clone_failed e),
  record c { regions = insert region (with_neon (some neon) (lookup region c.regions)) c.regions },
)
cloned region (ok _, neon) c = (
  ok tt,
  record c { regions = insert region (with_neon neon (lookup region c.regions)) c.regions },
)

module _ (world : World) where
  unfoldable pub branch_all : Tool → String → List (ℕ × String) → Cluster → Run
  unfolding neon_run show
  branch_all neon global [] c = (ok tt, c)
  branch_all neon global ((i, region) ∷ rest) c =
      if eqb i 0
      then branch_all neon global rest c
      else then_do
          (neon_run world neon true global
            ("timeline" ∷ "branch" ∷ "--branch-name" ∷ region ∷ "--region-id" ∷ show i ∷ []) c)
          (branch_all neon global rest)

module _ (args : Arguments) where
  -- `os.makedirs(dir, exist_ok=True)`
  unfoldable pub make_dir : String → Cluster → Cluster
  make_dir region c = if args.dry_run then c else elim (lookup region c.regions) [
    | none ↦ record c {
      regions = insert region (record { neon = none; pid_file = none }) c.regions;
    }
    | some _ ↦ c
  ]

  unfoldable pub region_names : List String
  unfolding show
  region_names = map (λ i. args.region_prefix <> show i) (range_from 0 (suc args.num_regions))

  unfoldable pub clone_one : String → ℕ → String → Cluster → Run
  unfolding make_dir clone_neon
  clone_one global i region c =
      if args.dry_run
      then (ok tt, c)
      else let c1 = make_dir region c in
        cloned region
          (clone_neon (place_of (lookup global c1.regions)) (place_of (lookup region c1.regions)) i
            none)
          c1

  unfoldable pub clone_all : String → List (ℕ × String) → Cluster → Run
  unfolding clone_one
  clone_all global [] c = (ok tt, c)
  clone_all global ((i, region) ∷ rest) c =
      if eqb i 0
      then clone_all global rest c
      else then_do (clone_one global i region c) (clone_all global rest)

  pub endpoint_create_args : ℕ → String → List String
  unfolding show
  endpoint_create_args i region =
      "endpoint"
      ∷ "create"
      ∷ region
      ∷ "--branch-name"
      ∷ region
      ∷ "--pg-port"
      ∷ show (endpoint_pg_port i)
      ∷ "--http-port"
      ∷ show (endpoint_pg_port i + 1)
      ∷ "--pg-version"
      ∷ args.pg_version
      ∷ []

module _ (world : World) (args : Arguments) where
  -- `init`, `start` and `tenant create` in the directory of the global region.
  unfoldable pub init_global : Tool → String → Cluster → Run
  unfolding neon_run make_dir
  init_global neon global c =
      then_do
        (neon_run world neon true global ("init" ∷ "--pg-version" ∷ args.pg_version ∷ [])
          (make_dir args global c))
        λ c1.
          then_do
            (neon_run world neon true global
              ("start" ∷ with_option "--pageserver-config-override" args.pageserver_config) c1)
            λ c2.
              neon_run world neon true global
                ("tenant"
                  ∷ "create"
                  ∷ "--set-default"
                  ∷ "--pg-version"
                  ∷ args.pg_version
                  ∷ with_option "-c" args.tenant_config)
                c2

  unfoldable pub endpoint_all : Tool → List (ℕ × String) → Cluster → Run
  unfolding neon_run endpoint_create_args
  endpoint_all neon [] c = (ok tt, c)
  endpoint_all neon ((i, region) ∷ rest) c =
      if eqb i 0
      then endpoint_all neon rest c
      else then_do (neon_run world neon true region (endpoint_create_args args i region) c)
          (endpoint_all neon rest)

module _ (is_file : String → Bool) (absolute : String → String) (world : World)
    (args : Arguments) where
  -- `CreateCommand.do_command`; the global region is the first name.
  unfoldable pub create : Cluster → Run
  unfolding init_global branch_all clone_all endpoint_all region_names get_neon show
  create c =
      let global = args.region_prefix <> show 0 in
      let regions = enumerate_from 0 (region_names args) in
      with_tool (get_neon is_file absolute args) c λ neon.
        then_do (init_global world args neon global c) λ c1.
          then_do (branch_all world neon global regions c1) λ c2.
            then_do
              (if args.keep_neon
                then (ok tt, c2)
                else neon_run world neon true global ("stop" ∷ []) c2)
              λ c3.
                then_do (clone_all args global regions c3)
                  λ c4. endpoint_all world args neon regions c4
