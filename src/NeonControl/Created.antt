-- ===== src/NeonControl/Created.antt =====
-- The regions that `create` leaves, and their numbers when they start (tools/neonctl.py).
use sunstorm_xactserver.Base.{
  ℕ, suc, ◌≤◌, ◌≡◌, refl, ◌∙◌, ap, String, Bool, true, false, List, [], ◌∷◌, ◌++◌, map, arith, eqb,
  string_eq, if◌then◌else◌,
}
use sunstorm_xactserver.Base.Dict.{lookup, keys}
use sunstorm_xactserver.Base.Result.{ok}
use sunstorm_xactserver.Base.Text.{show}
use sunstorm_xactserver.NeonControl.{Tool, World, Cluster, then_do, Arguments, neon_run, get_neon}
use sunstorm_xactserver.NeonControl.Names.{name, region_names_sorted}
use sunstorm_xactserver.NeonControl.Keys.{
  KeepsKeys, then_do-KeepsKeys, neon_run-KeepsKeys, if-KeepsKeys,
}
use sunstorm_xactserver.NeonControl.Commands.{sort_names, get_regions_in_root_dir, range_from}
use sunstorm_xactserver.NeonControl.Create.{
  make_dir, region_names, clone_all, create, branch_all, endpoint_all, endpoint_create_args,
  init_global, with_option,
}
use sunstorm_xactserver.NeonControl.Cloned.{
  WhenOk, then_do-WhenOk, with_tool-WhenOk, make_dir-new, names_from, clone_all-keys,
}

branch_all-KeepsKeys :
    (world : World) (neon : Tool) (global : String) (regions : List (ℕ × String)) (c : Cluster)
    → KeepsKeys c (branch_all world neon global regions c)
unfolding branch_all
branch_all-KeepsKeys world neon global [] c = refl
branch_all-KeepsKeys world neon global ((i, region) ∷ rest) c =
    let line = "timeline" ∷ "branch" ∷ "--branch-name" ∷ region ∷ "--region-id" ∷ show i ∷ [] in
    if-KeepsKeys c (eqb i 0) (branch_all world neon global rest c)
      (then_do (neon_run world neon true global line c) (branch_all world neon global rest))
      (branch_all-KeepsKeys world neon global rest c)
      (then_do-KeepsKeys c (neon_run world neon true global line c)
        (branch_all world neon global rest) (neon_run-KeepsKeys world neon true global line c)
        (branch_all-KeepsKeys world neon global rest))

endpoint_all-KeepsKeys :
    (world : World) (args : Arguments) (neon : Tool) (regions : List (ℕ × String)) (c : Cluster)
    → KeepsKeys c (endpoint_all world args neon regions c)
unfolding endpoint_all
endpoint_all-KeepsKeys world args neon [] c = refl
endpoint_all-KeepsKeys world args neon ((i, region) ∷ rest) c =
    let line = endpoint_create_args args i region in
    if-KeepsKeys c (eqb i 0) (endpoint_all world args neon rest c)
      (then_do (neon_run world neon true region line c) (endpoint_all world args neon rest))
      (endpoint_all-KeepsKeys world args neon rest c)
      (then_do-KeepsKeys c (neon_run world neon true region line c)
        (endpoint_all world args neon rest) (neon_run-KeepsKeys world neon true region line c)
        (endpoint_all-KeepsKeys world args neon rest))

init_global-keys :
    (world : World) (args : Arguments) (neon : Tool) (global : String) (c : Cluster)
    → args.dry_run ≡ false
    → c.regions ≡ []
    → keys (init_global world args neon global c).1.regions ≡ global ∷ []
unfolding init_global
init_global-keys world args neon global c live empty =
    let c0 = make_dir args global c in
    let start_line = "start" ∷ with_option "--pageserver-config-override" args.pageserver_config in
    let tenant_line =
      "tenant"
      ∷ "create"
      ∷ "--set-default"
      ∷ "--pg-version"
      ∷ args.pg_version
      ∷ with_option "-c" args.tenant_config in
    then_do-KeepsKeys c0
      (neon_run world neon true global ("init" ∷ "--pg-version" ∷ args.pg_version ∷ []) c0)
      (λ c1.
        then_do (neon_run world neon true global start_line c1)
          (neon_run world neon true global tenant_line))
      (neon_run-KeepsKeys world neon true global ("init" ∷ "--pg-version" ∷ args.pg_version ∷ [])
        c0)
      (λ c1.
        then_do-KeepsKeys c1 (neon_run world neon true global start_line c1)
          (neon_run world neon true global tenant_line)
          (neon_run-KeepsKeys world neon true global start_line c1)
          (neon_run-KeepsKeys world neon true global tenant_line))
    ∙ (make_dir-new args global c live (ap (lookup global) empty)).0
    ∙ ap (λ d. keys d ++ global ∷ []) empty

module _ (is_file : String → Bool) (absolute : String → String) (world : World)
    (args : Arguments) where
  create-keys :
      (c : Cluster)
      → args.dry_run ≡ false
      → c.regions ≡ []
      → WhenOk (λ c'. keys c'.regions ≡ region_names args) (create is_file absolute world args c)
  unfolding create region_names
  create-keys c live empty =
      let global = name args.region_prefix 0 in
      let regions = names_from args 0 (suc args.num_regions) in
      let Names : List String → Cluster → Type 0 = λ ks c'. keys c'.regions ≡ ks in
      let One = Names (global ∷ []) in
      let All = Names (region_names args) in
      with_tool-WhenOk All (get_neon is_file absolute args) c _ λ neon.
        then_do-WhenOk One All (init_global world args neon global c) _
          (λ _. init_global-keys world args neon global c live empty)
          λ c1 h1.
            then_do-WhenOk One All (branch_all world neon global regions c1) _
              (λ _. branch_all-KeepsKeys world neon global regions c1 ∙ h1)
              λ c2 h2.
                then_do-WhenOk One All
                  (if args.keep_neon
                    then (ok tt, c2)
                    else neon_run world neon true global ("stop" ∷ []) c2)
                  _
                  (λ _.
                    if-KeepsKeys c2 args.keep_neon (ok tt, c2)
                      (neon_run world neon true global ("stop" ∷ []) c2) refl
                      (neon_run-KeepsKeys world neon true global ("stop" ∷ []) c2)
                    ∙ h2)
                  λ c3 h3.
                    then_do-WhenOk All All (clone_all args global regions c3) _
                      (λ good.
                        clone_all-keys args global 1 args.num_regions c3 live (omega arith) h3 good
                        ∙ ap (λ n. map (name args.region_prefix) (range_from 0 n))
                            {y = suc args.num_regions} (omega arith))
                      λ c4 h4 _. endpoint_all-KeepsKeys world args neon regions c4 ∙ h4

  -- After a `create` in an empty directory that raises nothing, with nine regions at most beside
  -- the global one, the regions are listed, and so numbered and given their ports by `start`, in
  -- the order in which `create` numbered them, whatever the prefix of their names.
  pub create-listed :
      (c : Cluster)
      → args.dry_run ≡ false
      → args.num_regions ≤ 9
      → c.regions ≡ []
      → (create is_file absolute world args c).0 ≡ ok tt
      → get_regions_in_root_dir (create is_file absolute world args c).1 ≡ region_names args
  unfolding get_regions_in_root_dir
  create-listed c live few empty good =
      ap sort_names (create-keys c live empty good) ∙ region_names_sorted args few
