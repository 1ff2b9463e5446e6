-- ===== src/Deployment/Numbers.antt =====
-- The numbers that a deployment gives the namespaces, beside those that loading gives them
-- (tools/deploy.py and tools/benchmark.py).
use mathlib.Core.List.{append_assoc}
use sunstorm_xactserver.Base.{
  ℕ, suc, ◌≡◌, refl, sym, ◌∙◌, ap, subst, String, ◌<>◌, Bool, true, false, ◌||◌, some, List, [],
  ◌∷◌, ◌++◌, arith, All, length, length-append, contains, Distinct, ◌==◌, ==-refl, string_eq,
  Bool-cases, inl, inr,
}
use sunstorm_xactserver.Base.Dict.{Dict, insert, keys, insert-Distinct}
use sunstorm_xactserver.Base.Text.{show, join}
use sunstorm_xactserver.Config.{
  RegionInfo, NamespaceInfo, add_regions, region_namespace, get_namespaces, global_namespace,
}
use sunstorm_xactserver.Benchmark.{Task}
use sunstorm_xactserver.Benchmark.Operation.{
  Namespace, Operation, insert_by_id, sort_by_id, make_operation, is_chosen, target_setting,
  load_from, load_tasks, all_info_settings,
}
use sunstorm_xactserver.Deployment.{Event, World, Setup, run_command, context_flag}
use sunstorm_xactserver.Deployment.Neon.{
  index_of, ordered_namespaces, neon_settings, neon_command, deploy_neon_one_namespace,
}

add_regions-Distinct :
    (regions : Dict String RegionInfo) (ns : Dict String NamespaceInfo)
    → Distinct (keys ns)
    → Distinct (keys (add_regions regions ns))
unfolding add_regions
add_regions-Distinct [] ns d = d
add_regions-Distinct ((region, info) ∷ rest) ns d =
    add_regions-Distinct rest (insert region (region_namespace region info) ns)
      (insert-Distinct region (region_namespace region info) ns d)

contains-keys-insert_by_id :
    (k : String) (n : Namespace) (ns : List Namespace)
    → contains (keys (insert_by_id n ns)) k ≡ (k == n.0 || contains (keys ns) k)
unfolding insert_by_id
contains-keys-insert_by_id k n [] = refl
contains-keys-insert_by_id k n (m ∷ ns) = ground (arith, contains-keys-insert_by_id k n ns)

insert_by_id-Distinct :
    (n : Namespace) (ns : List Namespace)
    → contains (keys ns) n.0 ≡ false
    → Distinct (keys ns)
    → Distinct (keys (insert_by_id n ns))
unfolding insert_by_id
insert_by_id-Distinct n [] new d = (refl, tt)
insert_by_id-Distinct n (m ∷ ns) new (here, d) =
    ground (arith, insert_by_id-Distinct n ns, contains-keys-insert_by_id m.0 n ns)

contains-keys-sort_by_id :
    (k : String) (ns : List Namespace) → contains (keys (sort_by_id ns)) k ≡ contains (keys ns) k
unfolding sort_by_id
contains-keys-sort_by_id k [] = refl
contains-keys-sort_by_id k (n ∷ ns) =
    contains-keys-insert_by_id k n (sort_by_id ns)
    ∙ ap (λ b. k == n.0 || b) (contains-keys-sort_by_id k ns)

sort_by_id-Distinct : (ns : List Namespace) → Distinct (keys ns) → Distinct (keys (sort_by_id ns))
unfolding sort_by_id
sort_by_id-Distinct [] d = tt
sort_by_id-Distinct (n ∷ ns) (new, d) =
    insert_by_id-Distinct n (sort_by_id ns) (contains-keys-sort_by_id n.0 ns ∙ new)
      (sort_by_id-Distinct ns d)

-- The index of an item that does not stand before.
index_of-append :
    (before after : List String) (x : String)
    → contains before x ≡ false
    → index_of x (before ++ x ∷ after) ≡ some (length before)
unfolding index_of
index_of-append [] after x new = rw (==-refl x) refl
index_of-append (y ∷ before) after x new = ground (arith, index_of-append before after x)

contains_middle :
    (before after : List String) (x : String) → contains (before ++ x ∷ after) x ≡ true
contains_middle [] after x = rw (==-refl x) refl
contains_middle (y ∷ before) after x = ground (arith, contains_middle before after x)

not_before :
    (before after : List String) (x : String)
    → Distinct (before ++ x ∷ after)
    → contains before x ≡ false
not_before [] after x d = refl
not_before (y ∷ before) after x (new, d) =
    ground (arith, not_before before after x d, contains_middle before after x)

-- The Helm command that installs Neon in a namespace, with a number as the last of its settings.
abbrev installs : String → List String → ℕ → List String → List String
installs namespace sets i flags =
    "helm"
    ∷ "install"
    ∷ ("neon-" <> namespace)
    ∷ "--namespace"
    ∷ namespace
    ∷ "--set"
    ∷ join "," (sets ++ ("namespace_id=" <> show i) ∷ [])
    ∷ flags

-- A task of `Load` has the number with which the namespace is deployed.
abbrev pub IsDeployedAs : World → Setup → Operation → Task → Type 0
IsDeployedAs world setup op t =
    (i : ℕ) × (info : NamespaceInfo) × (t.sets
      ≡ op.settings
        ++ ("operation=load"
            ∷ "loadall=false"
            ∷ ("namespace_id=" <> show i)
            ∷ target_setting info.target_address_and_database))
    × (sets : List String) × (flags : List String) × ((dry_run : Bool) (events : List Event)
        → deploy_neon_one_namespace world setup dry_run (t.namespace, info) events
          ≡ run_command world (installs t.namespace sets i flags) dry_run true events)

module _ (world : World) (setup : Setup) where
  abbrev other_settings : List String
  other_settings =
      all_info_settings (get_namespaces setup.config)
      ++ ("ordered_namespaces={" <> (join "," (ordered_namespaces setup.config) <> "}")) ∷ []

  neon_command-installs :
      (namespace : String) (info : NamespaceInfo) (i : ℕ)
      → neon_command setup namespace info i
        ≡ installs namespace other_settings i
            ((setup.base <> "/helm-neon") ∷ context_flag setup.config info.region "--kube-context")
  unfolding neon_command neon_settings
  neon_command-installs namespace info i =
      rw
        (sym (
          append_assoc (all_info_settings (get_namespaces setup.config))
            (("ordered_namespaces={" <> (join "," (ordered_namespaces setup.config) <> "}")) ∷ [])
            (("namespace_id=" <> show i) ∷ [])))
        refl

  deploy-index_of :
      (namespace : String) (info : NamespaceInfo) (i : ℕ) (dry_run : Bool) (events : List Event)
      → index_of namespace (ordered_namespaces setup.config) ≡ some i
      → deploy_neon_one_namespace world setup dry_run (namespace, info) events
        ≡ run_command world
            (installs namespace other_settings i (
              (setup.base <> "/helm-neon")
              ∷ context_flag setup.config info.region "--kube-context"))
            dry_run
            true
            events
  unfolding deploy_neon_one_namespace
  deploy-index_of namespace info i dry_run events h =
      rw (h, deploy_neon_one_namespace)
        (ap (λ cmd. run_command world cmd dry_run true events)
          (neon_command-installs namespace info i))

  load_from-IsDeployedAs :
      (before : List String) (ns : List Namespace) (op : Operation) (regions : List String)
      → ordered_namespaces setup.config ≡ before ++ keys ns
      → Distinct (before ++ keys ns)
      → All (IsDeployedAs world setup op) (load_from (length before) ns op regions)
  unfolding load_from
  load_from-IsDeployedAs before [] op regions listed d = tt
  load_from-IsDeployedAs before ((namespace, info) ∷ rest) op regions listed d =
      let here : index_of namespace (ordered_namespaces setup.config) ≡ some (length before) =
        ap (index_of namespace) listed
        ∙ index_of-append before (keys rest) namespace
            (not_before before (keys rest) namespace d) in
      let later : All (IsDeployedAs world setup op)
          (load_from (suc (length before)) rest op regions) =
        subst (λ i. All (IsDeployedAs world setup op) (load_from i rest op regions))
          (length-append before (namespace ∷ []) ∙ omega arith)
          (load_from-IsDeployedAs (before ++ namespace ∷ []) rest op regions
            (listed ∙ sym (append_assoc before (namespace ∷ []) (keys rest)))
            (subst Distinct (sym (append_assoc before (namespace ∷ []) (keys rest))) d)) in
      elim (Bool-cases (is_chosen regions info.region)) [
        | inr e ↦ rw (e, load_from) later
        | inl e ↦
            rw (e, load_from)
              (
                (
                  length before,
                  info,
                  refl,
                  other_settings,
                  _,
                  λ dry_run events.
                      deploy-index_of namespace info (length before) dry_run events here,
                ),
                later,
              )
      ]

-- Whatever the regions that are chosen, each task of `Load` has as its `namespace_id` the number
-- that ends the settings with which the deployment's Helm command installs Neon in that namespace.
pub load_tasks-IsDeployedAs :
    (world : World) (setup : Setup) (given regions : List String)
    → let op = make_operation setup.config given in
      All (IsDeployedAs world setup op) (load_tasks op regions)
unfolding load_tasks make_operation ordered_namespaces get_namespaces
load_tasks-IsDeployedAs world setup given regions =
    load_from-IsDeployedAs world setup [] (sort_by_id (get_namespaces setup.config))
      (make_operation setup.config given) regions refl
      (sort_by_id-Distinct (get_namespaces setup.config) (
        add_regions-Distinct setup.config.regions (("global", global_namespace setup.config) ∷ [])
          (refl, tt)))
