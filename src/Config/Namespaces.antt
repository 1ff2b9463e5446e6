-- ===== src/Config/Namespaces.antt =====
-- The namespaces that `get_namespaces` of tools/utils.py makes of a configuration.
use sunstorm_xactserver.Base.{
  ℕ, ◌≡◌, ◌≢◌, refl, ◌∙◌, ◌⊎◌, inl, inr, String, Option, none, some, [], ◌∷◌, arith, ◌==◌,
  string_eq, Bool-cases, Option-cases,
}
use sunstorm_xactserver.Base.Dict.{Dict, lookup, insert, NodupKeys, lookup-insert}
use sunstorm_xactserver.Config.{
  RegionInfo, MainConfig, NamespaceInfo, flatten, with_default, global_namespace, region_namespace,
  add_regions, get_namespaces,
}

-- The namespace of a region, or what was there.
abbrev with_regions : String → Dict String RegionInfo → Option NamespaceInfo → Option NamespaceInfo
with_regions ns regions old = elim (lookup ns regions) [
  | none ↦ old
  | some info ↦ some (region_namespace ns info)
]

lookup-add_regions :
    (ns : String) (regions : Dict String RegionInfo) (namespaces : Dict String NamespaceInfo)
    → NodupKeys regions
    → lookup ns (add_regions regions namespaces) ≡ with_regions ns regions (lookup ns namespaces)
unfolding add_regions
lookup-add_regions ns [] namespaces u = refl
lookup-add_regions ns ((region, info) ∷ rest) namespaces (new, u) = ground (
  arith,
  lookup-add_regions ns rest (insert region (region_namespace region info) namespaces) u,
  lookup-insert ns region (region_namespace region info) namespaces,
)

-- The namespace of a region: its name, id and target, and what is given of the counts or else the
-- defaults.
pub record IsOfRegion (region : String) (info : RegionInfo) (n : NamespaceInfo) : Type 0 where
  same_region : n.region ≡ region
  same_id : n.id ≡ info.id
  same_target : n.target_address_and_database ≡ info.target_address_and_database
  warmup_or_default : (info.warmup ≡ some n.warmup) ⊎ ((info.warmup ≡ none) × (n.warmup ≡ 0))
  instances_or_default :
      (info.benchbase_instances ≡ some n.benchbase_instances)
      ⊎ ((info.benchbase_instances ≡ none) × (n.benchbase_instances ≡ 1))

-- The namespace of the global region: the id 0, the target if one is given and not null, no warmup
-- and one instance.
pub record IsOfGlobal (config : MainConfig) (n : NamespaceInfo) : Type 0 where
  same_region : n.region ≡ config.global_region
  no_id : n.id ≡ 0
  same_target :
      (config.global_region_target_address_and_database ≡ some n.target_address_and_database)
      ⊎ ((config.global_region_target_address_and_database ≡ none)
          × (n.target_address_and_database ≡ none))
  no_warmup : n.warmup ≡ 0
  one_instance : n.benchbase_instances ≡ 1

given_or :
    (given : Option ℕ) (d : ℕ)
    → (given ≡ some (with_default given d)) ⊎ ((given ≡ none) × (with_default given d ≡ d))
given_or none d = inr (refl, refl)
given_or (some n) d = inl refl

given_target :
    (target : Option (Option String))
    → (target ≡ some (flatten target)) ⊎ ((target ≡ none) × (flatten target ≡ none))
given_target none = inr (refl, refl)
given_target (some t) = inl refl

-- No region is listed twice. A name is that of a region, and then its namespace has the region's
-- name, its id and its target, and the defaults 0 and 1 for the counts that are not given; or it is
-- `global` and no region's, and then its namespace is that of the global region, with the id 0; or
-- there is no namespace of this name.
pub lookup-get_namespaces :
    (ns : String) (config : MainConfig)
    → NodupKeys config.regions
    → ((info : RegionInfo) × (n : NamespaceInfo) × (lookup ns config.regions ≡ some info)
        × (lookup ns (get_namespaces config) ≡ some n)
        × IsOfRegion ns info n)
      ⊎ (((n : NamespaceInfo) × (lookup ns config.regions ≡ none)
            × (ns ≡ "global")
            × (lookup ns (get_namespaces config) ≡ some n)
            × IsOfGlobal config n)
          ⊎ ((lookup ns config.regions ≡ none)
              × (ns ≢ "global")
              × (lookup ns (get_namespaces config) ≡ none)))
unfolding get_namespaces
lookup-get_namespaces ns config u =
    let same = lookup-add_regions ns config.regions (("global", global_namespace config) ∷ []) u in
    elim (Option-cases (lookup ns config.regions)) [
      | inr (info, e) ↦ inl (
        info,
        region_namespace ns info,
        e,
        same ∙ rw (e, with_regions) refl,
        record {
          same_region = refl;
          same_id = refl;
          same_target = refl;
          warmup_or_default = given_or info.warmup 0;
          instances_or_default = given_or info.benchbase_instances 1;
        },
      )
      | inl e ↦ elim (Bool-cases (ns == "global")) [
        | inl g ↦ inr (
            inl (
              global_namespace config,
              e,
              ground (arith, g),
              same ∙ rw (e, with_regions, g) refl,
              record {
                same_region = refl;
                no_id = refl;
                same_target = given_target config.global_region_target_address_and_database;
                no_warmup = refl;
                one_instance = refl;
              },
            ))
        | inr g ↦ inr (inr (e, ground (arith, g), same ∙ rw (e, with_regions, g) refl))
      ]
    ]
