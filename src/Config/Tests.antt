-- ===== src/Config/Tests.antt =====
-- A configuration with three regions, and the theorems at it.
use sunstorm_xactserver.Base.{◌≡◌, ◌≢◌, refl, ◌⊎◌, String, none, some, List, [], ◌∷◌, string_eq}
use sunstorm_xactserver.Base.Dict.{NodupKeys, lookup}
use sunstorm_xactserver.Base.Result.{ok}
use sunstorm_xactserver.Config.{
  RegionInfo, MainConfig, NamespaceInfo, get_main_config, get_namespaces, global_context,
  region_context, get_context,
}
use sunstorm_xactserver.Config.Namespaces.{IsOfRegion, IsOfGlobal, lookup-get_namespaces}

abbrev east : RegionInfo
east = record {
  id = 1;
  context = none;
  target_address_and_database = some "db.east/x";
  warmup = some 5;
  benchbase_instances = none;
}

abbrev west : RegionInfo
west = record {
  id = 2;
  context = some "mine";
  target_address_and_database = none;
  warmup = none;
  benchbase_instances = some 3;
}

abbrev config : MainConfig
config = record {
  global_region = "hub";
  global_region_context = none;
  global_region_target_address_and_database = some none;
  regions = ("east", east) ∷ ("west", west) ∷ [];
}

abbrev contexts : List String
contexts = "eks-west" ∷ "eks-east" ∷ "eks-hub" ∷ []

found_east : get_context (get_main_config contexts config) "east" ≡ ok "eks-east"
unfolding get_context get_main_config global_context region_context string_eq
found_east = refl

distinct_regions : NodupKeys config.regions
unfolding string_eq
distinct_regions = (refl, (refl, tt))

lookup-get_namespaces_example :
    ((info : RegionInfo) × (n : NamespaceInfo) × (lookup "west" config.regions ≡ some info)
      × (lookup "west" (get_namespaces config) ≡ some n)
      × IsOfRegion "west" info n)
    ⊎ (((n : NamespaceInfo) × (lookup "west" config.regions ≡ none)
          × (◌≡◌ {A = String} "west" "global")
          × (lookup "west" (get_namespaces config) ≡ some n)
          × IsOfGlobal config n)
        ⊎ ((lookup "west" config.regions ≡ none)
            × (◌≢◌ {A = String} "west" "global")
            × (lookup "west" (get_namespaces config) ≡ none)))
lookup-get_namespaces_example = lookup-get_namespaces "west" config distinct_regions
