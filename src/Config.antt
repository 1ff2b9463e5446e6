-- ===== src/Config.antt =====
-- tools/utils.py: the deployment's configuration, its namespaces and the Kubernetes contexts.
-- `main.yaml` and the list of contexts of the kube config come in as values; ids and counts are
-- natural numbers.
pub mod Context
pub mod Namespaces
mod Tests
use sunstorm_xactserver.Base.{
  ℕ, String, Bool, true, false, Option, none, some, List, [], ◌∷◌, ◌==◌, string_eq, if◌then◌else◌,
}
use sunstorm_xactserver.Base.Dict.{Dict, lookup, insert, or_else}
use sunstorm_xactserver.Base.Result.{Result, ok, err}
use sunstorm_xactserver.Base.Text.{includes}

-- One entry of `regions`; a key that the file leaves out is `none`.
pub record RegionInfo : Type 0 where
  pub id : ℕ
  pub context : Option String
  pub target_address_and_database : Option String
  pub warmup : Option ℕ
  pub benchbase_instances : Option ℕ

-- `main_config`; without `regions` the dict is empty. The target of the global region may be left
-- out, which is the outer `none`, or be null, which is the inner one.
pub record MainConfig : Type 0 where
  pub global_region : String
  pub global_region_context : Option String
  pub global_region_target_address_and_database : Option (Option String)
  pub regions : Dict String RegionInfo

pub record NamespaceInfo : Type 0 where
  pub region : String
  pub id : ℕ
  pub target_address_and_database : Option String
  pub warmup : ℕ
  pub benchbase_instances : ℕ

-- A failure of `Kube.get_context`: a `KeyError`, or the exception that it raises.
pub data ContextError : Type 0 where
  unknown_region no_context : String → ContextError

-- `find_context`: the first context whose name has the region's name in it.
pub find_context : List String → String → Option String
unfolding includes
find_context [] region = none
find_context (ctx ∷ rest) region =
    let later = find_context rest region in if includes ctx region then some ctx else later

-- The loop over the regions, which fills in the contexts that are not given.
pub fill_contexts : List String → Dict String RegionInfo → Dict String RegionInfo
unfolding find_context
fill_contexts contexts [] = []
fill_contexts contexts ((region, info) ∷ rest) =
    (region, record info { context = or_else info.context (find_context contexts region) })
    ∷ fill_contexts contexts rest

pub get_main_config : List String → MainConfig → MainConfig
unfolding fill_contexts
get_main_config contexts config = record config {
  global_region_context =
      or_else config.global_region_context (find_context contexts config.global_region);
  regions = fill_contexts contexts config.regions;
}

-- `config.get(key)` of a value that may be null
abbrev pub flatten {ℓ} : {A : Type ℓ} → Option (Option A) → Option A
flatten none = none
flatten (some value) = value

abbrev pub with_default : Option ℕ → ℕ → ℕ
with_default none d = d
with_default (some n) d = n

abbrev pub global_namespace : MainConfig → NamespaceInfo
global_namespace config = record {
  region = config.global_region;
  id = 0;
  target_address_and_database = flatten config.global_region_target_address_and_database;
  warmup = 0;
  benchbase_instances = 1;
}

abbrev pub region_namespace : String → RegionInfo → NamespaceInfo
region_namespace region info = record {
  region = region;
  id = info.id;
  target_address_and_database = info.target_address_and_database;
  warmup = with_default info.warmup 0;
  benchbase_instances = with_default info.benchbase_instances 1;
}

unfoldable pub add_regions :
    Dict String RegionInfo → Dict String NamespaceInfo → Dict String NamespaceInfo
add_regions [] namespaces = namespaces
add_regions ((region, info) ∷ rest) namespaces =
    add_regions rest (insert region (region_namespace region info) namespaces)

-- The global namespace first, and then one for each region.
unfoldable pub get_namespaces : MainConfig → Dict String NamespaceInfo
unfolding add_regions
get_namespaces config = add_regions config.regions (("global", global_namespace config) ∷ [])

abbrev pub or_no_context : String → Option String → Result ContextError String
or_no_context region none = err (no_context region)
or_no_context region (some context) = ok context

-- The second half of `Kube.get_context`: `regions[region]["context"]`.
unfoldable pub region_context : MainConfig → String → Result ContextError String
region_context config region = elim (lookup region config.regions) [
  | none ↦ err (unknown_region region)
  | some info ↦ or_no_context region info.context
]

-- The first half: the context of the global region, if the region is that one.
unfoldable pub global_context : MainConfig → String → Option String
global_context config region =
    if region == config.global_region then config.global_region_context else none

-- `Kube.get_context` for a config that `get_main_config` has returned.
unfoldable pub get_context : MainConfig → String → Result ContextError String
get_context config region = elim (global_context config region) [
  | some context ↦ ok context
  | none ↦ region_context config region
]
