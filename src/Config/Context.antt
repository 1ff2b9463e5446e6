-- ===== src/Config/Context.antt =====
-- Where the context of a region comes from (tools/utils.py).
use mathlib.Core.Bool.{or-true}
use mathlib.Core.Option.{some-injective}
use sunstorm_xactserver.Base.{
  ◌≡◌, refl, sym, ◌∙◌, ap, subst, ◌⊎◌, String, true, Option, none, some, List, [], ◌∷◌, arith,
  contains, ◌==◌, ==-refl, string_eq, Bool-cases, Option-cases, inl, inr,
}
use sunstorm_xactserver.Base.Dict.{Dict, lookup, or_else}
use sunstorm_xactserver.Base.Result.{ok, ok-injective}
use sunstorm_xactserver.Base.Text.{includes}
use sunstorm_xactserver.Config.{
  RegionInfo, MainConfig, find_context, fill_contexts, get_main_config, or_no_context,
  region_context, global_context, get_context,
}

-- A context that is found is one of those given, and it has the region's name in it.
find_context_found :
    (contexts : List String) (region : String) {c : String}
    → find_context contexts region ≡ some c
    → (contains contexts c ≡ true) × (includes c region ≡ true)
unfolding find_context
find_context_found [] region h = absurd (cc)
find_context_found (ctx ∷ rest) region {c} h = elim (Bool-cases (includes ctx region)) [
  | inl e ↦
      let same : ctx ≡ c = some-injective ctx c (rw (e, find_context) at h) in
      rw (← same) (rw (==-refl ctx) refl, e)
  | inr e ↦
      let (listed, named) = find_context_found rest region (rw (e, find_context) at h) in
      (rw listed (or-true _), named)
]

-- A region whose name some context has in it gets a context.
find_context_total :
    (contexts : List String) (region ctx : String)
    → contains contexts ctx ≡ true
    → includes ctx region ≡ true
    → (c : String) × (find_context contexts region ≡ some c)
unfolding find_context
find_context_total [] region ctx listed named = absurd (cc)
find_context_total (first ∷ rest) region ctx listed named =
    elim (Bool-cases (includes first region)) [
      | inl e ↦ (first, rw (e, find_context))
      | inr e ↦
          let (c, found) =
            find_context_total rest region ctx (ground (arith, e, named, listed)) named in
          (c, rw (e, find_context) found)
    ]

abbrev filled : List String → String → RegionInfo → RegionInfo
filled contexts region info = record info {
  context = or_else info.context (find_context contexts region);
}

-- The entry that the configuration has for the region, with its context filled in.
lookup-fill_contexts :
    (contexts : List String) (regions : Dict String RegionInfo) (region : String)
    {info : RegionInfo}
    → lookup region regions ≡ some info
    → lookup region (fill_contexts contexts regions) ≡ some (filled contexts region info)
unfolding fill_contexts
lookup-fill_contexts contexts [] region h = absurd (cc)
lookup-fill_contexts contexts ((name, i) ∷ rest) region {info} h =
    ground (arith, lookup-fill_contexts contexts rest region {info = info})

lookup-fill_contexts-none :
    (contexts : List String) (regions : Dict String RegionInfo) (region : String)
    → lookup region regions ≡ none
    → lookup region (fill_contexts contexts regions) ≡ none
unfolding fill_contexts
lookup-fill_contexts-none contexts [] region h = refl
lookup-fill_contexts-none contexts ((name, i) ∷ rest) region h =
    ground (arith, lookup-fill_contexts-none contexts rest region)

-- The configuration itself names the context, for the global region or among the regions.
abbrev IsConfigured : MainConfig → String → String → Type 0
IsConfigured config region c =
    ((region ≡ config.global_region) × (config.global_region_context ≡ some c))
    ⊎ ((info : RegionInfo) × (lookup region config.regions ≡ some info) × (info.context ≡ some c))

-- One of the contexts of the kube config, with the region's name in it.
abbrev IsInferred : List String → String → String → Type 0
IsInferred contexts region c = (contains contexts c ≡ true) × (includes c region ≡ true)

origin_of_or_else :
    (contexts : List String) (region : String) (given : Option String) {c : String}
    → or_else given (find_context contexts region) ≡ some c
    → (given ≡ some c) ⊎ IsInferred contexts region c
origin_of_or_else contexts region none h = inr (find_context_found contexts region h)
origin_of_or_else contexts region (some g) h = inl h

some_of_ok :
    (region : String) (o : Option String) {c : String} → or_no_context region o ≡ ok c → o ≡ some c
some_of_ok region none h = absurd (cc)
some_of_ok region (some x) h = ap some (ok-injective h)

region_context_origin :
    (contexts : List String) (config : MainConfig) (region : String) {c : String}
    → region_context (get_main_config contexts config) region ≡ ok c
    → IsConfigured config region c ⊎ IsInferred contexts region c
unfolding region_context get_main_config
region_context_origin contexts config region {c} h =
    elim (Option-cases (lookup region config.regions)) [
      | inl e ↦ absurd (
          cc (rw (lookup-fill_contexts-none contexts config.regions region e, region_context) at h))
      | inr (info, e) ↦
          let given : or_no_context region (or_else info.context (find_context contexts region))
              ≡ ok c =
            rw (lookup-fill_contexts contexts config.regions region e, region_context) at h in
          elim (origin_of_or_else contexts region info.context (some_of_ok region _ given)) [
            | inl known ↦ inl (inr (info, e, known))
            | inr inferred ↦ inr inferred
          ]
    ]

global_context_origin :
    (contexts : List String) (config : MainConfig) (region : String) {c : String}
    → global_context (get_main_config contexts config) region ≡ some c
    → IsConfigured config region c ⊎ IsInferred contexts region c
unfolding global_context get_main_config
global_context_origin contexts config region {c} h =
    elim (Bool-cases (region == config.global_region)) [
      | inr differ ↦ absurd (cc (rw differ at h))
      | inl same ↦
          let is_global : region ≡ config.global_region = ground (arith, same) in
          elim (origin_of_or_else contexts config.global_region config.global_region_context
            (rw same at h)) [
              | inl known ↦ inl (inl (is_global, known))
              | inr inferred ↦ inr (subst (λ r. IsInferred contexts r c) (sym is_global) inferred)
            ]
    ]

-- A context that is found for a region is one that the configuration gives it, or one of the kube
-- config's contexts with the region's name in it.
get_context_origin :
    (contexts : List String) (config : MainConfig) (region : String) {c : String}
    → get_context (get_main_config contexts config) region ≡ ok c
    → IsConfigured config region c ⊎ IsInferred contexts region c
unfolding get_context
get_context_origin contexts config region {c} h =
    elim (Option-cases (global_context (get_main_config contexts config) region)) [
      | inl e ↦ region_context_origin contexts config region (rw (e, get_context) at h)
      | inr (g, e) ↦
          global_context_origin contexts config region
            (e ∙ ap some (ok-injective (rw (e, get_context) at h)))
    ]

or_else_total :
    (given : Option String) {o : Option String}
    → ((d : String) × (o ≡ some d))
    → (c : String) × (or_else given o ≡ some c)
or_else_total none found = found
or_else_total (some g) found = (g, refl)

region_context_total :
    (contexts : List String) (config : MainConfig) (region ctx : String) {info : RegionInfo}
    → lookup region config.regions ≡ some info
    → contains contexts ctx ≡ true
    → includes ctx region ≡ true
    → (c : String) × (region_context (get_main_config contexts config) region ≡ ok c)
unfolding region_context get_main_config
region_context_total contexts config region ctx {info} listed has named =
    let (c, e) = or_else_total info.context (find_context_total contexts region ctx has named) in
    (c, rw (lookup-fill_contexts contexts config.regions region listed, region_context, e))

-- A region of the configuration whose name some context has in it gets a context.
get_context_total :
    (contexts : List String) (config : MainConfig) (region ctx : String) {info : RegionInfo}
    → lookup region config.regions ≡ some info
    → contains contexts ctx ≡ true
    → includes ctx region ≡ true
    → (c : String) × (get_context (get_main_config contexts config) region ≡ ok c)
unfolding get_context
get_context_total contexts config region ctx {info} listed has named =
    elim (Option-cases (global_context (get_main_config contexts config) region)) [
      | inl e ↦
          let (c, found) = region_context_total contexts config region ctx listed has named in
          (c, rw (e, get_context) found)
      | inr (g, e) ↦ (g, rw (e, get_context))
    ]
