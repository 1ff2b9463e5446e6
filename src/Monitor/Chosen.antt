-- ===== src/Monitor/Chosen.antt =====
-- The namespaces that `get_chosen_namespaces` of tools/monitor.py chooses, and its warnings.
use sunstorm_xactserver.Base.{
  ◌≡◌, refl, ◌∙◌, String, true, not, ◌&&◌, none, List, [], ◌∷◌, arith, contains, string_eq,
  if◌then◌else◌, Bool-cases, inl, inr,
}
use sunstorm_xactserver.Base.Dict.{Dict, keys, lookup}
use sunstorm_xactserver.Config.{MainConfig, NamespaceInfo, get_namespaces}
use sunstorm_xactserver.Monitor.{is_wanted, choose, not_found, get_chosen_namespaces}

lookup-choose :
    (ns : String) (names : List String) (d : Dict String NamespaceInfo)
    → lookup ns (choose names d) ≡ (if is_wanted names ns then lookup ns d else none)
unfolding choose
lookup-choose ns names [] = ground arith
lookup-choose ns names ((n, info) ∷ rest) = ground (arith, lookup-choose ns names rest)

contains-choose :
    (ns : String) (names : List String) (d : Dict String NamespaceInfo)
    → contains (keys (choose names d)) ns ≡ (is_wanted names ns && contains (keys d) ns)
unfolding choose
contains-choose ns names [] = ground arith
contains-choose ns names ((n, info) ∷ rest) = ground (arith, contains-choose ns names rest)

contains-not_found :
    (n : String) (names : List String) (chosen : Dict String NamespaceInfo)
    → contains (not_found names chosen) n ≡ (contains names n && not (contains (keys chosen) n))
unfolding not_found
contains-not_found n [] chosen = refl
contains-not_found n (m ∷ names) chosen = ground (arith, contains-not_found n names chosen)

wanted_of_given :
    (n : String) (names : List String) → contains names n ≡ true → is_wanted names n ≡ true
wanted_of_given n [] h = cc
wanted_of_given n (m ∷ names) h = h

-- A namespace is chosen if it is in the configuration and no names are given or its name is among
-- them. The names that are warned of are those that are given and not in the configuration.
get_chosen_namespaces_lem :
    (config : MainConfig) (names : List String) (ns : String)
    → let (chosen, missing) = get_chosen_namespaces config names in
      (lookup ns chosen ≡ (if is_wanted names ns then lookup ns (get_namespaces config) else none))
      × (contains missing ns
          ≡ (contains names ns && not (contains (keys (get_namespaces config)) ns)))
unfolding get_chosen_namespaces
get_chosen_namespaces_lem config names ns = (
  lookup-choose ns names (get_namespaces config),
  contains-not_found ns names (choose names (get_namespaces config))
      ∙ elim (Bool-cases (contains names ns)) [
        | inl e ↦
            rw (e, contains-choose ns names (get_namespaces config), wanted_of_given ns names e)
        | inr e ↦ rw e
      ],
)
