-- ===== src/Logs/Pods.antt =====
-- `Kube.get_pods` of tools/utils.py, on the pods that Kubernetes lists for the selector.
use sunstorm_xactserver.Base.{
  String, Bool, true, false, Option, none, some, List, [], ◌∷◌, contains, string_eq, if◌then◌else◌,
}

-- `pod.status.phase` and `pod.metadata.name`, where they are given.
pub record Listed : Type 0 where
  pub phase : Option String
  pub name : Option String

-- `phases` may be left out or empty.
abbrev in_phase : List String → Option String → Bool
in_phase [] phase = true
in_phase (p ∷ ps) none = false
in_phase (p ∷ ps) (some phase) = contains (p ∷ ps) phase

abbrev pub add_name : Option String → List String → List String
add_name none later = later
add_name (some name) later = if contains ("" ∷ []) name then later else name ∷ later

unfoldable pub get_pods : List String → List Listed → List String
get_pods phases [] = []
get_pods phases (pod ∷ pods) =
    let later = get_pods phases pods in
    if in_phase phases pod.phase then add_name pod.name later else later
