-- ===== src/Monitor/Tests.antt =====
-- A pod and a configuration, and the theorems at them.
use sunstorm_xactserver.Base.{
  ◌≡◌, refl, true, false, none, some, List, [], ◌∷◌, string_eq, if◌then◌else◌,
}
use sunstorm_xactserver.Config.{MainConfig, NamespaceInfo, get_context, global_context}
use sunstorm_xactserver.Base.Result.{ok}
use sunstorm_xactserver.Monitor.Data.{PodInfo, Api, place_all, get_namespaced_data}
use sunstorm_xactserver.Monitor.{
  waiting, other, Pod, is_disruption, is_containers_ready, is_running, compute_status,
}
use sunstorm_xactserver.Monitor.Status.{any, reasons, first_or, compute_status_lem}

abbrev pod : Pod
pod = record {
  phase = some "Running";
  conditions = record { kind = "ContainersReady"; status = "False" } ∷ [];
  containers =
      record { ready = true; state = other }
      ∷ record { ready = false; state = waiting (some "CrashLoopBackOff") }
      ∷ [];
}

crashing : compute_status pod ≡ some "CrashLoopBackOff"
unfolding compute_status string_eq
crashing = refl

compute_status_lem_example : compute_status pod ≡ (
    if is_running pod.phase
    then if any is_disruption pod.conditions
      then some "Terminating"
      else if any is_containers_ready pod.conditions
      then some "Running"
      else first_or (some "Running") (reasons pod.containers)
    else pod.phase)
compute_status_lem_example = compute_status_lem pod

abbrev config : MainConfig
config = record {
  global_region = "hub";
  global_region_context = none;
  global_region_target_address_and_database = none;
  regions = [];
}

abbrev shown : MainConfig
shown = record config { global_region_context = some "c" }

-- Two pods on one node, and one that has none.
abbrev listed : List PodInfo
listed =
    record { node_name = some "n"; name = "a"; pod = pod }
    ∷ record { node_name = none; name = "b"; pod = pod }
    ∷ record { node_name = some "n"; name = "c"; pod = pod }
    ∷ []

abbrev api : Api
api = record {
  list_pods = λ _. some listed;
  read_node = λ _ _. some (record { capacity = some ("4", "8Gi"); conditions = [] });
}

abbrev hub : NamespaceInfo
hub = record {
  region = "hub";
  id = 0;
  target_address_and_database = none;
  warmup = 0;
  benchbase_instances = 1;
}

read : get_namespaced_data api shown "global" hub ≡ ok (place_all api 0 listed [])
unfolding get_namespaced_data get_context global_context string_eq
read = refl
