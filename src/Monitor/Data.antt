-- ===== src/Monitor/Data.antt =====
-- `_get_data` of tools/monitor.py: the pods of the chosen namespaces, by region, namespace and node.
-- The answers of the Kubernetes API come in as functions; `read_node` may answer otherwise for each
-- pod, by the pod's place in the list.
use sunstorm_xactserver.Base.{
  ℕ, suc, String, Bool, false, Option, none, some, List, [], ◌∷◌, ◌++◌, ◌==◌, string_eq,
  if◌then◌else◌,
}
use sunstorm_xactserver.Base.Dict.{Dict, lookup, insert}
use sunstorm_xactserver.Base.Result.{Result, ok, err, ◌>>=◌}
use sunstorm_xactserver.Config.{MainConfig, NamespaceInfo, ContextError, get_context}
use sunstorm_xactserver.Monitor.{Condition, Pod, compute_status}

-- A pod that is listed: its node, its name, and its status.
pub record PodInfo : Type 0 where
  pub node_name : Option String
  pub name : String
  pub pod : Pod

-- What a cell of a pod shows.
pub record PodCell : Type 0 where
  pub name : String
  pub status : Option String

-- The entries `cpu` and `memory` of a capacity, or `none` for one that is empty.
abbrev pub Capacity : Type 0
Capacity = Option (String × String)

pub record Node : Type 0 where
  pub capacity : Capacity
  pub status : Bool
  pub pods : List PodCell

abbrev pub Nodes : Type 0
Nodes = Dict String Node

-- `capacity or {}` and `conditions or []` of a node's status
pub record NodeInfo : Type 0 where
  pub capacity : Capacity
  pub conditions : List Condition

-- An exception of the API, or a failure of `get_context`.
pub data DataError : Type 0 where
  api_error : DataError
  context_error : ContextError → DataError

pub record Api : Type 0 where
  pub list_pods : String → Option (List PodInfo)
  pub read_node : ℕ → String → Option NodeInfo

-- The value of the `defaultdict`
abbrev new_node : Node
new_node = record { capacity = none; status = false; pods = [] }

abbrev pub or_new : Option Node → Node
or_new none = new_node
or_new (some node) = node

-- The loop over the conditions of a node.
unfoldable pub is_ready : List Condition → Bool → Bool
is_ready [] before = before
is_ready (c ∷ rest) before =
    let later = is_ready rest before in if c.kind == "Ready" then c.status == "True" else later

abbrev pub with_info : Option NodeInfo → Node → Node
with_info none node = node
with_info (some info) node = record node {
  capacity = info.capacity;
  status = is_ready info.conditions node.status;
}

-- The node with its capacity and its status, if it has no capacity yet.
abbrev pub if_none : Capacity → Node → Node → Node
if_none none fresh old = fresh
if_none (some _) fresh old = old

abbrev pub populate : Option NodeInfo → Node → Node
populate answer node = if_none node.capacity (with_info answer node) node

-- `node or "unknown"`
abbrev pub shown_node : Option String → String
shown_node none = "unknown"
shown_node (some name) = if name == "" then "unknown" else name

module _ (api : Api) where
  -- The first half of the loop's body, for a pod that has a node.
  unfoldable pub populate_node : ℕ → Option String → Nodes → Nodes
  unfolding is_ready
  populate_node k none nodes = nodes
  populate_node k (some name) nodes =
      if name == ""
      then nodes
      else insert name (populate (api.read_node k name) (or_new (lookup name nodes))) nodes

  abbrev pub cell_of : PodInfo → PodCell
  cell_of p = record { name = p.name; status = compute_status p.pod }

  abbrev pub add_pod : PodCell → Node → Node
  add_pod cell node = record node { pods = node.pods ++ cell ∷ [] }

  unfoldable pub place_pod : ℕ → PodInfo → Nodes → Nodes
  unfolding populate_node compute_status
  place_pod k p nodes =
      let nodes1 = populate_node k p.node_name nodes in
      let name = shown_node p.node_name in
      insert name (add_pod (cell_of p) (or_new (lookup name nodes1))) nodes1

  unfoldable pub place_all : ℕ → List PodInfo → Nodes → Nodes
  unfolding place_pod
  place_all k [] nodes = nodes
  place_all k (p ∷ pods) nodes = place_all (suc k) pods (place_pod k p nodes)

  -- `get_namespaced_data`, up to its entry in `data`
  unfoldable pub get_namespaced_data : MainConfig → String → NamespaceInfo → Result DataError Nodes
  unfolding place_all get_context
  get_namespaced_data config ns info = elim (get_context config info.region) [
    | err e ↦ err (context_error e)
    | ok _ ↦ elim (api.list_pods ns) [ none ↦ err api_error | some pods ↦ ok (place_all 0 pods []) ]
  ]

  abbrev nodes_or_empty : Option (Dict String Nodes) → Dict String Nodes
  nodes_or_empty none = []
  nodes_or_empty (some d) = d

  -- The tasks of the pool, one after the other, on `data`; the first exception is the pool's.
  unfoldable get_data :
      MainConfig
      → Dict String NamespaceInfo
      → Dict String (Dict String Nodes)
      → Result DataError (Dict String (Dict String Nodes))
  unfolding get_namespaced_data
  get_data config [] data_ = ok data_
  get_data config ((ns, info) ∷ rest) data_ = get_namespaced_data config ns info >>= λ nodes.
      get_data config rest
        (insert info.region (insert ns nodes (nodes_or_empty (lookup info.region data_))) data_)
