-- ===== src/Monitor/Rows.antt =====
-- The pods of a namespace and the rows of its table (tools/monitor.py).
use sunstorm_xactserver.Base.{
  ℕ, suc, ◌+◌, ◌≡◌, refl, sym, ◌∙◌, ap, String, Option, none, some, List, [], ◌∷◌, arith, ◌==◌,
  string_eq, length, length-append, Bool-cases, Option-cases, inl, inr,
}
use sunstorm_xactserver.Base.Dict.{Dict, lookup, insert}
use sunstorm_xactserver.Base.Result.{ok, ok-injective, Result-cases}
use sunstorm_xactserver.Config.{MainConfig, NamespaceInfo, get_context}
use sunstorm_xactserver.Monitor.Data.{
  PodInfo, PodCell, Node, Nodes, NodeInfo, Api, or_new, with_info, Capacity, if_none, populate,
  shown_node, populate_node, cell_of, add_pod, place_pod, place_all, get_namespaced_data,
}
use sunstorm_xactserver.Monitor.Tables.{
  pod_rows, node_rows, nth_color, color_number, node_cell, capacity_cell, namespace_after,
}

-- How many pods the nodes have.
abbrev pod_count : Nodes → ℕ
pod_count [] = 0
pod_count ((_, node) ∷ rest) = length node.pods + pod_count rest

pod_count-insert :
    (name : String) (node : Node) (nodes : Nodes)
    → pod_count (insert name node nodes) + length (or_new (lookup name nodes)).pods
      ≡ pod_count nodes + length node.pods
pod_count-insert name node [] = omega arith
pod_count-insert name node ((other, n) ∷ nodes) = elim (Bool-cases (name == other)) [
  | inl e ↦ rw e (omega arith)
  | inr e ↦ rw e (omega (arith, pod_count-insert name node nodes))
]

if_none-pods :
    (capacity : Capacity) (fresh old : Node)
    → fresh.pods ≡ old.pods
    → (if_none capacity fresh old).pods ≡ old.pods
if_none-pods none fresh old same = same
if_none-pods (some _) fresh old same = refl

populate-pods : (answer : Option NodeInfo) (node : Node) → (populate answer node).pods ≡ node.pods
populate-pods none node = if_none-pods node.capacity node node refl
populate-pods (some info) node = if_none-pods node.capacity (with_info (some info) node) node refl

module _ (api : Api) where
  pod_count-populate_node :
      (k : ℕ) (name : Option String) (nodes : Nodes)
      → pod_count (populate_node api k name nodes) ≡ pod_count nodes
  unfolding populate_node
  pod_count-populate_node k none nodes = refl
  pod_count-populate_node k (some name) nodes = elim (Bool-cases (name == "")) [
    | inl e ↦ rw (e, populate_node) refl
    | inr e ↦
        rw (e, populate_node)
          (omega (
            arith,
            pod_count-insert name (populate (api.read_node k name) (or_new (lookup name nodes)))
                nodes,
            ap length (populate-pods (api.read_node k name) (or_new (lookup name nodes))),
          ))
  ]

  pod_count-place_pod :
      (k : ℕ) (p : PodInfo) (nodes : Nodes)
      → pod_count (place_pod api k p nodes) ≡ suc (pod_count nodes)
  unfolding place_pod
  pod_count-place_pod k p nodes =
      let nodes1 = populate_node api k p.node_name nodes in
      let name = shown_node p.node_name in
      let old = or_new (lookup name nodes1) in
      omega (
        arith,
        pod_count-insert name (add_pod api (cell_of api p) old) nodes1,
        length-append old.pods (cell_of api p ∷ []),
        pod_count-populate_node k p.node_name nodes,
      )

  pod_count-place_all :
      (k : ℕ) (pods : List PodInfo) (nodes : Nodes)
      → pod_count (place_all api k pods nodes) ≡ length pods + pod_count nodes
  unfolding place_all
  pod_count-place_all k [] nodes = omega arith
  pod_count-place_all k (p ∷ pods) nodes = omega (
    arith,
    pod_count-place_all (suc k) pods (place_pod api k p nodes),
    pod_count-place_pod k p nodes,
  )

length-pod_rows :
    (color a b c : String) (pods : List PodCell) → length (pod_rows color a b c pods) ≡ length pods
unfolding pod_rows
length-pod_rows color a b c [] = refl
length-pod_rows color a b c (pod ∷ pods) = ap suc (length-pod_rows color "" "" "" pods)

length-node_rows :
    (text : String) (nodes : Nodes) (taken : Dict String ℕ)
    → length (node_rows text nodes taken).0 ≡ pod_count nodes
unfolding node_rows
length-node_rows text [] taken = refl
length-node_rows text ((name, node) ∷ rest) taken =
    let number = color_number taken name in
    let rows =
      pod_rows (nth_color number) text (node_cell name node) (capacity_cell node.capacity)
        node.pods in
    let later = node_rows (namespace_after text node.pods) rest (insert name number taken) in
    omega (
      arith,
      length-append rows later.0,
      length-pod_rows (nth_color number) text (node_cell name node) (capacity_cell node.capacity)
          node.pods,
      length-node_rows (namespace_after text node.pods) rest (insert name number taken),
    )

-- Where the data of a namespace can be read, its part of the table has one row for each pod that
-- Kubernetes lists in it, whatever the nodes of the pods and whatever is known of these nodes.
get_namespaced_data-rows :
    (api : Api) (config : MainConfig) (ns : String) (info : NamespaceInfo) (nodes : Nodes)
    (taken : Dict String ℕ)
    → get_namespaced_data api config ns info ≡ ok nodes
    → (pods : List PodInfo) × (api.list_pods ns ≡ some pods)
      × (length (node_rows ns nodes taken).0 ≡ length pods)
unfolding get_namespaced_data
get_namespaced_data-rows api config ns info nodes taken h =
    elim (Result-cases (get_context config info.region)) [
      | inl (e, failed) ↦ absurd (cc (rw (failed, get_namespaced_data) at h))
      | inr (context, found) ↦ elim (Option-cases (api.list_pods ns)) [
        | inl down ↦ absurd (cc (rw (found, down, get_namespaced_data) at h))
        | inr (pods, listed) ↦
            let same : place_all api 0 pods [] ≡ nodes =
              ok-injective (rw (found, listed, get_namespaced_data) at h) in
            (
              pods,
              listed,
              length-node_rows ns nodes taken
                  ∙ ap pod_count (sym same)
                  ∙ pod_count-place_all api 0 pods []
                  ∙ omega arith,
            )
      ]
    ]
