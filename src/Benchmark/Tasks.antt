-- ===== src/Benchmark/Tasks.antt =====
-- Which tasks the operations of tools/benchmark.py make.
use mathlib.Core.List.{Perm}
use mathlib.Core.List.Perm
use sunstorm_xactserver.Base.{
  ℕ, suc, ◌≤◌, ◌≡◌, refl, inl, inr, String, false, List, [], ◌∷◌, ◌++◌, map, arith, All, ◌<>◌,
  string_eq, if◌then◌else◌, Bool-cases, leb,
}
use sunstorm_xactserver.Base.Text.{show}
use sunstorm_xactserver.Config.{MainConfig, get_namespaces}
use sunstorm_xactserver.Benchmark.{Task}
use sunstorm_xactserver.Benchmark.Operation.{
  Namespace, Operation, insert_by_id, sort_by_id, make_operation, is_chosen, target_setting,
  load_from, load_tasks,
}

-- Each id is at most all those behind it.
abbrev pub IsSortedById : List Namespace → Type 0
IsSortedById [] = Unit
IsSortedById (n ∷ ns) = All (λ m. n.1.id ≤ m.1.id) ns × IsSortedById ns

insert_by_id-All :
    (n : Namespace) (ms : List Namespace) (k : ℕ)
    → k ≤ n.1.id
    → All (λ m. k ≤ m.1.id) ms
    → All (λ m. k ≤ m.1.id) (insert_by_id n ms)
unfolding insert_by_id
insert_by_id-All n [] k le h = (le, tt)
insert_by_id-All n (m ∷ ms) k le (here, h) = ground (arith, insert_by_id-All n ms k le h)

All-le :
    (j k : ℕ) (ms : List Namespace) → j ≤ k → All (λ m. k ≤ m.1.id) ms → All (λ m. j ≤ m.1.id) ms
All-le j k [] le h = tt
All-le j k (m ∷ ms) le (here, h) = (omega arith, All-le j k ms le h)

insert_by_id-IsSortedById :
    (n : Namespace) (ms : List Namespace) → IsSortedById ms → IsSortedById (insert_by_id n ms)
unfolding insert_by_id
insert_by_id-IsSortedById n [] h = (tt, tt)
insert_by_id-IsSortedById n (m ∷ ms) (first, h) = elim (Bool-cases (leb n.1.id m.1.id)) [
  | inl e ↦ rw e ((ground arith, All-le n.1.id m.1.id ms (ground arith) first), (first, h))
  | inr e ↦
      rw e (insert_by_id-All n ms m.1.id (ground arith) first, insert_by_id-IsSortedById n ms h)
]

insert_by_id-perm : (n : Namespace) (ms : List Namespace) → Perm (insert_by_id n ms) (n ∷ ms)
unfolding insert_by_id
insert_by_id-perm n [] = Perm.refl (n ∷ [])
insert_by_id-perm n (m ∷ ms) = elim (Bool-cases (leb n.1.id m.1.id)) [
  | inl e ↦ rw e (Perm.refl (n ∷ m ∷ ms))
  | inr e ↦ rw e (Perm.trans (Perm.cons m (insert_by_id-perm n ms)) (Perm.swap n m ms))
]

sort_by_id_lem : (ns : List Namespace) → IsSortedById (sort_by_id ns) × Perm (sort_by_id ns) ns
unfolding sort_by_id
sort_by_id_lem [] = (tt, Perm.refl [])
sort_by_id_lem (n ∷ ns) =
    let (sorted, perm) = sort_by_id_lem ns in
    (
      insert_by_id-IsSortedById n (sort_by_id ns) sorted,
      Perm.trans (insert_by_id-perm n (sort_by_id ns)) (Perm.cons n perm),
    )

-- The operations work on the namespaces of the configuration, each once, in the order of the ids.
pub make_operation-sorted :
    (config : MainConfig) (given : List String)
    → IsSortedById (make_operation config given).namespaces
      × Perm (make_operation config given).namespaces (get_namespaces config)
unfolding make_operation
make_operation-sorted config given = sort_by_id_lem (get_namespaces config)

-- The ids are i, i + 1 and so on, in order.
abbrev pub IsNumbered : ℕ → List Namespace → Type 0
IsNumbered i [] = Unit
IsNumbered i (n ∷ ns) = (n.1.id ≡ i) × IsNumbered (suc i) ns

abbrev pub load_task : Operation → Namespace → Task
load_task op (namespace, info) = record {
  namespace = namespace;
  region = info.region;
  sets =
      op.settings
      ++ ("operation=load"
          ∷ "loadall=false"
          ∷ ("namespace_id=" <> show info.id)
          ∷ target_setting info.target_address_and_database);
  delete_only = false;
}

-- The namespaces in the chosen regions.
abbrev pub chosen_of : List Namespace → List String → List Namespace
chosen_of [] regions = []
chosen_of (n ∷ ns) regions =
    let rest = chosen_of ns regions in if is_chosen regions n.1.region then n ∷ rest else rest

load_from_lem :
    (i : ℕ) (ns : List Namespace) (op : Operation) (regions : List String)
    → IsNumbered i ns
    → load_from i ns op regions ≡ map (load_task op) (chosen_of ns regions)
unfolding load_from
load_from_lem i [] op regions h = refl
load_from_lem i (n ∷ ns) op regions (here, h) =
    let later = load_from_lem (suc i) ns op regions h in
    elim (Bool-cases (is_chosen regions n.1.region)) [
      | inl e ↦ rw (e, here, later)
      | inr e ↦ rw (e, later)
    ]

-- Loading numbers the namespaces by their places. Where the ids of the configuration are 0, 1 and
-- so on, each task gets the id that the configuration gives its namespace, as executing does.
pub load_tasks_lem :
    (op : Operation) (regions : List String)
    → IsNumbered 0 op.namespaces
    → load_tasks op regions ≡ map (load_task op) (chosen_of op.namespaces regions)
unfolding load_tasks
load_tasks_lem op regions h = load_from_lem 0 op.namespaces op regions h
