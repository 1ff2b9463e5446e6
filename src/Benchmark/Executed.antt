-- ===== src/Benchmark/Executed.antt =====
-- Which tasks `Execute` of tools/benchmark.py makes.
use sunstorm_xactserver.Base.{
  ◌≡◌, ◌≢◌, refl, ◌∙◌, ap, eqb, contains, ◌⊎◌, inl, inr, String, true, false, not, ◌&&◌, List, [],
  ◌∷◌, ◌++◌, map, arith, All, ◌<>◌, ◌==◌, string_eq, if◌then◌else◌, Bool-cases,
}
use sunstorm_xactserver.Base.Result.{Result, ok, err}
use sunstorm_xactserver.Base.Text.{show}
use sunstorm_xactserver.Shell.{Failure, no_workers}
use sunstorm_xactserver.Benchmark.{Task}
use sunstorm_xactserver.Benchmark.Operation.{
  Namespace, Operation, is_chosen, target_setting, namespaces_without_global, execute_task,
  count_setting, execute_from, execute_tasks,
}

abbrev IsSelected : List String → Namespace → Type 0
IsSelected regions n = (n.0 ≢ "global") × (is_chosen regions n.1.region ≡ true)

namespaces_without_global-IsSelected :
    (ns : List Namespace) (regions : List String)
    → All (IsSelected regions) (namespaces_without_global ns regions)
unfolding namespaces_without_global
namespaces_without_global-IsSelected [] regions = tt
namespaces_without_global-IsSelected (n ∷ ns) regions =
    elim (Bool-cases (not (n.0 == "global") && is_chosen regions n.1.region)) [
      | inl e ↦
          rw e (
            (ground (arith, e), ground (arith, e)),
            namespaces_without_global-IsSelected ns regions,
          )
      | inr e ↦ rw e (namespaces_without_global-IsSelected ns regions)
    ]

execute_from-map :
    (ns : List Namespace) (op : Operation) (timestamp : String) (regions : List String)
    → All (IsSelected regions) ns
    → execute_from ns op timestamp regions ≡ map (execute_task op timestamp) ns
unfolding execute_from
execute_from-map [] op timestamp regions h = refl
execute_from-map (n ∷ ns) op timestamp regions ((named, chosen), h) =
    rw (chosen, execute_from-map ns op timestamp regions h)

pub execute_tasks_cases :
    (op : Operation) (timestamp : String) (regions : List String)
    → let chosen = namespaces_without_global op.namespaces regions in
      All (IsSelected regions) chosen
      × (((chosen ≡ []) × (execute_tasks op timestamp regions ≡ err no_workers))
          ⊎ ((chosen ≢ [])
              × (execute_tasks op timestamp regions ≡ ok (map (execute_task op timestamp) chosen))))
unfolding execute_tasks
execute_tasks_cases op timestamp regions =
    let selected = namespaces_without_global-IsSelected op.namespaces regions in
    (selected, by_cases (namespaces_without_global op.namespaces regions) selected)
  where
    outcome : List Namespace → Result Failure (List Task)
    outcome chosen = elim chosen [
      | [] ↦ err no_workers
      | n ∷ ns ↦ ok (execute_from (n ∷ ns) op timestamp regions)
    ]

    by_cases :
        (chosen : List Namespace)
        → All (IsSelected regions) chosen
        → ((chosen ≡ []) × (outcome chosen ≡ err no_workers))
          ⊎ ((chosen ≢ []) × (outcome chosen ≡ ok (map (execute_task op timestamp) chosen)))
    by_cases [] h = inl (refl, refl)
    by_cases (n ∷ ns) h = inr (λ e. cc, ap ok (execute_from-map (n ∷ ns) op timestamp regions h))

-- No region is given, or this one is.
abbrev IsIn : List String → String → Type 0
IsIn regions region = (regions ≡ []) ⊎ (contains regions region ≡ true)

-- The namespaces but the global one in the regions that are given, in order.
pub data Picks (regions : List String) : List Namespace → List Namespace → Type 0 where
  none_left : Picks regions [] []
  picked :
      (n : Namespace) {ns chosen : List Namespace}
      → n.0 ≢ "global"
      → IsIn regions n.1.region
      → Picks regions ns chosen
      → Picks regions (n ∷ ns) (n ∷ chosen)
  left_out :
      (n : Namespace) {ns chosen : List Namespace}
      → (n.0 ≡ "global") ⊎ (¬ IsIn regions n.1.region)
      → Picks regions ns chosen
      → Picks regions (n ∷ ns) chosen

IsIn-of_is_chosen :
    (regions : List String) (region : String)
    → is_chosen regions region ≡ true
    → IsIn regions region
IsIn-of_is_chosen [] region h = inl refl
IsIn-of_is_chosen (r ∷ rs) region h = inr h

not_IsIn-of_is_chosen :
    (regions : List String) (region : String)
    → is_chosen regions region ≡ false
    → ¬ IsIn regions region
not_IsIn-of_is_chosen [] region h given = absurd (cc)
not_IsIn-of_is_chosen (r ∷ rs) region h (inl e) = absurd (cc)
not_IsIn-of_is_chosen (r ∷ rs) region h (inr e) = absurd (cc)

Picks-namespaces_without_global :
    (ns : List Namespace) (regions : List String)
    → Picks regions ns (namespaces_without_global ns regions)
unfolding namespaces_without_global
Picks-namespaces_without_global [] regions = none_left
Picks-namespaces_without_global (n ∷ ns) regions =
    let later = Picks-namespaces_without_global ns regions in
    elim (Bool-cases (n.0 == "global")) [
      | inl g ↦ rw g (left_out n (inl (ground (arith, g))) later)
      | inr g ↦ elim (Bool-cases (is_chosen regions n.1.region)) [
        | inl e ↦
            rw (g, e) (picked n (ground (arith, g)) (IsIn-of_is_chosen regions n.1.region e) later)
        | inr e ↦ rw (g, e) (left_out n (inr (not_IsIn-of_is_chosen regions n.1.region e)) later)
      ]
    ]

-- What the task of a namespace sets: its own id and target, and its counts where they are not 0.
abbrev pub executing : Operation → String → Namespace → Task
executing op timestamp (namespace, info) = record {
  namespace = namespace;
  region = info.region;
  sets =
      op.settings
      ++ ("operation=execute"
          ∷ ("timestamp=" <> timestamp)
          ∷ ("namespace_id=" <> show info.id)
          ∷ (target_setting info.target_address_and_database
              ++ ((if eqb info.warmup 0 then [] else ("warmup" <> ("=" <> show info.warmup)) ∷ [])
                  ++ (if eqb info.benchbase_instances 0
                      then []
                      else ("instances" <> ("=" <> show info.benchbase_instances)) ∷ []))));
  delete_only = false;
}

map-executing :
    (op : Operation) (timestamp : String) (ns : List Namespace)
    → map (execute_task op timestamp) ns ≡ map (executing op timestamp) ns
unfolding count_setting
map-executing op timestamp [] = refl
map-executing op timestamp (n ∷ ns) =
    ap (λ ts. executing op timestamp n ∷ ts) (map-executing op timestamp ns)

-- Executing fails exactly if there is no namespace but the global one in the regions that are
-- given, or at all where none is given. Otherwise there is one task for each such namespace, in the
-- order of the ids, with the id, the target and the counts that the configuration gives it.
pub execute_tasks_lem :
    (op : Operation) (timestamp : String) (regions : List String)
    → (chosen : List Namespace) × Picks regions op.namespaces chosen
      × (((chosen ≡ []) × (execute_tasks op timestamp regions ≡ err no_workers))
          ⊎ ((chosen ≢ [])
              × (execute_tasks op timestamp regions ≡ ok (map (executing op timestamp) chosen))))
execute_tasks_lem op timestamp regions = (
  namespaces_without_global op.namespaces regions,
  Picks-namespaces_without_global op.namespaces regions,
  elim (execute_tasks_cases op timestamp regions).1 [
    | inl h ↦ inl h
    | inr (some_chosen, e) ↦ inr (
      some_chosen,
      e ∙ ap ok (map-executing op timestamp (namespaces_without_global op.namespaces regions)),
    )
  ],
)
