-- ===== src/Benchmark/Main/Begins.antt =====
-- The tasks of tools/benchmark.py have the settings of the command line first.
use mathlib.Core.List.{append_assoc}
use sunstorm_xactserver.Base.{
  ℕ, suc, subst, ◌≡◌, sym, ◌∙◌, ap, inl, inr, String, Bool, true, false, Option, none, some, List,
  [], ◌∷◌, ◌++◌, All, Bool-cases, string_eq,
}
use sunstorm_xactserver.Base.Result.{ok, err, ok-injective}
use sunstorm_xactserver.Shell.{missing_key, no_workers}
use sunstorm_xactserver.Benchmark.{Task}
use sunstorm_xactserver.Benchmark.Operation.{
  Operation, Namespace, create_tasks, sload_tasks, load_tasks, load_from, execute_tasks,
  execute_from, delete_from, delete_global, global_task, is_chosen, target_setting,
  namespaces_without_global,
}
use sunstorm_xactserver.Benchmark.Main.Kept.{AllTasks}

-- Settings that begin with the given ones.
abbrev pub Begins : List String → Task → Type 0
Begins given t = (more : List String) × (t.sets ≡ given ++ more)

-- The settings of an operation begin with those of the command line, and so do those of its tasks.
module _ (given : List String) (op : Operation) (own : List String)
    (settings : op.settings ≡ given ++ own) where
  begins :
      (namespace region : String) (sets : List String) (delete_only : Bool)
      → Begins given (record {
        namespace = namespace;
        region = region;
        sets = op.settings ++ sets;
        delete_only = delete_only;
      })
  begins namespace region sets delete_only =
      (own ++ sets, ap (λ xs. xs ++ sets) settings ∙ append_assoc given own sets)

  global_task-Begins :
      (regions sets : List String) → All (Begins given) (global_task op regions sets)
  global_task-Begins regions sets = elim (Bool-cases (is_chosen regions op.config.global_region)) [
    | inl e ↦ rw e (begins "global" op.config.global_region sets false, tt)
    | inr e ↦ rw e tt
  ]

  sload_tasks-Begins :
      (regions : List String) (ts : List Task)
      → sload_tasks op regions ≡ ok ts
      → All (Begins given) ts
  unfolding sload_tasks
  sload_tasks-Begins regions ts made =
      elim (Bool-cases (is_chosen regions op.config.global_region)) [
        | inl e ↦ go op.config.global_region_target_address_and_database (rw e at made)
        | inr e ↦ rw (sym (ok-injective (rw e at made))) tt
      ]
    where
      go :
          (target : Option (Option String))
          → (elim target [
            | none ↦ err (missing_key "global_region_target_address_and_database")
            | some t ↦
                ok (global_task op regions ("operation=load" ∷ "loadall=true" ∷ target_setting t))
          ])
            ≡ ok ts
          → All (Begins given) ts
      go none h = cc
      go (some t) h = subst (All (Begins given)) (ok-injective h) (global_task-Begins regions _)

  load_from-Begins :
      (i : ℕ) (ns : List Namespace) (regions : List String)
      → All (Begins given) (load_from i ns op regions)
  unfolding load_from
  load_from-Begins i [] regions = tt
  load_from-Begins i ((namespace, info) ∷ ns) regions =
      let later = load_from-Begins (suc i) ns regions in
      elim (Bool-cases (is_chosen regions info.region)) [
        | inl e ↦ rw e (begins namespace info.region _ false, later)
        | inr e ↦ rw e later
      ]

  execute_from-Begins :
      (ns : List Namespace) (timestamp : String) (regions : List String)
      → All (Begins given) (execute_from ns op timestamp regions)
  unfolding execute_from
  execute_from-Begins [] timestamp regions = tt
  execute_from-Begins (n ∷ ns) timestamp regions =
      let later = execute_from-Begins ns timestamp regions in
      elim (Bool-cases (is_chosen regions n.1.region)) [
        | inl e ↦ rw e (begins n.0 n.1.region _ false, later)
        | inr e ↦ rw e later
      ]

  execute_tasks-Begins :
      (timestamp : String) (regions : List String) (ts : List Task)
      → execute_tasks op timestamp regions ≡ ok ts
      → All (Begins given) ts
  unfolding execute_tasks
  execute_tasks-Begins timestamp regions ts made =
      go (namespaces_without_global op.namespaces regions) made
    where
      go :
          (ns : List Namespace)
          → (elim ns [
            | [] ↦ err no_workers
            | m ∷ ms ↦ ok (execute_from (m ∷ ms) op timestamp regions)
          ])
            ≡ ok ts
          → All (Begins given) ts
      go [] h = cc
      go (m ∷ ms) h =
          subst (All (Begins given)) (ok-injective h)
            (execute_from-Begins (m ∷ ms) timestamp regions)

  delete_from-Begins :
      (ns : List Namespace) (regions : List String) → All (Begins given) (delete_from ns op regions)
  unfolding delete_from
  delete_from-Begins [] regions = tt
  delete_from-Begins (n ∷ ns) regions =
      let later = delete_from-Begins ns regions in
      elim (Bool-cases (is_chosen regions n.1.region)) [
        | inl e ↦ rw e (begins n.0 n.1.region _ true, (begins n.0 n.1.region _ true, later))
        | inr e ↦ rw e later
      ]

  delete_global-Begins : (regions : List String) → All (Begins given) (delete_global op regions)
  unfolding delete_global
  delete_global-Begins regions = elim (Bool-cases (is_chosen regions op.config.global_region)) [
    | inl e ↦ rw e (begins "global" op.config.global_region _ true, tt)
    | inr e ↦ rw e tt
  ]

  pub all_tasks :
      (timestamp : String) (regions : List String) → AllTasks (Begins given) op timestamp regions
  unfolding create_tasks load_tasks
  all_tasks timestamp regions = record {
    creates = global_task-Begins regions _;
    sloads = sload_tasks-Begins regions;
    loads = load_from-Begins 0 op.namespaces regions;
    executes = execute_tasks-Begins timestamp regions;
    deletes_global = delete_global-Begins regions;
    deletes = delete_from-Begins op.namespaces regions;
  }
