-- ===== src/Benchmark/Watched.antt =====
-- The jobs whose logs are watched, beside the tasks that start them (tools/benchmark.py).
use sunstorm_xactserver.Base.{
  ℕ, suc, ◌≡◌, refl, sym, ◌∙◌, ap, String, List, [], ◌∷◌, map, string_eq, Bool-cases, Option-cases,
  inl, inr,
}
use sunstorm_xactserver.Base.Result.{Result, ok, ok-injective}
use sunstorm_xactserver.Benchmark.{Task}
use sunstorm_xactserver.Benchmark.Operation.{
  Namespace, Operation, is_chosen, create_tasks, sload_tasks, load_from, load_tasks,
  namespaces_without_global, execute_tasks, execute_task, global_task, target_setting,
}
use sunstorm_xactserver.Benchmark.Executed.{execute_tasks_cases}
use sunstorm_xactserver.Config.{flatten}
use sunstorm_xactserver.Shell.{Failure}
use sunstorm_xactserver.Benchmark.Main.{Choice, create, load, sload, execute, delete}
use sunstorm_xactserver.Benchmark.Logs.{
  WatchedJob, global_job, jobs_of, filtered_namespaces, log_jobs,
}

abbrev pub Place : Type 0
Place = String × String

abbrev pub place_of_task : Task → Place
place_of_task t = (t.namespace, t.region)

abbrev pub place_of_job : WatchedJob → Place
place_of_job j = (j.namespace, j.region)

-- The tasks of an operation that start a job; deleting starts none.
abbrev pub started : Choice → Operation → String → List String → Result Failure (List Task)
started create op timestamp regions = ok (create_tasks op regions)
started sload op timestamp regions = sload_tasks op regions
started load op timestamp regions = ok (load_tasks op regions)
started execute op timestamp regions = execute_tasks op timestamp regions
started delete op timestamp regions = ok []

load_from-places :
    (i : ℕ) (ns : List Namespace) (op : Operation) (regions : List String)
    → map place_of_job (jobs_of "create-load" "load" (filtered_namespaces ns regions))
      ≡ map place_of_task (load_from i ns op regions)
unfolding load_from jobs_of filtered_namespaces
load_from-places i [] op regions = refl
load_from-places i ((namespace, info) ∷ rest) op regions =
    elim (Bool-cases (is_chosen regions info.region)) [
      | inl e ↦
          rw (e, filtered_namespaces, load_from)
            (ap (λ ps. (namespace, info.region) ∷ ps) (load_from-places (suc i) rest op regions))
      | inr e ↦ rw (e, filtered_namespaces, load_from) (load_from-places (suc i) rest op regions)
    ]

execute-places :
    (op : Operation) (timestamp : String) (ns : List Namespace)
    → map place_of_job (jobs_of "execute" "execute" ns)
      ≡ map place_of_task (map (execute_task op timestamp) ns)
unfolding jobs_of
execute-places op timestamp [] = refl
execute-places op timestamp (n ∷ ns) =
    ap (λ ps. (n.0, n.1.region) ∷ ps) (execute-places op timestamp ns)

global-places :
    (op : Operation) (regions sets : List String) (shown_as : String)
    → map place_of_job (global_job op regions shown_as)
      ≡ map place_of_task (global_task op regions sets)
global-places op regions sets shown_as =
    elim (Bool-cases (is_chosen regions op.config.global_region)) [
      | inl e ↦ rw e refl
      | inr e ↦ rw e refl
    ]

sload-places :
    (op : Operation) (regions : List String) (ts : List Task)
    → sload_tasks op regions ≡ ok ts
    → map place_of_job (global_job op regions "sload") ≡ map place_of_task ts
unfolding sload_tasks
sload-places op regions ts h = elim (Bool-cases (is_chosen regions op.config.global_region)) [
  | inr e ↦ rw e (ap (map place_of_task) (ok-injective (rw (e, sload_tasks) at h)))
  | inl e ↦ elim (Option-cases op.config.global_region_target_address_and_database) [
    | inl missing ↦ absurd (cc (rw (e, missing, sload_tasks) at h))
    | inr (target, given) ↦
        global-places op regions ("operation=load" ∷ "loadall=true" ∷ target_setting target) "sload"
        ∙ ap (map place_of_task) (ok-injective (rw (e, given, sload_tasks) at h))
  ]
]

-- If the tasks of an operation can be made, the logs that it watches are those of the namespaces and
-- the regions of the tasks that start a job, in the same order: no job goes unwatched, and no log is
-- waited for without a job.
pub log_jobs-started :
    (c : Choice) (op : Operation) (timestamp : String) (regions : List String) (ts : List Task)
    → started c op timestamp regions ≡ ok ts
    → map place_of_job (log_jobs c op regions) ≡ map place_of_task ts
unfolding log_jobs load_tasks create_tasks sload_tasks
log_jobs-started create op timestamp regions ts h =
    global-places op regions
      ("operation=create"
        ∷ target_setting (flatten op.config.global_region_target_address_and_database))
      "create"
    ∙ ap (map place_of_task) (ok-injective h)
log_jobs-started sload op timestamp regions ts h = sload-places op regions ts h
log_jobs-started load op timestamp regions ts h =
    load_from-places 0 op.namespaces op regions ∙ ap (map place_of_task) (ok-injective h)
log_jobs-started execute op timestamp regions ts h =
    elim (execute_tasks_cases op timestamp regions).1 [
      | inl (_, failed) ↦ absurd (cc)
      | inr (_, made) ↦
          execute-places op timestamp (namespaces_without_global op.namespaces regions)
          ∙ ap (map place_of_task) (ok-injective (sym made ∙ h))
    ]
log_jobs-started delete op timestamp regions ts h = ap (map place_of_task) (ok-injective h)
