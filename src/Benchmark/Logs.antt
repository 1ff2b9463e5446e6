-- ===== src/Benchmark/Logs.antt =====
-- The logs of the operations of tools/benchmark.py: whose logs are watched, and how they are
-- fetched. What Kubernetes answers to an attempt comes in as a function of its number.
pub mod Attempts
use sunstorm_xactserver.Base.{
  ℕ, zero, suc, ◌<>◌, String, Bool, Option, none, some, List, [], ◌∷◌, string_eq, if◌then◌else◌,
}
use sunstorm_xactserver.Base.Result.{Result, ok, err}
use sunstorm_xactserver.Config.{MainConfig, get_context, ContextError}
use sunstorm_xactserver.Logs.Pods.{Listed, get_pods}
use sunstorm_xactserver.Benchmark.Operation.{
  Namespace, Operation, is_chosen, namespaces_without_global,
}
use sunstorm_xactserver.Benchmark.Main.{Choice, create, load, sload, execute, delete}

-- A call of `get_job_logs`, and the name that its lines are shown under.
pub record WatchedJob : Type 0 where
  pub namespace : String
  pub region : String
  pub job : String
  pub shown_as : String

abbrev pub global_job : Operation → List String → String → List WatchedJob
global_job op regions shown_as =
    if is_chosen regions op.config.global_region
    then (record {
      namespace = "global";
      region = op.config.global_region;
      job = "create-load";
      shown_as = shown_as;
    })
      ∷ []
    else []

-- The jobs of some namespaces.
unfoldable pub jobs_of : String → String → List Namespace → List WatchedJob
jobs_of job shown_as [] = []
jobs_of job shown_as ((namespace, info) ∷ rest) =
    (record { namespace = namespace; region = info.region; job = job; shown_as = shown_as })
    ∷ jobs_of job shown_as rest

-- `filtered_namespaces` of `Load.log`
unfoldable pub filtered_namespaces : List Namespace → List String → List Namespace
filtered_namespaces [] regions = []
filtered_namespaces (n ∷ ns) regions =
    let rest = filtered_namespaces ns regions in
    if is_chosen regions n.1.region then n ∷ rest else rest

-- The calls of `get_job_logs` in `log` of the five operations.
unfoldable pub log_jobs : Choice → Operation → List String → List WatchedJob
unfolding jobs_of filtered_namespaces namespaces_without_global
log_jobs create op regions = global_job op regions "create"
log_jobs sload op regions = global_job op regions "sload"
log_jobs load op regions = jobs_of "create-load" "load" (filtered_namespaces op.namespaces regions)
log_jobs execute op regions =
    jobs_of "execute" "execute" (namespaces_without_global op.namespaces regions)
log_jobs delete op regions = []

-- A failure of `get_job_logs`: of `get_config`, of the job's selector, or after ten attempts.
pub data LogsError : Type 0 where
  context_error : ContextError → LogsError
  no_selector could_not_get unfinished : LogsError

-- `selector` is that of the job, if it has one; `pods` and `logs` are the answers to an attempt,
-- where `none` is an `ApiException`.
pub record Cluster : Type 0 where
  pub selector : WatchedJob → Option (List (String × String))
  pub pods : WatchedJob → List (String × String) → ℕ → Option (List Listed)
  pub logs : WatchedJob → String → ℕ → Option (List String)

module _ (cluster : Cluster) (job : WatchedJob) where
  -- `while len(pods) == 0`: the first pod of the first answer that has one, and the attempts.
  -- Only pods in these three phases count.
  pub first_pod : List (String × String) → ℕ → ℕ → Option String × ℕ
  unfolding get_pods
  first_pod selector zero k = (none, k)
  first_pod selector (suc fuel) k =
      let later = first_pod selector fuel (suc k) in
      elim (cluster.pods job selector k) [
        | none ↦ later
        | some listed ↦ elim (get_pods ("Running" ∷ "Pending" ∷ "Succeeded" ∷ []) listed) [
          | [] ↦ later
          | pod ∷ _ ↦ (some pod, suc k)
        ]
      ]

  -- `while attempt > 0`
  pub try_logs : ℕ → ℕ → String → Result LogsError (List String)
  try_logs zero k pod = err could_not_get
  try_logs (suc attempt) k pod =
      let later = try_logs attempt (suc k) pod in
      elim (cluster.logs job pod k) [ some lines ↦ ok lines | none ↦ later ]

  abbrev logs_of_pod : Option String → Result LogsError (List String)
  logs_of_pod none = err unfinished
  logs_of_pod (some pod) = try_logs 10 0 pod

  pub get_job_logs : MainConfig → ℕ → Bool → Result LogsError (List String)
  unfolding first_pod try_logs get_context
  get_job_logs config fuel dry_run =
      if dry_run
      then ok (
          ("[dry-run] logs for \"" <> (job.job <> ("\" in region \"" <> (job.region <> "\""))))
          ∷ [])
      else elim (get_context config job.region) [
        | err e ↦ err (context_error e)
        | ok _ ↦ elim (cluster.selector job) [
          | none ↦ err no_selector
          | some selector ↦ logs_of_pod (first_pod selector fuel 0).0
        ]
      ]

-- A line that `Execute.log` keeps, with its two numbers.
pub record Match (F : Type 0) : Type 0 where
  pub log : String
  pub throughput : F
  pub goodput : F

-- The floats and what the pattern finds in a line are parameters.
module _ {F : Type 0} (search : String → Option (F × F)) (zero_rate : F) (add : F → F → F) where
  abbrev with_rates : String → String → Option (F × F) → Option (Match F)
  with_rates name log none = none
  with_rates name log (some (t, g)) =
      some (record { log = "[" <> (name <> ("] " <> log)); throughput = t; goodput = g })

  -- The callback of `print_logs`.
  unfoldable parse_and_add : String → String → Option (Match F)
  parse_and_add name log = with_rates name log (search log)

  -- `throughput` and `goodput` after some lines, in the order in which they came.
  pub totals : List (Match F) → F × F → F × F
  totals [] sums = sums
  totals (m ∷ ms) (throughput, goodput) =
      totals ms (add throughput m.throughput, add goodput m.goodput)

  unfoldable execute_totals : List (Match F) → F × F
  unfolding totals
  execute_totals ms = totals ms (zero_rate, zero_rate)
