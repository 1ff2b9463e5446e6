-- ===== src/Benchmark/Main/Rounds.antt =====
-- Which commands `main` of tools/benchmark.py runs, over all tasks of an operation.
use sunstorm_xactserver.Base.{◌≡◌, ◌⊎◌, String, Bool, true, false, List, [], ◌∷◌, ◌++◌}
use sunstorm_xactserver.Base.Result.{ok, err}
use sunstorm_xactserver.Config.{MainConfig, ContextError, get_context}
use sunstorm_xactserver.Shell.{Command, Shell, Failure}
use sunstorm_xactserver.Benchmark.{Task, all_flags, run_benchmark}
use sunstorm_xactserver.Benchmark.Operation.{make_operation, load_tasks, execute_tasks}
use sunstorm_xactserver.Benchmark.Main.{load, execute, Arguments}

-- The template of a task is rendered; on a dry run Helm prints more.
abbrev renders : String → Task → List String → Bool → Command
renders chart t flags true =
    "helm" ∷ "template" ∷ chart ∷ "--namespace" ∷ t.namespace ∷ (flags ++ "--debug" ∷ [])
renders chart t flags false =
    "helm" ∷ "template" ∷ chart ∷ "--namespace" ∷ t.namespace ∷ (flags ++ [])

-- What has been rendered is deleted or applied, in the namespace of the task and in a context.
abbrev pub kubectl : String → Task → String → Command
kubectl verb t context =
    "kubectl" ∷ verb ∷ "--namespace" ∷ t.namespace ∷ "-f" ∷ "-" ∷ "--context" ∷ context ∷ []

module _ (shell : Shell) (config : MainConfig) (chart : String) (dry_run : Bool) where
  -- Why a round ends with the template.
  abbrev EndsAtOnce : Task → List String → List Command → Type 0
  EndsAtOnce t flags log =
      (dry_run ≡ true)
      ⊎ ((shell.succeeds log (renders chart t flags dry_run) ≡ false)
          ⊎ ((e : ContextError) × (get_context config t.region ≡ err e)))

  -- A round goes on to the cluster: not on a dry run, and the template has been rendered and the
  -- context found.
  pub record GoesOn (t : Task) (flags : List String) (log : List Command) (context : String)
      : Type 0 where
    not_dry : dry_run ≡ false
    pub rendered : shell.succeeds log (renders chart t flags false) ≡ true
    pub found : get_context config t.region ≡ ok context

  -- What a run of one task adds to the commands before it: nothing if its flags cannot be made, or
  -- the template alone, or the template and a deletion, or these and the new deployment. Each
  -- happens just in its case; a deletion may fail.
  pub data Round (t : Task) (log : List Command) : List Command → Type 0 where
    no_flags : (e : Failure) → all_flags t.region t.sets ≡ err e → Round t log log
    ends_at_once :
        (flags : List String)
        → all_flags t.region t.sets ≡ ok flags
        → EndsAtOnce t flags log
        → Round t log (log ++ renders chart t flags dry_run ∷ [])
    deletes :
        (flags : List String) (context : String)
        → all_flags t.region t.sets ≡ ok flags
        → GoesOn t flags log context
        → t.delete_only ≡ true
        → Round t log ((log ++ renders chart t flags false ∷ []) ++ kubectl "delete" t context ∷ [])
    replaces :
        (flags : List String) (context : String)
        → all_flags t.region t.sets ≡ ok flags
        → GoesOn t flags log context
        → t.delete_only ≡ false
        → Round t log (
            ((log ++ renders chart t flags false ∷ []) ++ kubectl "delete" t context ∷ [])
            ++ kubectl "apply" t context ∷ [])

  -- One round for each of the tasks, in their order.
  pub data Rounds : List Command → List Task → List Command → Type 0 where
    no_task : {log : List Command} → Rounds log [] log
    next :
        (t : Task) {ts : List Task} {log log1 log2 : List Command}
        → Round t log log1
        → Rounds log1 ts log2
        → Rounds log (t ∷ ts) log2

module _ (shell : Shell) (config : MainConfig) (chart : String) (t : Task)
    (log : List Command) where
  abbrev after : Bool → List Command
  after dry_run = (run_benchmark shell config chart t dry_run log).1

  -- The round of the task.
  abbrev RoundOf : Bool → Type 0
  RoundOf dry_run = Round shell config chart dry_run t log (after dry_run)

module _ (shell : Shell) (config : MainConfig) (chart timestamp : String) where
  -- The tasks of a Load, or of an Execute that can make them.
  abbrev Starts : Arguments → List Task → Type 0
  Starts args ts =
      let op = make_operation config args.given in
      ((args.operation ≡ load) × (load_tasks op args.regions ≡ ts))
      ⊎ ((args.operation ≡ execute) × (execute_tasks op timestamp args.regions ≡ ok ts))
