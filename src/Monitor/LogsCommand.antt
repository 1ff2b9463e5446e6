-- ===== src/Monitor/LogsCommand.antt =====
-- The `logs` command of tools/monitor.py: the tasks that it submits, and the logs that they find.
-- The tasks run one after the other; what Kubernetes answers comes in as functions, where `none` is
-- an `ApiException`.
use sunstorm_xactserver.Base.{String, Bool, true, false, Option, none, some, List, [], ◌∷◌, ◌++◌}
use sunstorm_xactserver.Base.Dict.{Dict}
use sunstorm_xactserver.Base.Result.{Result, ok, err, ◌>>=◌}
use sunstorm_xactserver.Config.{MainConfig, NamespaceInfo, ContextError, get_context}
use sunstorm_xactserver.Monitor.{get_chosen_namespaces}

pub data Target : Type 0 where
  deployment pod : String → Target

-- What `_get_named_logs` is called with.
record Request : Type 0 where
  pub namespace : String
  pub region : String
  pub target : Target

-- `args.deployment` and `args.pod`
abbrev PodsAndLogs : Type 0
PodsAndLogs = Option (List String) × Option (List String)

-- The assignment to `args.deployment`, which later namespaces see too.
pub with_default : PodsAndLogs → PodsAndLogs
with_default (none, none) = (some ("compute" ∷ "xactserver" ∷ []), none)
with_default (some ds, pods) = (some ds, pods)
with_default (none, some ps) = (none, some ps)

abbrev or_none : Option (List String) → List String
or_none none = []
or_none (some names) = names

abbrev requests_in : String → String → (String → Target) → List String → List Request
requests_in ns region target [] = []
requests_in ns region target (name ∷ names) =
    (record { namespace = ns; region = region; target = target name })
    ∷ requests_in ns region target names

-- The loop of `do_command`.
requests : PodsAndLogs → Dict String NamespaceInfo → List Request
unfolding with_default
requests args [] = []
requests args ((ns, info) ∷ rest) =
    let args1 = with_default args in
    requests_in ns info.region deployment (or_none args1.0)
    ++ (requests_in ns info.region pod (or_none args1.1) ++ requests args1 rest)

-- `NamedLogs`, with the pod whose lines are in the stream.
pub record Watched : Type 0 where
  pub namespace : String
  pub name : String
  from_pod : String

pub data WatchError : Type 0 where
  api_error : WatchError
  context_error : ContextError → WatchError

-- The labels of a deployment, the pods with some labels, and whether the logs of a pod can be read.
pub record Api : Type 0 where
  pub selector : String → String → Option (List (String × String))
  pub pods : String → List (String × String) → Option (List String)
  has_logs : String → String → Bool

-- `deployment if deployment else pods[0]`
abbrev shown_name : Target → String → String
shown_name (deployment d) first = d
shown_name (pod p) first = first

abbrev pub or_raise : {A : Type 0} → Option A → Result WatchError A
or_raise none = err api_error
or_raise (some a) = ok a

module _ (api : Api) where
  abbrev pods_of : String → Target → Result WatchError (List String)
  pods_of ns (pod p) = ok (p ∷ [])
  pods_of ns (deployment d) =
      or_raise (api.selector d ns) >>= λ selector. or_raise (api.pods ns selector)

  -- Only the first pod is watched.
  abbrev watch_first : String → Target → List String → Option Watched
  watch_first ns target [] = none
  watch_first ns target (first ∷ _) = elim (api.has_logs ns first) [
    | true ↦ some (record { namespace = ns; name = shown_name target first; from_pod = first })
    | false ↦ none
  ]

  get_named_logs : MainConfig → Request → Result WatchError (Option Watched)
  unfolding get_context
  get_named_logs config r = elim (get_context config r.region) [
    | err e ↦ err (context_error e)
    | ok _ ↦ pods_of r.namespace r.target >>= λ pods. ok (watch_first r.namespace r.target pods)
  ]

  abbrev add_found : Option Watched → List Watched → List Watched
  add_found none later = later
  add_found (some w) later = w ∷ later

  -- `[task.result() for task in tasks if task.result()]`
  results : MainConfig → List Request → Result WatchError (List Watched)
  unfolding get_named_logs
  results config [] = ok []
  results config (r ∷ rest) = get_named_logs config r >>= λ found.
      results config rest >>= λ later. ok (add_found found later)

  -- The logs that are watched, once the prompt is answered.
  unfoldable pub named_logs :
      MainConfig → List String → PodsAndLogs → Result WatchError (List Watched)
  unfolding results requests get_chosen_namespaces
  named_logs config names args =
      results config (requests args (get_chosen_namespaces config names).0)
