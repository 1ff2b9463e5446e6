-- ===== src/Benchmark/Operation.antt =====
-- The operations of tools/benchmark.py: which charts are rendered where, with which settings.
use sunstorm_xactserver.Base.{
  ℕ, suc, ◌<>◌, String, Bool, true, false, not, ◌&&◌, Option, none, some, List, [], ◌∷◌, ◌++◌,
  contains, ◌==◌, string_eq, if◌then◌else◌, leb, eqb,
}
use sunstorm_xactserver.Base.Dict.{keys}
use sunstorm_xactserver.Base.Result.{Result, ok, err}
use sunstorm_xactserver.Base.Text.{show, join}
use sunstorm_xactserver.Config.{MainConfig, NamespaceInfo, flatten, get_namespaces}
use sunstorm_xactserver.Shell.{Failure, no_workers, missing_key}
use sunstorm_xactserver.Benchmark.{Task}

-- `Namespace(name, info)`
abbrev pub Namespace : Type 0
Namespace = String × NamespaceInfo

-- `cls.namespaces.sort(key=lambda ns: ns.info["id"])`, which is stable.
unfoldable pub insert_by_id : Namespace → List Namespace → List Namespace
insert_by_id n [] = n ∷ []
insert_by_id n (m ∷ ms) =
    let rest = insert_by_id n ms in if leb n.1.id m.1.id then n ∷ m ∷ ms else m ∷ rest

unfoldable pub sort_by_id : List Namespace → List Namespace
unfolding insert_by_id
sort_by_id [] = []
sort_by_id (n ∷ ns) = insert_by_id n (sort_by_id ns)

abbrev pub show_option : Option String → String
show_option none = "None"
show_option (some text) = text

-- `namespaces.{ns}.{k}={v}` for each field
info_settings : Namespace → List String
unfolding show
info_settings (ns, info) =
    let dotted : String = "namespaces." <> (ns <> ".") in
    (dotted <> ("region=" <> info.region))
    ∷ (dotted <> ("id=" <> show info.id))
    ∷ (dotted <> ("target_address_and_database=" <> show_option info.target_address_and_database))
    ∷ (dotted <> ("warmup=" <> show info.warmup))
    ∷ (dotted <> ("benchbase_instances=" <> show info.benchbase_instances))
    ∷ []

unfoldable pub all_info_settings : List Namespace → List String
unfolding info_settings
all_info_settings [] = []
all_info_settings (n ∷ ns) = info_settings n ++ all_info_settings ns

-- `cls.settings` of `Operation.run`, from the settings of the command line.
unfoldable pub make_settings : List String → List Namespace → List String
unfolding all_info_settings
make_settings given namespaces =
    given
    ++ (("ordered_namespaces={" <> (join "," (keys namespaces) <> "}"))
        ∷ all_info_settings namespaces)

-- The class variables that the operations read.
pub record Operation : Type 0 where
  pub config : MainConfig
  pub namespaces : List Namespace
  pub settings : List String

-- `Operation.run`, up to the operation itself.
unfoldable pub make_operation : MainConfig → List String → Operation
unfolding sort_by_id make_settings get_namespaces
make_operation config given =
    let namespaces = sort_by_id (get_namespaces config) in
    record { config = config; namespaces = namespaces; settings = make_settings given namespaces }

-- `not regions or region in regions`
abbrev pub is_chosen : List String → String → Bool
is_chosen [] region = true
is_chosen (r ∷ rs) region = contains (r ∷ rs) region

-- `if target: sets.append(...)`
abbrev pub target_setting : Option String → List String
target_setting none = []
target_setting (some target) =
    if target == "" then [] else ("target_address_and_database=" <> target) ∷ []

-- `if n: sets.append(f"{key}={n}")`
unfoldable pub count_setting : String → ℕ → List String
unfolding show
count_setting key n = if eqb n 0 then [] else (key <> ("=" <> show n)) ∷ []

-- One task in the global region, if it is chosen.
abbrev pub global_task : Operation → List String → List String → List Task
global_task op regions sets =
    if is_chosen regions op.config.global_region
    then (record {
      namespace = "global";
      region = op.config.global_region;
      sets = op.settings ++ sets;
      delete_only = false;
    })
      ∷ []
    else []

-- `Create.do`
unfoldable pub create_tasks : Operation → List String → List Task
create_tasks op regions = global_task op regions (
    "operation=create"
    ∷ target_setting (flatten op.config.global_region_target_address_and_database))

-- `SLoad.do`, which wants the key of the target to be there.
unfoldable pub sload_tasks : Operation → List String → Result Failure (List Task)
sload_tasks op regions =
    if is_chosen regions op.config.global_region
    then elim op.config.global_region_target_address_and_database [
      | none ↦ err (missing_key "global_region_target_address_and_database")
      | some target ↦
          ok (global_task op regions ("operation=load" ∷ "loadall=true" ∷ target_setting target))
    ]
    else ok []

-- The loop of `Load.do`: the namespace's id is its place in the list.
unfoldable pub load_from : ℕ → List Namespace → Operation → List String → List Task
unfolding show
load_from i [] op regions = []
load_from i ((namespace, info) ∷ rest) op regions =
    let later = load_from (suc i) rest op regions in
    if is_chosen regions info.region
    then (record {
      namespace = namespace;
      region = info.region;
      sets =
          op.settings
          ++ ("operation=load"
              ∷ "loadall=false"
              ∷ ("namespace_id=" <> show i)
              ∷ target_setting info.target_address_and_database);
      delete_only = false;
    })
      ∷ later
    else later

-- `Load.do`
unfoldable pub load_tasks : Operation → List String → List Task
unfolding load_from
load_tasks op = load_from 0 op.namespaces op

-- `Execute.namespaces_without_global`
unfoldable pub namespaces_without_global : List Namespace → List String → List Namespace
namespaces_without_global [] regions = []
namespaces_without_global (n ∷ ns) regions =
    let rest = namespaces_without_global ns regions in
    if not (n.0 == "global") && is_chosen regions n.1.region then n ∷ rest else rest

abbrev pub execute_task : Operation → String → Namespace → Task
execute_task op timestamp (namespace, info) = record {
  namespace = namespace;
  region = info.region;
  sets =
      op.settings
      ++ ("operation=execute"
          ∷ ("timestamp=" <> timestamp)
          ∷ ("namespace_id=" <> show info.id)
          ∷ (target_setting info.target_address_and_database
              ++ (count_setting "warmup" info.warmup
                  ++ count_setting "instances" info.benchbase_instances)));
  delete_only = false;
}

-- The loop of `Execute.do`, which tests the region once more.
unfoldable pub execute_from : List Namespace → Operation → String → List String → List Task
unfolding show count_setting
execute_from [] op timestamp regions = []
execute_from (n ∷ ns) op timestamp regions =
    let rest = execute_from ns op timestamp regions in
    if is_chosen regions n.1.region then execute_task op timestamp n ∷ rest else rest

-- `Execute.do`: a thread pool wants at least one worker.
unfoldable pub execute_tasks : Operation → String → List String → Result Failure (List Task)
unfolding execute_from namespaces_without_global
execute_tasks op timestamp regions = elim (namespaces_without_global op.namespaces regions) [
  | [] ↦ err no_workers
  | n ∷ ns ↦ ok (execute_from (n ∷ ns) op timestamp regions)
]

abbrev delete_task : Operation → Namespace → String → Task
delete_task op n operation = record {
  namespace = n.0;
  region = n.1.region;
  sets = op.settings ++ operation ∷ [];
  delete_only = true;
}

unfoldable pub delete_from : List Namespace → Operation → List String → List Task
delete_from [] op regions = []
delete_from (n ∷ ns) op regions =
    let rest = delete_from ns op regions in
    if is_chosen regions n.1.region
    then delete_task op n "operation=load" ∷ delete_task op n "operation=execute" ∷ rest
    else rest

-- `Delete.do`, before the pool
unfoldable pub delete_global : Operation → List String → List Task
delete_global op regions =
    if is_chosen regions op.config.global_region
    then (record {
      namespace = "global";
      region = op.config.global_region;
      sets = op.settings ++ "operation=create" ∷ [];
      delete_only = true;
    })
      ∷ []
    else []
