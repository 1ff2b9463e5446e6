-- ===== src/Benchmark.antt =====
-- tools/benchmark.py: `run_benchmark`, which renders one Helm chart and applies it in one region.
pub mod Commands
pub mod Operation
pub mod Tasks
pub mod Executed
pub mod Main
pub mod Logs
pub mod Watched
mod Tests
use sunstorm_xactserver.Base.{
  ℕ, ◌<>◌, String, Bool, true, false, Option, none, some, List, [], ◌∷◌, ◌++◌, ◌==◌, string_eq,
  if◌then◌else◌,
}
use sunstorm_xactserver.Base.Result.{Result, ok, err, ◌>>=◌}
use sunstorm_xactserver.Base.Text.{includes, split, split_pair, strip}
use sunstorm_xactserver.Config.{MainConfig, get_context}
use sunstorm_xactserver.Shell.{
  Command, Shell, Failure, invalid_value, unpack_error, context_error, Run, run_subprocess,
  then_run,
}

-- `target_region, val = part.split(":")`, and the flags for the region.
target_flags : String → String → List String → Result Failure (List String)
unfolding strip
target_flags region key (target ∷ val ∷ []) =
    ok (if strip target == region then "--set" ∷ (key <> ("=" <> strip val)) ∷ [] else [])
target_flags region key _ = err unpack_error

-- The loop over the per-region values.
value_flags : String → String → List String → Result Failure (List String)
unfolding target_flags includes split
value_flags region key [] = ok []
value_flags region key (part ∷ parts) =
    if includes part ":"
    then (target_flags region key (split b':' part) >>= λ flags.
        value_flags region key parts >>= λ rest. ok (flags ++ rest))
    else err (invalid_value part)

-- `key, value = s.split("=!")`, and the loop.
pair_flags : String → List String → Result Failure (List String)
unfolding value_flags
pair_flags region (key ∷ value ∷ []) = value_flags region key (split b';' value)
pair_flags region _ = err unpack_error

-- What one setting adds to the Helm command of a region.
pub set_flags : String → String → Result Failure (List String)
unfolding pair_flags split_pair
set_flags region s =
    if includes s "=!" then pair_flags region (split_pair b'=' b'!' s) else ok ("--set" ∷ s ∷ [])

pub all_flags : String → List String → Result Failure (List String)
unfolding set_flags
all_flags region [] = ok []
all_flags region (s ∷ sets) =
    set_flags region s >>= λ flags. all_flags region sets >>= λ rest. ok (flags ++ rest)

-- What a call of `run_benchmark` is given.
pub record Task : Type 0 where
  pub namespace : String
  pub region : String
  pub sets : List String
  pub delete_only : Bool

abbrev pub helm_command : String → Task → List String → Bool → Command
helm_command chart t flags dry_run =
    "helm"
    ∷ "template"
    ∷ chart
    ∷ "--namespace"
    ∷ t.namespace
    ∷ (flags ++ (if dry_run then "--debug" ∷ [] else []))

abbrev pub kubectl_command : String → Task → String → Command
kubectl_command verb t context =
    "kubectl" ∷ verb ∷ "--namespace" ∷ t.namespace ∷ "-f" ∷ "-" ∷ "--context" ∷ context ∷ []

abbrev or_raise : Result Failure String → List Command → (String → List Command → Run) → Run
or_raise (ok context) log next = next context log
or_raise (err e) log next = (err e, log)

module _ (shell : Shell) (config : MainConfig) (chart : String) where
  abbrev context_of : String → Result Failure String
  context_of region = elim (get_context config region) [
    | ok c ↦ ok c
    | err e ↦ err (context_error e)
  ]

  -- The deployment that is there is deleted, and unless that is all, the new one is created.
  pub apply_chart : Task → Bool → String → List Command → Run
  unfolding run_subprocess
  apply_chart t dry_run context log =
      then_run (run_subprocess shell (kubectl_command "delete" t context) dry_run false log) λ log1.
        if t.delete_only
        then (ok tt, log1)
        else run_subprocess shell (kubectl_command "apply" t context) dry_run true log1

  -- The Helm template is rendered on a dry run too.
  pub render_chart : Task → Bool → List String → List Command → Run
  unfolding apply_chart
  render_chart t dry_run flags log =
      then_run (run_subprocess shell (helm_command chart t flags dry_run) false true log)
        λ log1. or_raise (context_of t.region) log1 (apply_chart t dry_run)

  pub run_benchmark : Task → Bool → List Command → Run
  unfolding all_flags render_chart
  run_benchmark t dry_run log = elim (all_flags t.region t.sets) [
    | err e ↦ (err e, log)
    | ok flags ↦ render_chart t dry_run flags log
  ]
