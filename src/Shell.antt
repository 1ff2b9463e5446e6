-- ===== src/Shell.antt =====
-- `run_subprocess` of tools/utils.py. A command that is run is recorded; whether it exits with
-- status 0 is for the world to say, from the commands before it.
use sunstorm_xactserver.Base.{String, Bool, ◌&&◌, not, List, [], ◌∷◌, ◌++◌, if◌then◌else◌}
use sunstorm_xactserver.Base.Result.{Result, ok, err}
use sunstorm_xactserver.Config.{ContextError}

abbrev pub Command : Type 0
Command = List String

pub record Shell : Type 0 where
  pub succeeds : List Command → Command → Bool

-- What ends a tool: a text that it cannot take apart, no worker for a
-- thread pool, a command that fails, a missing context, or a missing key.
pub data Failure : Type 0 where
  invalid_value : String → Failure
  unpack_error : Failure
  no_workers : Failure
  called_process : Command → Failure
  context_error : ContextError → Failure
  missing_key : String → Failure

-- The outcome, and all commands that have been run.
abbrev pub Run : Type 0
Run = Result Failure (Unit {0}) × List Command

unfoldable pub run_subprocess : Shell → Command → Bool → Bool → List Command → Run
run_subprocess shell cmd dry_run check log = if dry_run then (ok tt, log) else (
  if check && not (shell.succeeds log cmd) then err (called_process cmd) else ok tt,
  log ++ cmd ∷ [],
)

-- Goes on where nothing has been raised.
abbrev pub then_run : Run → (List Command → Run) → Run
then_run (ok _, log) next = next log
then_run (err e, log) next = (err e, log)
