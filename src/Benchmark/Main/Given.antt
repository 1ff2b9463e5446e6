-- ===== src/Benchmark/Main/Given.antt =====
-- How the settings of the command line reach the commands of tools/benchmark.py.
use sunstorm_xactserver.Base.{
  ◌≡◌, ◌⊎◌, refl, sym, ◌∙◌, ap, inl, inr, String, Bool, true, false, Option, List, [], ◌∷◌, ◌++◌,
  All, All-append, Bool-cases, string_eq,
}
use sunstorm_xactserver.Base.Result.{ok, Result-cases, >>=-eq-ok, ok-injective}
use sunstorm_xactserver.Base.Text.{includes}
use sunstorm_xactserver.Config.{MainConfig}
use sunstorm_xactserver.Shell.{Command, Shell, run_subprocess}
use sunstorm_xactserver.Benchmark.{
  Task, helm_command, kubectl_command, set_flags, all_flags, run_benchmark, apply_chart,
  render_chart, context_of,
}
use sunstorm_xactserver.Benchmark.Operation.{make_operation, make_settings}
use sunstorm_xactserver.Benchmark.Main.{Totals, Arguments, main}
use sunstorm_xactserver.Benchmark.Main.Begins.{Begins, all_tasks}
use sunstorm_xactserver.Benchmark.Main.Kept.{main-All, then_run-All}

-- A setting with the same value in all regions.
abbrev pub IsPlain : String → Type 0
IsPlain s = includes s "=!" ≡ false

abbrev plain_flags : List String → List String
plain_flags [] = []
plain_flags (s ∷ sets) = "--set" ∷ s ∷ plain_flags sets

set_flags-IsPlain : (region s : String) → IsPlain s → set_flags region s ≡ ok ("--set" ∷ s ∷ [])
unfolding set_flags
set_flags-IsPlain region s plain = rw plain refl

-- The flags for settings that begin with these begin with their flags.
all_flags-given :
    (region : String) (given more : List String) {flags : List String}
    → All IsPlain given
    → all_flags region (given ++ more) ≡ ok flags
    → (rest : List String) × (flags ≡ plain_flags given ++ rest)
unfolding all_flags
all_flags-given region [] more {flags} plain made = (flags, refl)
all_flags-given region (s ∷ given) more {flags} (here, plain) made =
    let (first, e, made1) = >>=-eq-ok (set_flags region s) _ made in
    let (others, e', made2) = >>=-eq-ok (all_flags region (given ++ more)) _ made1 in
    let (rest, same) = all_flags-given region given more plain e' in
    let known = ok-injective (sym (set_flags-IsPlain region s here) ∙ e) in
    (
      rest,
      sym (ok-injective made2) ∙ ap (λ f. f ++ others) (sym known) ∙ ap (λ f. "--set" ∷ s ∷ f) same,
    )

-- A template with the given flags first, or kubectl.
abbrev pub SetsGiven : String → List String → Command → Type 0
SetsGiven chart given cmd =
    ((t : Task) × (rest : List String) × (dry_run : Bool) × (cmd
        ≡ helm_command chart t (plain_flags given ++ rest) dry_run))
    ⊎ ((verb : String) × (t : Task) × (context : String) × (cmd ≡ kubectl_command verb t context))

run_subprocess-All :
    (P : Command → Type 0) (shell : Shell) (cmd : Command) (dry_run check : Bool)
    (log : List Command)
    → P cmd
    → All P log
    → All P (run_subprocess shell cmd dry_run check log).1
unfolding run_subprocess
run_subprocess-All P shell cmd true check log here h = h
run_subprocess-All P shell cmd false check log here h = All-append P log (cmd ∷ []) h (here, tt)

module _ (shell : Shell) (config : MainConfig) (chart : String) (given : List String)
    (dry_run : Bool) (P : Command → Type 0)
    (implies : (cmd : Command) → SetsGiven chart given cmd → P cmd) where
  apply_chart-P :
      (t : Task) (context : String) (log : List Command)
      → All P log
      → All P (apply_chart shell config chart t dry_run context log).1
  unfolding apply_chart
  apply_chart-P t context log h =
      then_run-All (All P)
        (run_subprocess shell (kubectl_command "delete" t context) dry_run false log) _
        (run_subprocess-All P shell _ dry_run false log
          (implies _ (inr ("delete", t, context, refl))) h)
        (λ log1 h1. elim (Bool-cases t.delete_only) [
          | inl e ↦ rw e h1
          | inr e ↦ rw e (
              run_subprocess-All P shell _ dry_run true log1
                (implies _ (inr ("apply", t, context, refl))) h1)
        ])

  run_benchmark-P :
      All IsPlain given
      → (t : Task) (log : List Command) → Begins given t
      → All P log
      → All P (run_benchmark shell config chart t dry_run log).1
  unfolding run_benchmark render_chart
  run_benchmark-P plain t log (more, sets) h = elim (Result-cases (all_flags t.region t.sets)) [
    | inl (e, failed) ↦ rw (failed, run_benchmark) h
    | inr (flags, made) ↦
        let (rest, same) =
          all_flags-given t.region given more plain (ap (all_flags t.region) (sym sets) ∙ made) in
        rw (made, run_benchmark)
          (then_run-All (All P)
            (run_subprocess shell (helm_command chart t flags dry_run) false true log) _
            (run_subprocess-All P shell _ false true log
              (implies _ (inl (t, rest, dry_run, ap (λ f. helm_command chart t f dry_run) same))) h)
            (λ log1 h1. elim (Result-cases (context_of shell config chart t.region)) [
              | inl (e, lost) ↦ rw lost h1
              | inr (context, found) ↦ rw found (apply_chart-P t context log1 h1)
            ]))
  ]

-- Whatever the operation, every command that `main` runs is a kubectl, or renders the template with
-- the settings of the command line first, all of them and in their order. Each setting has the same
-- value in all regions.
pub main-SetsGiven :
    (shell : Shell) (config : MainConfig) (chart timestamp : String) (logged : Option Totals)
    (args : Arguments) (log : List Command) (P : Command → Type 0)
    → ((cmd : Command) → SetsGiven chart args.given cmd → P cmd)
    → All IsPlain args.given
    → All P log
    → All P (main shell config chart timestamp logged args log).1
unfolding make_operation make_settings
main-SetsGiven shell config chart timestamp logged args log P implies plain h =
    main-All shell config chart timestamp args.dry_run (All P) (Begins args.given)
      (λ t log1 good h1.
        run_benchmark-P shell config chart args.given args.dry_run P implies plain t log1 good h1)
      logged args log refl
      (all_tasks args.given (make_operation config args.given) _ refl timestamp args.regions) h
