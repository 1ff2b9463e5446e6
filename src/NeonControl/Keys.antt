-- ===== src/NeonControl/Keys.antt =====
-- Which regions there are while programs run in them (tools/neonctl.py).
use mathlib.Core.Option.{some-ne-none}
use sunstorm_xactserver.Base.{
  ◌≡◌, refl, sym, ◌∙◌, ap, String, Bool, true, false, List, [], ◌∷◌, string_eq, if◌then◌else◌, inl,
  inr, Option-cases, Bool-cases,
}
use sunstorm_xactserver.Base.Dict.{lookup, keys, keys-insert}
use sunstorm_xactserver.Base.Number.{int}
use sunstorm_xactserver.Base.Result.{ok, err, Result}
use sunstorm_xactserver.NeonControl.{
  Tool, World, Cluster, Run, ControlError, Arguments, get_neon, get_xactserver, neon_run,
  xactserver_stop, then_do, pid_text,
}
use sunstorm_xactserver.NeonControl.Commands.{
  with_tool, get_regions_in_root_dir, stop_xactservers, stop_neon, stop_all_regions,
}

-- A run that leaves the names of the regions as they are.
abbrev pub KeepsKeys : Cluster → Run → Type 0
KeepsKeys c out = keys out.1.regions ≡ keys c.regions

pub then_do-KeepsKeys :
    (c : Cluster) (first : Run) (next : Cluster → Run)
    → KeepsKeys c first
    → ((c' : Cluster) → KeepsKeys c' (next c'))
    → KeepsKeys c (then_do first next)
then_do-KeepsKeys c (ok _, c') next same h = h c' ∙ same
then_do-KeepsKeys c (err e, c') next same h = same

pub neon_run-KeepsKeys :
    (world : World) (neon : Tool) (check : Bool) (region : String) (args : List String)
    (c : Cluster)
    → KeepsKeys c (neon_run world neon check region args c)
unfolding neon_run
neon_run-KeepsKeys world neon check region args c = elim (Bool-cases neon.dry_run) [
  | inl e ↦ rw e refl
  | inr e ↦ elim (Option-cases (lookup region c.regions)) [
    | inl none_there ↦ rw (e, none_there) refl
    | inr (r, there) ↦
        rw (e, there) (keys-insert region _ c.regions (λ gone. some-ne-none r (sym there ∙ gone)))
  ]
]

stop_neon-KeepsKeys :
    (world : World) (neon : Tool) (names : List String) (c : Cluster)
    → KeepsKeys c (stop_neon world neon names c)
unfolding stop_neon
stop_neon-KeepsKeys world neon [] c = refl
stop_neon-KeepsKeys world neon (name ∷ names) c =
    then_do-KeepsKeys c (neon_run world neon false name ("stop" ∷ []) c)
      (stop_neon world neon names) (neon_run-KeepsKeys world neon false name ("stop" ∷ []) c)
      (stop_neon-KeepsKeys world neon names)

xactserver_stop-regions :
    (xactserver : Tool) (region : String) (c : Cluster)
    → (xactserver_stop xactserver region c).1.regions ≡ c.regions
unfolding xactserver_stop
xactserver_stop-regions xactserver region c = elim (Bool-cases xactserver.dry_run) [
  | inl e ↦ rw e refl
  | inr e ↦ elim (Option-cases (pid_text (lookup region c.regions))) [
    | inl no_file ↦ rw (e, no_file) refl
    | inr (text, file) ↦ elim (Option-cases (int text)) [
      | inl bad ↦ rw (e, file, bad) refl
      | inr (pid, good) ↦ rw (e, file, good) refl
    ]
  ]
]

stop_xactservers-KeepsKeys :
    (xactserver : Tool) (names : List String) (c : Cluster)
    → KeepsKeys c (stop_xactservers xactserver names c)
unfolding stop_xactservers
stop_xactservers-KeepsKeys xactserver [] c = refl
stop_xactservers-KeepsKeys xactserver (name ∷ names) c =
    then_do-KeepsKeys c (xactserver_stop xactserver name c) (stop_xactservers xactserver names)
      (ap keys (xactserver_stop-regions xactserver name c))
      (stop_xactservers-KeepsKeys xactserver names)

with_tool-KeepsKeys :
    (c : Cluster) (found : Result ControlError Tool) (next : Tool → Run)
    → ((tool : Tool) → KeepsKeys c (next tool))
    → KeepsKeys c (with_tool found c next)
with_tool-KeepsKeys c (err e) next h = refl
with_tool-KeepsKeys c (ok tool) next h = h tool

pub if-KeepsKeys :
    (c : Cluster) (b : Bool) (first second : Run)
    → KeepsKeys c first
    → KeepsKeys c second
    → KeepsKeys c (if b then first else second)
if-KeepsKeys c true first second h h' = h
if-KeepsKeys c false first second h h' = h'

module _ (is_file : String → Bool) (absolute : String → String) (world : World)
    (args : Arguments) where
  pub stop_all_regions-KeepsKeys :
      (c : Cluster) → KeepsKeys c (stop_all_regions is_file absolute world args c)
  unfolding stop_all_regions
  stop_all_regions-KeepsKeys c =
      let regions = get_regions_in_root_dir c in
      then_do-KeepsKeys c
        (if args.no_xactserver
          then (ok tt, c)
          else with_tool (get_xactserver is_file absolute args) c
              λ xactserver. stop_xactservers xactserver regions c)
        (λ c'.
          with_tool (get_neon is_file absolute args) c' λ neon. stop_neon world neon regions c')
        (if-KeepsKeys c args.no_xactserver (ok tt, c)
          (with_tool (get_xactserver is_file absolute args) c
            λ xactserver. stop_xactservers xactserver regions c)
          refl
          (with_tool-KeepsKeys c (get_xactserver is_file absolute args)
            (λ xactserver. stop_xactservers xactserver regions c)
            (λ xactserver. stop_xactservers-KeepsKeys xactserver regions c)))
        (λ c'.
          with_tool-KeepsKeys c' (get_neon is_file absolute args)
            (λ neon. stop_neon world neon regions c')
            (λ neon. stop_neon-KeepsKeys world neon regions c'))
