-- ===== src/Eks/DryRun.antt =====
-- What tools/eks.py does on a dry run.
use sunstorm_xactserver.Base.{
  ◌≡◌, refl, Bool, true, false, List, [], ◌∷◌, ◌++◌, ◌<>◌, String, ◌⊎◌, All, All-append, inl, inr,
  if◌then◌else◌,
}
use sunstorm_xactserver.Base.Dict.{keys}
use sunstorm_xactserver.Base.Result.{ok, err, Result-cases}
use sunstorm_xactserver.Eks.{
  Event, run, write, World, Setup, RegionInfo, Run, then_do, first_global, template, create_command,
  generate_from, generate_eks_configs, create_eks_cluster, delete_eks_cluster, Action, create,
  delete, generate, run_pool, act, refused, infos_of, missing_key, main,
}

module _ (world : World) (setup : Setup) where
  -- A file that is written, a template that is rendered, or a creation that `eksctl` is told to
  -- try only.
  abbrev pub IsTrial : Event → Type 0
  IsTrial (write _ _) = Unit
  IsTrial (run cmd) =
      ((flags : List String) × (cmd ≡ "helm" ∷ "template" ∷ flags))
      ⊎ ((r : RegionInfo) × (cmd
            ≡ "eksctl"
              ∷ "create"
              ∷ "cluster"
              ∷ "--config-file"
              ∷ (setup.base <> ("/workspace/eks-" <> (r.name <> ".yaml")))
              ∷ "--dry-run"
              ∷ []))

  abbrev Trial : List Event → Type 0
  Trial events = All IsTrial events

  generate_from-Trial :
      (g : RegionInfo) (regions : List RegionInfo) (events : List Event)
      → Trial events
      → Trial (generate_from world setup g regions events)
  unfolding generate_from
  generate_from-Trial g [] events h = h
  generate_from-Trial g (r ∷ regions) events h = generate_from-Trial g regions _ (
      All-append IsTrial (events ++ run (template world setup g r) ∷ []) _
        (All-append IsTrial events (run (template world setup g r) ∷ []) h (inl (_, refl), tt))
        (tt, tt))

  run_pool-Trial :
      (action : RegionInfo → List Event → Run) (infos : List RegionInfo) (events : List Event)
      → ((info : RegionInfo) (es : List Event) → Trial es → Trial (action info es).1)
      → Trial events
      → Trial (run_pool action infos events).1
  unfolding run_pool
  run_pool-Trial action [] events keeps h = h
  run_pool-Trial action (info ∷ infos) events keeps h =
      run_pool-Trial action infos (action info events).1 keeps (keeps info events h)

  act-Trial :
      (action : Action) (infos : List RegionInfo) (events : List Event)
      → Trial events
      → Trial (act world setup true action infos events).1
  unfolding act
  act-Trial create infos events h =
      run_pool-Trial (λ info. create_eks_cluster world setup info true) infos events
        (λ info es hs.
          All-append IsTrial es (run (create_command world setup info true) ∷ []) hs
            (inr (info, refl), tt))
        h
  act-Trial delete infos events h =
      run_pool-Trial (λ info. delete_eks_cluster world setup info true) infos events
        (λ info es hs. hs) h
  act-Trial generate infos events h = h

  then_do-Trial :
      (r : Run) (next : List Event → Run)
      → Trial r.1
      → ((es : List Event) → Trial es → Trial (next es).1)
      → Trial (then_do r next).1
  then_do-Trial (ok _, events) next h keeps = keeps events h
  then_do-Trial (err e, events) next h keeps = h

  generate-Trial : (infos : List RegionInfo) → Trial (generate_eks_configs world setup infos []).1
  unfolding generate_eks_configs
  generate-Trial infos = elim (Result-cases (first_global infos)) [
    | inl (e, none_global) ↦ rw (none_global, generate_eks_configs) tt
    | inr (g, found) ↦ rw (found, generate_eks_configs) (generate_from-Trial g infos [] tt)
  ]

-- On a dry run of any of the three actions no cluster is created or deleted: files are written,
-- templates rendered, and every `eksctl` is a creation with `--dry-run`.
pub main-IsTrial :
    (world : World) (setup : Setup) (action : Action)
    → All (IsTrial world setup) (main world setup true action []).1
unfolding main
main-IsTrial world setup action = go setup.has_regions (refused world setup true action) (
    then_do-Trial world setup (generate_eks_configs world setup infos [])
      (act world setup true action infos) (generate-Trial world setup infos)
      (act-Trial world setup action infos))
  where
    infos : List RegionInfo
    infos =
        infos_of setup.config.global_region
          (world.as_set (keys setup.config.regions ++ setup.config.global_region ∷ []))

    go :
        (has denied : Bool)
        → All
            (IsTrial world setup)
            (then_do
              (generate_eks_configs world setup infos [])
              (act world setup true action infos)).1
        → let out : Run =
            if has
            then if denied
              then (ok tt, [])
              else then_do
                  (generate_eks_configs world setup infos [])
                  (act world setup true action infos)
            else (err (missing_key "regions"), []) in
          All (IsTrial world setup) out.1
    go true true h = tt
    go true false h = h
    go false denied h = tt
