-- ===== src/Benchmark/Commands.antt =====
-- Which commands `run_benchmark` of tools/benchmark.py runs.
use sunstorm_xactserver.Base.{
  ◌≡◌, ◌⊎◌, inl, inr, String, true, false, List, [], ◌∷◌, ◌++◌, arith, if◌then◌else◌,
}
use sunstorm_xactserver.Base.Result.{ok, err, Result-cases}
use sunstorm_xactserver.Config.{MainConfig, get_context}
use sunstorm_xactserver.Shell.{Command, Shell, run_subprocess, called_process}
use sunstorm_xactserver.Benchmark.{
  Task, helm_command, kubectl_command, all_flags, apply_chart, render_chart, run_benchmark,
}

module _ (shell : Shell) (config : MainConfig) (chart : String) (t : Task) where
  render_chart_dry :
      (flags : List String) (log : List Command)
      → (render_chart shell config chart t true flags log).1
        ≡ log ++ helm_command chart t flags true ∷ []
  unfolding render_chart apply_chart run_subprocess
  render_chart_dry flags log = ground arith

  -- On a dry run nothing is changed in the cluster: the only command that runs renders the
  -- template, and none does if a setting cannot be taken apart.
  pub run_benchmark_dry :
      (log : List Command)
      → ((run_benchmark shell config chart t true log).1 ≡ log)
        ⊎ ((flags : List String) × (all_flags t.region t.sets ≡ ok flags)
            × ((run_benchmark shell config chart t true log).1
                ≡ log ++ helm_command chart t flags true ∷ []))
  unfolding run_benchmark render_chart apply_chart run_subprocess
  run_benchmark_dry log = elim (Result-cases (all_flags t.region t.sets)) [
    | inl (e, failed) ↦ inl (rw (failed, run_benchmark))
    | inr (flags, made) ↦ inr (flags, made, rw (made, run_benchmark) (render_chart_dry flags log))
  ]

  -- With flags that can be made, a template that renders and a context, a run deletes the old
  -- deployment, whether or not that succeeds, and then, unless only deleting was asked for,
  -- creates the new one; it fails only if the creation does.
  pub run_benchmark_commands :
      (log : List Command) (flags : List String) (context : String)
      → all_flags t.region t.sets ≡ ok flags
      → shell.succeeds log (helm_command chart t flags false) ≡ true
      → get_context config t.region ≡ ok context
      → let deleted =
          (log ++ helm_command chart t flags false ∷ [])
          ++ kubectl_command "delete" t context ∷ [] in
        let apply = kubectl_command "apply" t context in
        run_benchmark shell config chart t false log ≡ (
          if t.delete_only then (ok tt, deleted) else (
            if shell.succeeds deleted apply then ok tt else err (called_process apply),
            deleted ++ apply ∷ [],
          ))
  unfolding run_benchmark render_chart apply_chart run_subprocess
  run_benchmark_commands log flags context made rendered found =
      rw (made, run_benchmark) (ground arith)
