-- ===== src/Benchmark/Logs/Attempts.antt =====
-- How often `get_job_logs` of tools/benchmark.py asks, and what it ends with.
use native.Mathlib.Decide.{ℕ_discrete}
use sunstorm_xactserver.Base.{
  ℕ, zero, suc, ◌+◌, ◌≤◌, ◌<◌, ◌≡◌, ◌⊎◌, refl, sym, ◌∙◌, ap, inl, inr, String, false, Option, none,
  some, List, [], ◌∷◌, arith, Option-cases,
}
use sunstorm_xactserver.Base.Result.{ok, err}
use sunstorm_xactserver.Config.{MainConfig, get_context}
use sunstorm_xactserver.Logs.Pods.{get_pods}
use sunstorm_xactserver.Benchmark.Logs.{
  WatchedJob, Cluster, could_not_get, first_pod, try_logs, get_job_logs,
}

module _ (cluster : Cluster) (job : WatchedJob) where
  -- The pods that an attempt finds.
  abbrev pub found : List (String × String) → ℕ → List String
  found selector k = elim (cluster.pods job selector k) [
    | none ↦ []
    | some listed ↦ get_pods ("Running" ∷ "Pending" ∷ "Succeeded" ∷ []) listed
  ]

  first_pod-cons :
      (selector : List (String × String)) (fuel k : ℕ) {pod : String} {rest : List String}
      → found selector k ≡ pod ∷ rest
      → (first_pod cluster job selector (suc fuel) k).0 ≡ some pod
  unfolding first_pod
  first_pod-cons selector fuel k e = ground arith

  first_pod-nil :
      (selector : List (String × String)) (fuel k : ℕ)
      → found selector k ≡ []
      → first_pod cluster job selector (suc fuel) k ≡ first_pod cluster job selector fuel (suc k)
  unfolding first_pod
  first_pod-nil selector fuel k e = ground arith

  -- With a round more than the attempts that find no pod, the first pod of the next one is taken.
  first_pod_lem :
      (selector : List (String × String)) (fuel k n : ℕ) {pod : String} {rest : List String}
      → k ≤ n
      → n < k + fuel
      → ((j : ℕ) → k ≤ j → j < n → found selector j ≡ [])
      → found selector n ≡ pod ∷ rest
      → (first_pod cluster job selector fuel k).0 ≡ some pod
  first_pod_lem selector zero k n le lt before here = absurd (omega arith)
  first_pod_lem selector (suc fuel) k n le lt before here = elim (ℕ_discrete k n) [
    | yes e ↦ first_pod-cons selector fuel k (ap (found selector) e ∙ here)
    | no e ↦
        let less : k < n = omega (arith, e) in
        ap (λ (r : Option String × ℕ). r.0)
          (first_pod-nil selector fuel k (before k (omega arith) less))
        ∙ first_pod_lem selector fuel (suc k) n less (omega arith)
            (λ j h h'. before j (omega arith) h') here
  ]

  -- Ten attempts, or as many as are left.
  try_logs_lem :
      (attempt k : ℕ) (pod : String)
      → ((m : ℕ) × (lines : List String) × (m < k + attempt)
          × ((j : ℕ) → k ≤ j → j < m → cluster.logs job pod j ≡ none)
          × (cluster.logs job pod m ≡ some lines)
          × (try_logs cluster job attempt k pod ≡ ok lines))
        ⊎ (((j : ℕ) → k ≤ j → j < k + attempt → cluster.logs job pod j ≡ none)
            × (try_logs cluster job attempt k pod ≡ err could_not_get))
  unfolding try_logs
  try_logs_lem zero k pod = inr (λ j h h'. absurd (omega arith), refl)
  try_logs_lem (suc attempt) k pod = elim (Option-cases (cluster.logs job pod k)) [
    | inr (lines, e) ↦
        inl (k, lines, omega arith, λ j h h'. absurd (omega arith), e, rw (e, try_logs) refl)
    | inl e ↦ elim (try_logs_lem attempt (suc k) pod) [
      | inl (m, lines, lt, before, got, same) ↦
          inl (m, lines, omega arith, at_k e m before, got, rw (e, try_logs) same)
      | inr (before, same) ↦
          inr (λ j h h'. at_k e (suc k + attempt) before j h (omega arith), rw (e, try_logs) same)
    ]
  ]
    where
      at_k :
          cluster.logs job pod k ≡ none
          → (m : ℕ) → ((j : ℕ) → suc k ≤ j → j < m → cluster.logs job pod j ≡ none)
          → (j : ℕ) → k ≤ j
          → j < m
          → cluster.logs job pod j ≡ none
      at_k e m before j h h' = elim (ℕ_discrete k j) [
        | yes q ↦ ap (cluster.logs job pod) (sym q) ∙ e
        | no q ↦ before j (omega (arith, q)) h'
      ]

  -- Not on a dry run, with a context and a selector, if some attempt finds a pod and the fuel is more
  -- than the attempts before it, which find none: then the lines of the first attempt of at most ten at
  -- the logs of that pod that is answered are returned, or else all ten have failed and an exception is
  -- raised.
  pub get_job_logs_lem :
      (config : MainConfig) (selector : List (String × String)) (n fuel : ℕ) {context pod : String}
      {rest : List String}
      → n < fuel
      → get_context config job.region ≡ ok context
      → cluster.selector job ≡ some selector
      → ((j : ℕ) → j < n → found selector j ≡ [])
      → found selector n ≡ pod ∷ rest
      → ((m : ℕ) × (lines : List String) × (m < 10)
          × ((j : ℕ) → j < m → cluster.logs job pod j ≡ none)
          × (cluster.logs job pod m ≡ some lines)
          × (get_job_logs cluster job config fuel false ≡ ok lines))
        ⊎ (((j : ℕ) → j < 10 → cluster.logs job pod j ≡ none)
            × (get_job_logs cluster job config fuel false ≡ err could_not_get))
  unfolding get_job_logs
  get_job_logs_lem config selector n fuel {context} {pod} lt connected selects before here =
      let first =
        first_pod_lem selector fuel 0 n (omega arith) (omega arith) (λ j _ h. before j h) here in
      elim (try_logs_lem 10 0 pod) [
        | inl (m, lines, few, failed, got, same) ↦ inl (
          m,
          lines,
          few,
          λ j h. failed j (omega arith) h,
          got,
          rw (connected, selects, first) same,
        )
        | inr (failed, same) ↦
            inr (λ j h. failed j (omega arith) h, rw (connected, selects, first) same)
      ]
