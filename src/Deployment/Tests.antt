-- ===== src/Deployment/Tests.antt =====
-- A deployment in two regions, and the theorems at it.
use sunstorm_xactserver.Base.{
  ℕ, zero, suc, ◌+◌, ◌<◌, ◌≡◌, ◌≢◌, refl, String, true, false, none, some, List, [], ◌∷◌, arith,
  All, string_eq,
}
use sunstorm_xactserver.Base.Result.{ok}
use sunstorm_xactserver.Base.Text.{includes}
use sunstorm_xactserver.Config.{MainConfig}
use sunstorm_xactserver.Benchmark.Operation.{make_operation, load_tasks}
use sunstorm_xactserver.Deployment.{
  create_namespace, Answer, created, refused, World, Setup, then_do,
}
use sunstorm_xactserver.Deployment.Addresses.{Addresses}
use sunstorm_xactserver.Deployment.DryRun.{main-IsHarmless}
use sunstorm_xactserver.Deployment.Harmless.{IsHarmless}
use sunstorm_xactserver.Deployment.Kubernetes.{retry, after_answer, create_from}
use sunstorm_xactserver.Deployment.Main.{Arguments, stage_index, main}
use sunstorm_xactserver.Deployment.Neon.{index_of}
use sunstorm_xactserver.Deployment.Numbers.{IsDeployedAs, load_tasks-IsDeployedAs}
use sunstorm_xactserver.Deployment.Retry.{next, calls, outcome, create_from-attempts}
use sunstorm_xactserver.Deployment.Stages.{main_split}
use sunstorm_xactserver.Deployment.Timeout.{EndsFrom, try_with_timeout_lem}
use sunstorm_xactserver.Deployment.Wait.{Poll, try_with_timeout}

abbrev all_items : List String → List String
all_items xs = xs

abbrev seconds : String → ℕ → ℕ
seconds _ k = k

-- The first two attempts meet a namespace that is being deleted.
abbrev answer : String → ℕ → Answer
answer _ zero = refused (some "x: object is being deleted: y")
answer _ (suc zero) = refused (some "object is being deleted")
answer _ (suc (suc _)) = created

abbrev world : World
world = record {
  shell = record { succeeds = λ _ _. true };
  as_set = all_items;
  ticks_per_second = 1;
  name_clock = seconds;
  address_clock = seconds;
  balancers = λ region _. ok (region ∷ []);
  resolve = λ name _. some (name ∷ []);
  loads = λ _. true;
  create_answer = answer;
  temp_file = "/tmp/dns.yaml";
}

abbrev config : MainConfig
config = record {
  global_region = "us";
  global_region_context = some "us-context";
  global_region_target_address_and_database = none;
  regions =
      (
        "eu",
        record {
          id = 1;
          context = some "eu-context";
          target_address_and_database = none;
          warmup = none;
          benchbase_instances = none;
        },
      )
      ∷ [];
}

abbrev setup : Setup
setup = record { config = config; has_regions = true; base = "deploy" }

abbrev args : Arguments
args = record {
  skip_before = none;
  skip_after = none;
  clean_up_neon = false;
  stages = false;
  dry_run = false;
}

main_split_example :
    then_do
      (main world setup 3 (record args { skip_after = some "dns" }) [])
      (main world setup 3 (record args { skip_before = some "namespace" }))
    ≡ main world setup 3 args []
unfolding index_of string_eq stage_index
main_split_example =
    main_split world setup 3 args "dns" "namespace" 1 [] refl refl refl (omega arith) (omega arith)

main-IsHarmless_example : All IsHarmless (main world setup 3 (record args { dry_run = true }) []).1
main-IsHarmless_example = main-IsHarmless world setup 3 (record args { dry_run = true }) refl

busy : (q : ℕ) → q < 2 → next world setup false "eu" q ≡ retry
unfolding after_answer includes
busy zero lt = refl
busy (suc zero) lt = refl
busy (suc (suc q)) lt = absurd (omega arith)

free : next world setup false "eu" 2 ≢ retry
unfolding after_answer
free e = absurd (cc)

create_from-attempts_example :
    create_from world setup false 5 0 "eu" []
    ≡ (outcome (next world setup false "eu" 2), calls 3 (create_namespace "eu" false))
create_from-attempts_example =
    create_from-attempts world setup false "eu" 2 5 [] (omega arith) busy free

-- No answer in the first three rounds.
abbrev slow : Poll ℕ
slow zero = ok none
slow (suc zero) = ok none
slow (suc (suc zero)) = ok none
slow (suc (suc (suc k))) = ok (some k)

abbrev twice : ℕ → ℕ
twice k = k + k

ticking : (r : ℕ) → twice r < twice (suc r)
ticking r = omega arith

try_with_timeout_lem_example : EndsFrom slow twice 5 (try_with_timeout slow twice 5) 0
try_with_timeout_lem_example = try_with_timeout_lem slow twice 5 ticking

load_tasks-IsDeployedAs_example :
    All
      (IsDeployedAs world setup (make_operation config []))
      (load_tasks (make_operation config []) ("eu" ∷ []))
load_tasks-IsDeployedAs_example = load_tasks-IsDeployedAs world setup [] ("eu" ∷ [])
