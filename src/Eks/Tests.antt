-- ===== src/Eks/Tests.antt =====
-- A dry run that creates the clusters of two regions.
use sunstorm_xactserver.Base.{true, some, none, [], ◌∷◌, All}
use sunstorm_xactserver.Eks.{World, Setup, create, main}
use sunstorm_xactserver.Eks.DryRun.{IsTrial, main-IsTrial}

abbrev world : World
world = record { output = λ _ _. "line" ∷ []; confirm = true; as_set = λ xs. xs }

abbrev setup : Setup
setup = record {
  config = record {
    global_region = "us";
    global_region_context = some "us-context";
    global_region_target_address_and_database = none;
    regions =
        (
          "eu",
          record {
            id = 1;
            context = some "eu-context";
            target_address_and_database = none;
            warmup = none;
            benchbase_instances = none;
          },
        )
        ∷ [];
  };
  has_regions = true;
  base = "tools";
}

main-IsTrial_example : All (IsTrial world setup) (main world setup true create []).1
main-IsTrial_example = main-IsTrial world setup create
