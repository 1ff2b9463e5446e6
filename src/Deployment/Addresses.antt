-- ===== src/Deployment/Addresses.antt =====
-- The addresses that `install_dns_configmap` of tools/deploy.py writes.
use sunstorm_xactserver.Base.{
  ◌≡◌, ◌≢◌, ◌<>◌, String, ◌⊎◌, some, List, [], ◌∷◌, ◌++◌, All, string_eq,
}
use sunstorm_xactserver.Base.Dict.{Dict, lookup}
use sunstorm_xactserver.Base.Result.{Result, ok, err}
use sunstorm_xactserver.Deployment.{
  Event, command, DeployError, failure, World, Setup, Run, context_flag,
}
use sunstorm_xactserver.Deployment.Waited.{IsFound, IsLost}
use sunstorm_xactserver.Shell.{Failure}

abbrev pub Addresses : Type 0
Addresses = Dict String (List String)

-- What the waits for a region have found.
abbrev pub HasAddresses : World → Addresses → String → Type 0
HasAddresses world addresses region =
    (found : List String) × IsFound world region found × (lookup region addresses ≡ some found)

-- A region whose wait fails, where those before it have been found.
abbrev pub FailsFirst : World → DeployError → List String → Type 0
FailsFirst world e regions =
    (before : List String) × (r : String) × (after : List String) × (regions ≡ before ++ r ∷ after)
    × All (λ q. (found : List String) × IsFound world q found) before
    × IsLost world r e

module _ (world : World) (setup : Setup) where
  -- The three commands that give a region its new configuration.
  abbrev configured_one : String → List Event → List Event
  configured_one region events =
      ((events
          ++ command (
              "helm"
              ∷ "uninstall"
              ∷ ("dns-" <> region)
              ∷ context_flag setup.config region "--kube-context")
            ∷ [])
        ++ command (
            "kubectl"
            ∷ "delete"
            ∷ "configmap"
            ∷ "coredns"
            ∷ "--namespace"
            ∷ "kube-system"
            ∷ context_flag setup.config region "--context")
          ∷ [])
      ++ command (
          "helm"
          ∷ "install"
          ∷ ("dns-" <> region)
          ∷ "-f"
          ∷ world.temp_file
          ∷ "--set"
          ∷ ("region=" <> (region <> (",global_region=" <> setup.config.global_region)))
          ∷ (setup.base <> "/helm-dns")
          ∷ context_flag setup.config region "--kube-context")
        ∷ []

  abbrev configured : List String → List Event → List Event
  configured [] events = events
  configured (region ∷ regions) events = configured regions (configured_one region events)

  -- What a run has done to the regions, in their order: to all of them, or to those up to one whose
  -- last command has failed.
  abbrev pub Configures : List String → List Event → Run → Type 0
  Configures regions events r =
      (done : List String) × (rest : List String) × (regions ≡ done ++ rest)
      × (r.1 ≡ configured done events)
      × (((r.0 ≡ ok tt) × (rest ≡ [])) ⊎ ((f : Failure) × (r.0 ≡ err (failure f)) × (done ≢ [])))
