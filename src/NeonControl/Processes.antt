-- ===== src/NeonControl/Processes.antt =====
-- The xactservers that are started, and the signals that stop them (tools/neonctl.py).
use mathlib.Core.List.{append-nil, append_assoc}
use sunstorm_xactserver.Base.{
  ℕ, ◌≡◌, ◌≢◌, refl, sym, ◌∙◌, ap, inl, inr, String, true, false, none, some, List, [], ◌∷◌, ◌++◌,
  map, arith, Zipped, Distinct, contains, ◌==◌, string_eq, Option-cases, ==-refl,
}
use sunstorm_xactserver.Base.Dict.{lookup, insert, lookup-insert}
use sunstorm_xactserver.Base.Number.{int-show}
use sunstorm_xactserver.Base.Result.{ok}
use sunstorm_xactserver.Base.Text.{show}
use sunstorm_xactserver.NeonControl.{
  Tool, Event, start, kill, World, Region, Cluster, pid_text, xactserver_run, xactserver_stop,
}
use sunstorm_xactserver.NeonControl.Commands.{xactserver_args, start_xactservers, stop_xactservers}

-- The names of numbered regions.
abbrev pub names : List (ℕ × String) → List String
names [] = []
names ((_, region) ∷ rest) = region ∷ names rest

-- The process of each region, by its id.
abbrev HasPid : Cluster → String → ℕ → Type 0
HasPid c region pid = pid_text (lookup region c.regions) ≡ some (show pid)

stop_one :
    (tool : Tool) (region : String) (pid : ℕ) (c : Cluster)
    → tool.dry_run ≡ false
    → HasPid c region pid
    → xactserver_stop tool region c ≡ (ok tt, record c { events = c.events ++ kill pid ∷ [] })
unfolding xactserver_stop
stop_one tool region pid c live has = rw (live, has, int-show pid) refl

-- What is stopped are the processes whose ids are in the files.
stop_all :
    (tool : Tool) (regions : List String) (pids : List ℕ) (c : Cluster)
    → tool.dry_run ≡ false
    → Zipped (HasPid c) regions pids
    → stop_xactservers tool regions c ≡ (ok tt, record c { events = c.events ++ map kill pids })
unfolding stop_xactservers
stop_all tool [] [] c live z =
    ap (λ events. (ok tt, record c { events = events })) (sym (append-nil c.events))
stop_all tool [] (_ ∷ _) c live z = absurd z
stop_all tool (_ ∷ _) [] c live z = absurd z
stop_all tool (region ∷ regions) (pid ∷ pids) c live (has, z) =
    rw (stop_one tool region pid c live has) (
      stop_all tool regions pids (record c { events = c.events ++ kill pid ∷ [] }) live z
      ∙ ap (λ events. (ok tt, record c { events = events }))
          (append_assoc c.events (kill pid ∷ []) (map kill pids)))

module _ (world : World) (tool : Tool) (n : ℕ) where
  -- The ids of the processes that are started one after the other.
  abbrev started : List Event → List (ℕ × String) → List ℕ
  started events [] = []
  started events ((i, region) ∷ rest) =
      let event = start tool region (xactserver_args n i) in
      world.pid events event ∷ started (events ++ event ∷ []) rest

  -- The cluster after a start in the directory of a region.
  abbrev launched : ℕ → String → Region → Cluster → Cluster
  launched i region r c =
      let event = start tool region (xactserver_args n i) in
      record {
        regions =
            insert region (record r { pid_file = some (show (world.pid c.events event)) })
              c.regions;
        events = c.events ++ event ∷ [];
      }

  start_one :
      (i : ℕ) (region : String) (r : Region) (c : Cluster)
      → tool.dry_run ≡ false
      → lookup region c.regions ≡ some r
      → xactserver_run world tool region (xactserver_args n i) c ≡ (ok tt, launched i region r c)
  unfolding xactserver_run
  start_one i region r c live there = simp (live, there)

  lookup-launched :
      (i : ℕ) (region k : String) (r : Region) (c : Cluster)
      → (k == region) ≡ false
      → lookup k (launched i region r c).regions ≡ lookup k c.regions
  lookup-launched i region k r c differ =
      let event = start tool region (xactserver_args n i) in
      ground (
        arith,
        lookup-insert k region (record r { pid_file = some (show (world.pid c.events event)) })
            c.regions,
      )

  launched-HasPid :
      (i : ℕ) (region : String) (r : Region) (c : Cluster)
      → HasPid
          (launched i region r c)
          region
          (world.pid c.events (start tool region (xactserver_args n i)))
  launched-HasPid i region r c =
      let event = start tool region (xactserver_args n i) in
      let mine : Region = record r { pid_file = some (show (world.pid c.events event)) } in
      rw (lookup-insert region region mine c.regions, ==-refl region) refl

  other_name :
      (rest : List (ℕ × String)) (region k : String)
      → contains (names rest) region ≡ false
      → contains (names rest) k ≡ true
      → (k == region) ≡ false
  other_name rest region k new member = ground arith

  -- Of different regions that are there, each is left with the id of its own process.
  start_all :
      (regions : List (ℕ × String)) (c : Cluster)
      → tool.dry_run ≡ false
      → Distinct (names regions)
      → ((k : String) → contains (names regions) k ≡ true → lookup k c.regions ≢ none)
      → (c' : Cluster) × (start_xactservers world tool n regions c ≡ (ok tt, c'))
        × Zipped (HasPid c') (names regions) (started c.events regions)
        × ((k : String)
            → contains (names regions) k ≡ false
            → lookup k c'.regions ≡ lookup k c.regions)
  unfolding start_xactservers
  start_all [] c live d h = (c, refl, tt, λ k _. refl)
  start_all ((i, region) ∷ rest) c live (new, d) h = elim (Option-cases (lookup region c.regions)) [
    | inl missing ↦ absurd (h region (rw (==-refl region) refl) missing)
    | inr (r, there) ↦
        let (c', run, pids, others) = start_all rest (launched i region r c) live d (λ k member.
          rw (lookup-launched i region k r c (other_name rest region k new member))
            (h k (ground arith))) in
        (
          c',
          rw (start_one i region r c live there) run,
          (ap pid_text (others region new) ∙ launched-HasPid i region r c, pids),
          λ k out. others k (ground arith) ∙ lookup-launched i region k r c (ground arith),
        )
  ]

-- Stopping the regions whose xactservers have been started sends a signal to the processes that
-- were started, to each one once, in the order of the regions, and to no other process. The
-- regions are different ones that are there, and neither run is dry.
pub stop_xactservers-start_xactservers :
    (world : World) (tool : Tool) (n : ℕ) (regions : List (ℕ × String)) (c : Cluster)
    → tool.dry_run ≡ false
    → Distinct (names regions)
    → ((k : String) → contains (names regions) k ≡ true → lookup k c.regions ≢ none)
    → let (result, c') = start_xactservers world tool n regions c in
      (result ≡ ok tt)
      × (stop_xactservers tool (names regions) c' ≡ (
        ok tt,
        record c' { events = c'.events ++ map kill (started world tool n c.events regions) },
      ))
stop_xactservers-start_xactservers world tool n regions c live d h =
    let (c', run, pids, _) = start_all world tool n regions c live d h in
    rw run
      (refl, stop_all tool (names regions) (started world tool n c.events regions) c' live pids)
