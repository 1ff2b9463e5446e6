-- ===== src/NeonControl/Destroy.antt =====
-- What stopping and destroying do to the directories of the regions (tools/neonctl.py).
use mathlib.Core.Option.{some-ne-none}
use sunstorm_xactserver.Base.{
  ◌≡◌, ◌≢◌, refl, sym, ◌∙◌, ap, subst, String, Bool, true, false, ◌||◌, none, some, List, [], ◌∷◌,
  arith, Distinct, contains, ◌==◌, string_eq, if◌then◌else◌, inl, inr, ==-refl, Option-cases,
}
use sunstorm_xactserver.Base.Dict.{
  Dict, lookup, erase, keys, lookup-erase, lookup-none, contains-keys,
}
use sunstorm_xactserver.Base.Result.{ok, err}
use sunstorm_xactserver.NeonControl.{World, Region, Cluster, Run, Arguments, then_do}
use sunstorm_xactserver.NeonControl.Keys.{stop_all_regions-KeepsKeys}
use sunstorm_xactserver.NeonControl.Commands.{
  insert_name, sort_names, get_regions_in_root_dir, stop_all_regions, remove_all, destroy,
}

contains-insert_name :
    (k name : String) (xs : List String)
    → contains (insert_name name xs) k ≡ (k == name || contains xs k)
unfolding insert_name
contains-insert_name k name [] = refl
contains-insert_name k name (x ∷ xs) = ground (arith, contains-insert_name k name xs)

contains-sort_names : (k : String) (xs : List String) → contains (sort_names xs) k ≡ contains xs k
unfolding sort_names
contains-sort_names k [] = refl
contains-sort_names k (x ∷ xs) =
    ground (arith, contains-sort_names k xs, contains-insert_name k x (sort_names xs))

insert_name-Distinct :
    (name : String) (xs : List String)
    → contains xs name ≡ false
    → Distinct xs
    → Distinct (insert_name name xs)
unfolding insert_name
insert_name-Distinct name [] new h = (refl, tt)
insert_name-Distinct name (x ∷ xs) new (here, h) =
    ground (arith, insert_name-Distinct name xs, contains-insert_name x name xs)

sort_names-Distinct : (xs : List String) → Distinct xs → Distinct (sort_names xs)
unfolding sort_names
sort_names-Distinct [] h = tt
sort_names-Distinct (x ∷ xs) (new, h) =
    insert_name-Distinct x (sort_names xs) (contains-sort_names x xs ∙ new)
      (sort_names-Distinct xs h)

-- `rmtree` of different directories that are there.
remove_all_lem :
    (args : Arguments) (names : List String) (c : Cluster)
    → args.dry_run ≡ false
    → Distinct names
    → ((k : String) → contains names k ≡ true → lookup k c.regions ≢ none)
    → (d : Dict String Region) × (remove_all args names c ≡ (ok tt, record c { regions = d }))
      × ((k : String) → lookup k d ≡ (if contains names k then none else lookup k c.regions))
unfolding remove_all
remove_all_lem args [] c live d h = (c.regions, refl, λ k. refl)
remove_all_lem args (name ∷ names) c live (new, d) h = elim (Option-cases (lookup name c.regions)) [
  | inl missing ↦ absurd (h name (rw (==-refl name) refl) missing)
  | inr (r, there) ↦
      let (left, run, found) =
        remove_all_lem args names (record c { regions = erase name c.regions }) live d
          (λ k hk. ground (arith, h k, lookup-erase k name c.regions)) in
      (left, rw (live, there) run, λ k. ground (arith, found k, lookup-erase k name c.regions))
]

nothing_left : (d : Dict String Region) → ((k : String) → lookup k d ≡ none) → d ≡ []
nothing_left [] h = refl
nothing_left ((k, r) ∷ d) h =
    absurd (some-ne-none r (sym (rw (==-refl k) (refl {a = some r})) ∙ h k))

-- Removing the directories that are listed leaves none.
remove_all-listed :
    (args : Arguments) (c : Cluster)
    → args.dry_run ≡ false
    → Distinct (keys c.regions)
    → remove_all args (get_regions_in_root_dir c) c ≡ (ok tt, record c { regions = [] })
unfolding get_regions_in_root_dir
remove_all-listed args c live d =
    let (left, run, found) =
      remove_all_lem args (sort_names (keys c.regions)) c live
        (sort_names-Distinct (keys c.regions) d)
        (λ k listed.
          contains-keys k c.regions (sym (contains-sort_names k (keys c.regions)) ∙ listed)) in
    run
    ∙ ap (λ d. (ok tt, record c { regions = d }))
        (nothing_left left λ k.
          found k
          ∙ rw (contains-sort_names k (keys c.regions)) (ground (arith, lookup-none k c.regions)))

module _ (is_file : String → Bool) (absolute : String → String) (world : World)
    (args : Arguments) where
  -- Where the regions stop without an exception, `destroy` removes them all, whatever their
  -- number, and runs nothing else; where stopping them fails, it removes none.
  pub destroy_lem :
      (c : Cluster)
      → args.dry_run ≡ false
      → Distinct (keys c.regions)
      → let (result, c1) = stop_all_regions is_file absolute world args c in
        (result ≡ ok tt
          → destroy is_file absolute world args c ≡ (ok tt, record c1 { regions = [] }))
        × (result ≢ ok tt → destroy is_file absolute world args c ≡ (result, c1))
  unfolding destroy
  destroy_lem c live d =
      go (stop_all_regions is_file absolute world args c)
        (subst Distinct (sym (stop_all_regions-KeepsKeys is_file absolute world args c)) d) live
    where
      go :
          (first : Run)
          → Distinct (keys first.1.regions)
          → args.dry_run ≡ false
          → (first.0 ≡ ok tt
              → then_do first (λ c1. remove_all args (get_regions_in_root_dir c1) c1)
                ≡ (ok tt, record first.1 { regions = [] }))
            × (first.0 ≢ ok tt
                → then_do first (λ c1. remove_all args (get_regions_in_root_dir c1) c1) ≡ first)
      go (ok _, c1) d live = (λ _. remove_all-listed args c1 live d, λ bad. absurd (bad refl))
      go (err e, c1) d live = (λ good. cc, λ _. refl)
