-- ===== src/Deployment/Stages.antt =====
-- Which stages of tools/deploy.py are run, and runs one after the other.
use sunstorm_xactserver.Base.{
  ℕ, zero, suc, ◌≤◌, ◌<◌, ◌≡◌, refl, sym, ◌∙◌, ap, String, Bool, true, false, ◌&&◌, some, List, [],
  ◌∷◌, arith, contains, Distinct, string_eq, get_elem?, leb, ltb, Bool-cases, inl, inr,
}
use sunstorm_xactserver.Base.Result.{ok, err}
use sunstorm_xactserver.Deployment.{
  Event, World, Setup, Run, then_do, set_up_load_balancer_for_coredns, start_pushgateway,
}
use sunstorm_xactserver.Deployment.Dns.{install_dns_configmap}
use sunstorm_xactserver.Deployment.Kubernetes.{create_namespaces}
use sunstorm_xactserver.Deployment.Neon.{index_of, deploy_neon}
use sunstorm_xactserver.Deployment.Main.{
  all_stages, slice, Arguments, stage_index, unskipped_stages, run_if, main,
}

contains_of_get_elem? :
    (xs : List String) (k : ℕ) {x : String} → get_elem? xs k ≡ some x → contains xs x ≡ true
contains_of_get_elem? [] k h = absurd (cc)
contains_of_get_elem? (y ∷ xs) zero {x} h = ground arith
contains_of_get_elem? (y ∷ xs) (suc k) {x} h = ground (arith, contains_of_get_elem? xs k h)

slice_absent :
    (i j : ℕ) (xs : List String) (x : String)
    → contains xs x ≡ false
    → contains (slice i j xs) x ≡ false
unfolding slice
slice_absent i zero xs x h = refl
slice_absent i (suc j) [] x h = refl
slice_absent zero (suc j) (y ∷ xs) x h = ground (arith, slice_absent 0 j xs x)
slice_absent (suc i) (suc j) (y ∷ xs) x h = ground (arith, slice_absent i j xs x)

-- A number from `i` on and before `j`.
pub in_range : ℕ → ℕ → ℕ → Bool
in_range i j k = leb i k && ltb k j

in_range_past : (i j k : ℕ) → j ≤ k → in_range i j k ≡ false
unfolding in_range
in_range_past i j k h = ground arith

in_range_before : (j l k : ℕ) → k < j → in_range j l k ≡ false
unfolding in_range
in_range_before j l k h = ground arith

in_range_started : (i j l k : ℕ) → i ≤ k → j ≤ k → in_range j l k ≡ in_range i l k
unfolding in_range
in_range_started i j l k h h' = ground arith

in_range_within : (i j l k : ℕ) → k < j → j ≤ l → in_range i j k ≡ in_range i l k
unfolding in_range
in_range_within i j l k h h' = ground arith

-- The items of a slice are those from the first index on and before the second.
contains-slice :
    (i j k : ℕ) (xs : List String) (x : String)
    → Distinct xs
    → get_elem? xs k ≡ some x
    → contains (slice i j xs) x ≡ in_range i j k
unfolding slice in_range
contains-slice i zero k xs x d h = ground arith
contains-slice i (suc j) k [] x d h = absurd (cc)
contains-slice zero (suc j) zero (y ∷ xs) x d h = ground arith
contains-slice zero (suc j) (suc k) (y ∷ xs) x (new, d) h =
    ground (arith, contains-slice 0 j k xs x d h, contains_of_get_elem? xs k h)
contains-slice (suc i) (suc j) zero (y ∷ xs) x (new, d) h =
    ground (arith, slice_absent i j xs y new)
contains-slice (suc i) (suc j) (suc k) (y ∷ xs) x (new, d) h =
    ground (arith, contains-slice i j k xs x d h)

-- The stages with a number in a range, one after the other; the first of them has number `k`.
abbrev pub run_range : ℕ → ℕ → ℕ → List (List Event → Run) → List Event → Run
run_range i j k [] events = (ok tt, events)
run_range i j k (f ∷ []) events = run_if (in_range i j k) f events
run_range i j k (f ∷ g ∷ fs) events =
    then_do (run_if (in_range i j k) f events) (run_range i j (suc k) (g ∷ fs))

run_range_past :
    (i j k : ℕ) (fs : List (List Event → Run)) (events : List Event)
    → j ≤ k
    → run_range i j k fs events ≡ (ok tt, events)
unfolding run_if
run_range_past i j k [] events h = refl
run_range_past i j k (f ∷ []) events h = rw (in_range_past i j k h, run_if) refl
run_range_past i j k (f ∷ g ∷ fs) events h =
    rw (in_range_past i j k h, run_if) (run_range_past i j (suc k) (g ∷ fs) events (omega arith))

then_do_congruent :
    (r : Run) (next next' : List Event → Run)
    → ((events : List Event) → next events ≡ next' events)
    → then_do r next ≡ then_do r next'
then_do_congruent (ok _, events) next next' same = same events
then_do_congruent (err e, events) next next' same = refl

then_do_assoc :
    (r : Run) (next last next' : List Event → Run)
    → ((events : List Event) → then_do (next events) last ≡ next' events)
    → then_do (then_do r next) last ≡ then_do r next'
then_do_assoc (ok _, events) next last next' same = same events
then_do_assoc (err e, events) next last next' same = refl

run_range_started :
    (i j l k : ℕ) (fs : List (List Event → Run)) (events : List Event)
    → i ≤ k
    → j ≤ k
    → run_range j l k fs events ≡ run_range i l k fs events
run_range_started i j l k [] events h h' = refl
run_range_started i j l k (f ∷ []) events h h' = rw (in_range_started i j l k h h') refl
run_range_started i j l k (f ∷ g ∷ fs) events h h' = rw (in_range_started i j l k h h') (
    then_do_congruent (run_if (in_range i l k) f events) (run_range j l (suc k) (g ∷ fs))
      (run_range i l (suc k) (g ∷ fs))
      (λ events1. run_range_started i j l (suc k) (g ∷ fs) events1 (omega arith) (omega arith)))

then_do_ok : (r : Run) → then_do r (λ events. (ok tt, events)) ≡ r
then_do_ok (ok _, events) = refl
then_do_ok (err e, events) = refl

split_past :
    (i j l k : ℕ) (fs : List (List Event → Run)) (events : List Event)
    → i ≤ j
    → j ≤ k
    → then_do (run_range i j k fs events) (run_range j l k fs) ≡ run_range i l k fs events
split_past i j l k fs events h reached =
    rw (run_range_past i j k fs events reached)
      (run_range_started i j l k fs events (omega arith) reached)

run_range_before :
    (j l k : ℕ) (f : List Event → Run) (fs : List (List Event → Run)) (events : List Event)
    → k < j
    → run_range j l k (f ∷ fs) events ≡ run_range j l (suc k) fs events
unfolding run_if
run_range_before j l k f [] events lt = rw (in_range_before j l k lt, run_if) refl
run_range_before j l k f (g ∷ fs) events lt = rw (in_range_before j l k lt, run_if) refl

run_range_split :
    (i j l k : ℕ) (fs : List (List Event → Run)) (events : List Event)
    → i ≤ j
    → j ≤ l
    → then_do (run_range i j k fs events) (run_range j l k fs) ≡ run_range i l k fs events
unfolding run_if
run_range_split i j l k [] events h h' = refl
run_range_split i j l k (f ∷ []) events h h' = elim (Bool-cases (ltb k j)) [
  | inr past ↦ split_past i j l k (f ∷ []) events h (ground (arith, past))
  | inl before ↦
      let lt : k < j = ground (arith, before) in
      then_do_congruent (run_range i j k (f ∷ []) events) (run_range j l k (f ∷ []))
        (λ events1. (ok tt, events1)) (λ events1. run_range_before j l k f [] events1 lt)
      ∙ then_do_ok (run_range i j k (f ∷ []) events)
      ∙ ap (λ b. run_if b f events) (in_range_within i j l k lt h')
]
run_range_split i j l k (f ∷ g ∷ fs) events h h' = elim (Bool-cases (ltb k j)) [
  | inr past ↦ split_past i j l k (f ∷ g ∷ fs) events h (ground (arith, past))
  | inl before ↦
      let lt : k < j = ground (arith, before) in
      then_do_congruent (run_range i j k (f ∷ g ∷ fs) events) (run_range j l k (f ∷ g ∷ fs))
        (run_range j l (suc k) (g ∷ fs)) (λ events1. run_range_before j l k f (g ∷ fs) events1 lt)
      ∙ then_do_assoc (run_if (in_range i j k) f events) (run_range i j (suc k) (g ∷ fs))
          (run_range j l (suc k) (g ∷ fs)) (run_range i l (suc k) (g ∷ fs))
          (λ events1. run_range_split i j l (suc k) (g ∷ fs) events1 h h')
      ∙ ap (λ b. then_do (run_if b f events) (run_range i l (suc k) (g ∷ fs)))
          (in_range_within i j l k lt h')
]

module _ (world : World) (setup : Setup) (fuel : ℕ) (clean_up_neon dry_run : Bool) where
  -- The stages, in order.
  abbrev pub stage_runs : List (List Event → Run)
  stage_runs =
      set_up_load_balancer_for_coredns world setup dry_run
      ∷ install_dns_configmap world setup dry_run
      ∷ create_namespaces world setup dry_run fuel
      ∷ deploy_neon world setup dry_run clean_up_neon
      ∷ start_pushgateway world setup dry_run
      ∷ []

all_stages-Distinct : Distinct all_stages
unfolding string_eq
all_stages-Distinct = (refl, (refl, (refl, (refl, (refl, tt)))))

stage_index-listed :
    (s : String) (d k : ℕ) → index_of s all_stages ≡ some k → stage_index (some s) d ≡ k
unfolding stage_index
stage_index-listed s d k h = rw (h, stage_index) refl

pub main_range :
    (world : World) (setup : Setup) (fuel : ℕ) (args : Arguments) (events : List Event)
    → args.stages ≡ false
    → main world setup fuel args events
      ≡ run_range
          (stage_index args.skip_before 0)
          (suc (stage_index args.skip_after 4))
          0
          (stage_runs world setup fuel args.clean_up_neon args.dry_run)
          events
unfolding main unskipped_stages
main_range world setup fuel args events run =
    let i = stage_index args.skip_before 0 in
    let j = suc (stage_index args.skip_after 4) in
    simp (
      run,
      contains-slice i j 0 all_stages "load-balancer" all_stages-Distinct refl,
      contains-slice i j 1 all_stages "dns" all_stages-Distinct refl,
      contains-slice i j 2 all_stages "namespace" all_stages-Distinct refl,
      contains-slice i j 3 all_stages "neon" all_stages-Distinct refl,
      contains-slice i j 4 all_stages "pushgateway" all_stages-Distinct refl,
    )

-- Where `t` is the stage after `s`, a run up to `s` and then one from `t` on do what one run over
-- all these stages does: the same commands and calls in the same order, with the same exception.
-- `s` does not come before the stages from which the run starts by more than one, nor behind the
-- last.
pub main_split :
    (world : World) (setup : Setup) (fuel : ℕ) (args : Arguments) (s t : String) (k : ℕ)
    (events : List Event)
    → args.stages ≡ false
    → index_of s all_stages ≡ some k
    → index_of t all_stages ≡ some (suc k)
    → stage_index args.skip_before 0 ≤ suc k
    → k ≤ stage_index args.skip_after 4
    → then_do
        (main world setup fuel (record args { skip_after = some s }) events)
        (main world setup fuel (record args { skip_before = some t }))
      ≡ main world setup fuel args events
main_split world setup fuel args s t k events run last first low high =
    let fs = stage_runs world setup fuel args.clean_up_neon args.dry_run in
    let i = stage_index args.skip_before 0 in
    let l = suc (stage_index args.skip_after 4) in
    let front : main world setup fuel (record args { skip_after = some s }) events
        ≡ run_range i (suc k) 0 fs events =
      main_range world setup fuel (record args { skip_after = some s }) events run
      ∙ ap (λ n. run_range i (suc n) 0 fs events) (stage_index-listed s 4 k last) in
    let back : (events1 : List Event)
        → main world setup fuel (record args { skip_before = some t }) events1
          ≡ run_range (suc k) l 0 fs events1 =
      λ events1.
        main_range world setup fuel (record args { skip_before = some t }) events1 run
        ∙ ap (λ n. run_range n l 0 fs events1) (stage_index-listed t 0 (suc k) first) in
    ap (λ r. then_do r (main world setup fuel (record args { skip_before = some t }))) front
    ∙ then_do_congruent (run_range i (suc k) 0 fs events)
        (main world setup fuel (record args { skip_before = some t })) (run_range (suc k) l 0 fs)
        back
    ∙ run_range_split i (suc k) l 0 fs events low (omega (arith, high))
    ∙ sym (main_range world setup fuel args events run)
