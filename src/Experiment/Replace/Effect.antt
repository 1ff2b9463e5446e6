-- ===== src/Experiment/Replace/Effect.antt =====
-- What `replace_values` (tools/experiment.py) does to a combination, and when it raises.
use sunstorm_xactserver.Base.{
  ◌≡◌, refl, sym, ◌∙◌, ◌⊎◌, inl, inr, String, Bool, true, false, Option, none, some, List, [], ◌∷◌,
  arith, All, string_eq, if◌then◌else◌, Option-cases,
}
use sunstorm_xactserver.Base.Dict.{
  Dict, lookup, insert, keys, NodupKeys, lookup-insert, keys-insert, lookup_of_keys,
}
use sunstorm_xactserver.Base.Result.{ok, >>=-eq-ok}
use sunstorm_xactserver.Experiment.Values.{Floats, NamedParameterValue, RawValue, to_named_value}
use sunstorm_xactserver.Experiment.Replace.{
  Condition, Matcher, conditions, not_a_list, Replace, Combination, is_match, assign_all,
  replace_one, replace_values,
}
use sunstorm_xactserver.Experiment.Replace.Match.{
  Applies, is_match-Applies, Knows, KnowsAll, is_match_total,
}

module _ (F : Floats) where
  assign_all-keys :
      (a : Dict String (RawValue F)) (c : Combination F) {c' : Combination F}
      → assign_all F a c ≡ ok c'
      → keys c' ≡ keys c
  unfolding assign_all
  assign_all-keys [] c h = ground arith
  assign_all-keys ((param, value) ∷ rest) c h = elim (Option-cases (lookup param c)) [
    | inl e ↦ absurd (ground arith)
    | inr (v, e) ↦
        assign_all-keys rest (insert param (to_named_value F param value) c) (ground arith)
        ∙ keys-insert param _ c (λ n. cc)
  ]

  -- The value of a parameter after the assignments of a rule.
  abbrev pub assigned :
      String → Dict String (RawValue F) → Combination F → Option (NamedParameterValue F)
  assigned j a c = elim (lookup j a) [ none ↦ lookup j c | some v ↦ some (to_named_value F j v) ]

  lookup-assign_all :
      (j : String) (a : Dict String (RawValue F)) (c : Combination F) {c' : Combination F}
      → NodupKeys a
      → assign_all F a c ≡ ok c'
      → lookup j c' ≡ assigned j a c
  unfolding assign_all
  lookup-assign_all j [] c u h = ground arith
  lookup-assign_all j ((param, value) ∷ rest) c (fresh, u) h =
      elim (Option-cases (lookup param c)) [
        | inl e ↦ absurd (ground arith)
        | inr (v, e) ↦
            lookup-assign_all j rest (insert param (to_named_value F param value) c) u
              (ground arith)
            ∙ ground (arith, lookup-insert j param (to_named_value F param value) c)
      ]

  -- A rule that sets no parameter twice and does not raise either applies, and then each parameter has the value that the
  -- rule sets, or its old value where the rule sets none; or it does not apply, and then nothing
  -- has changed.
  pub replace_one_effect :
      (cs : List (Dict String (Condition F))) (a : Dict String (RawValue F)) (c : Combination F)
      {c' : Combination F}
      → NodupKeys a
      → replace_one F (record { matcher = conditions cs; assign = a }) c ≡ ok c'
      → (Applies F c cs × ((j : String) → lookup j c' ≡ assigned j a c))
        ⊎ ((¬ Applies F c cs) × (c' ≡ c))
  unfolding replace_one
  replace_one_effect cs a c {c'} u h =
      let (m, e, k) = >>=-eq-ok (is_match F (conditions cs) c) _ h in decided m e k
    where
      decided :
          (m : Bool)
          → is_match F (conditions cs) c ≡ ok m
          → (if m then assign_all F a c else ok c) ≡ ok c'
          → (Applies F c cs × ((j : String) → lookup j c' ≡ assigned j a c))
            ⊎ ((¬ Applies F c cs) × (c' ≡ c))
      decided true e k = inl ((is_match-Applies F c cs e).0 refl, λ j. lookup-assign_all j a c u k)
      decided false e k = inr (λ x. cc ((is_match-Applies F c cs e).1 x), ground arith)

  replace_one-keys :
      (r : Replace F) (c : Combination F) {c' : Combination F}
      → replace_one F r c ≡ ok c'
      → keys c' ≡ keys c
  unfolding replace_one
  replace_one-keys r c {c'} h =
      let (m, e, k) = >>=-eq-ok (is_match F r.matcher c) _ h in decided m k
    where
      decided :
          (m : Bool) → (if m then assign_all F r.assign c else ok c) ≡ ok c' → keys c' ≡ keys c
      decided true k = assign_all-keys r.assign c k
      decided false k = ground arith

  -- Replacement neither adds, removes nor reorders parameters.
  pub replace_values-keys :
      (rs : List (Replace F)) (c : Combination F) {c' : Combination F}
      → replace_values F rs c ≡ ok c'
      → keys c' ≡ keys c
  unfolding replace_values
  replace_values-keys [] c h = ground arith
  replace_values-keys (r ∷ rest) c h =
      let (d, e, k) = >>=-eq-ok (replace_one F r c) _ h in
      replace_values-keys rest d k ∙ replace_one-keys r c e

  Knows-of_keys {ℓ} :
      {A : Type ℓ} (c d : Combination F) (u : Dict String A)
      → keys c ≡ keys d
      → Knows F c u
      → Knows F d u
  Knows-of_keys c d [] same known = tt
  Knows-of_keys c d ((param, _) ∷ rest) same (here, known) =
      (lookup_of_keys param c d same here, Knows-of_keys c d rest same known)

  All_Knows_of_keys :
      (c d : Combination F) (cs : List (Dict String (Condition F)))
      → keys c ≡ keys d
      → All (Knows F c) cs
      → All (Knows F d) cs
  All_Knows_of_keys c d [] same known = tt
  All_Knows_of_keys c d (clause ∷ rest) same (here, known) =
      (Knows-of_keys c d clause same here, All_Knows_of_keys c d rest same known)

  KnowsAll-of_keys :
      (c d : Combination F) (m : Matcher F) → keys c ≡ keys d → KnowsAll F c m → KnowsAll F d m
  KnowsAll-of_keys c d not_a_list same known = known
  KnowsAll-of_keys c d (conditions cs) same known = All_Knows_of_keys c d cs same known

  -- The rule's conditions are a list, and it names parameters of the combination only.
  abbrev IsClosed : Combination F → Replace F → Type 0
  IsClosed c r = KnowsAll F c r.matcher × Knows F c r.assign

  IsClosed-of_keys :
      (c d : Combination F) (rs : List (Replace F))
      → keys c ≡ keys d
      → All (IsClosed c) rs
      → All (IsClosed d) rs
  IsClosed-of_keys c d [] same h = tt
  IsClosed-of_keys c d (r ∷ rest) same ((m, a), h) = (
    (KnowsAll-of_keys c d r.matcher same m, Knows-of_keys c d r.assign same a),
    IsClosed-of_keys c d rest same h,
  )

  assign_all_total :
      (a : Dict String (RawValue F)) (c : Combination F)
      → Knows F c a
      → (c' : Combination F) × (assign_all F a c ≡ ok c')
  unfolding assign_all
  assign_all_total [] c known = (c, refl)
  assign_all_total ((param, value) ∷ rest) c (here, known) = elim (Option-cases (lookup param c)) [
    | inl e ↦ absurd (here e)
    | inr (v, e) ↦
        let d = insert param (to_named_value F param value) c in
        let (c', ih) =
          assign_all_total rest d
            (Knows-of_keys c d rest (sym (keys-insert param _ c here)) known) in
        (c', rw (e, assign_all) ih)
  ]

  replace_one_total :
      (r : Replace F) (c : Combination F)
      → IsClosed c r
      → (c' : Combination F) × (replace_one F r c ≡ ok c')
  unfolding replace_one
  replace_one_total r c (matches, sets) =
      let (m, e) = is_match_total F c r.matcher matches in decided m e
    where
      decided :
          (m : Bool)
          → is_match F r.matcher c ≡ ok m
          → (c' : Combination F) × (replace_one F r c ≡ ok c')
      decided true e = let (c', ih) = assign_all_total r.assign c sets in (c', rw e ih)
      decided false e = (c, rw e)

  -- Rules that name parameters of the combination only never raise.
  pub replace_values_total :
      (rs : List (Replace F)) (c : Combination F)
      → All (IsClosed c) rs
      → (c' : Combination F) × (replace_values F rs c ≡ ok c')
  unfolding replace_values
  replace_values_total [] c h = (c, refl)
  replace_values_total (r ∷ rest) c (closed, h) =
      let (d, e) = replace_one_total r c closed in
      let (c', ih) =
        replace_values_total rest d (IsClosed-of_keys c d rest (sym (replace_one-keys r c e)) h) in
      (c', rw e ih)
