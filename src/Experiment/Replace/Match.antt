-- ===== src/Experiment/Replace/Match.antt =====
-- When a rule of `replace_values` (tools/experiment.py) applies, read off its conditions.
use sunstorm_xactserver.Base.{
  ◌≡◌, ◌≢◌, refl, ◌↔◌, ◌⊎◌, inl, inr, String, Bool, true, false, none, some, List, [], ◌∷◌, ◌||◌,
  arith, All, string_eq, Option-cases, Bool-cases,
}
use sunstorm_xactserver.Base.Dict.{Dict, lookup}
use sunstorm_xactserver.Base.Result.{ok, >>=-eq-ok}
use sunstorm_xactserver.Experiment.Values.{Floats, NamedParameterValue}
use sunstorm_xactserver.Experiment.Replace.{
  Condition, Matcher, conditions, not_a_list, Combination, holds, match_clause, match_any, is_match,
}

-- One round of an OR loop: the flag so far, the clause's answer, and the answer of the rest.
or_round :
    (b acc m : Bool) {P Q : Type 0}
    → (m ≡ true) ↔ P
    → (b ≡ true) ↔ (((acc || m) ≡ true) ⊎ Q)
    → (b ≡ true) ↔ ((acc ≡ true) ⊎ (P ⊎ Q))
or_round b true m p rest = (λ h. inl refl, λ h. rest.1 (inl refl))
or_round b false true p rest = (λ h. inr (inl (p.0 refl)), λ h. rest.1 (inl refl))
or_round b false false p rest = (
  λ h. elim (rest.0 h) [ inl e ↦ inl e | inr q ↦ inr (inr q) ],
  λ h. elim h [
    | inl e ↦ rest.1 (inl e)
    | inr (inl x) ↦ rest.1 (inl (p.1 x))
    | inr (inr q) ↦ rest.1 (inr q)
  ],
)

module _ (F : Floats) (c : Combination F) where
  -- The parameter has a value, and the condition holds of it.
  abbrev Holds : String × Condition F → Type 0
  Holds (param, condition) =
      (v : NamedParameterValue F) × (lookup param c ≡ some v) × (holds F condition v ≡ true)

  abbrev HoldsAny : List (Dict String (Condition F)) → Type 0
  HoldsAny [] = ⊥
  HoldsAny (clause ∷ rest) = All Holds clause ⊎ HoldsAny rest

  -- No condition at all, or one clause all of whose conditions hold.
  abbrev pub Applies : List (Dict String (Condition F)) → Type 0
  Applies [] = Unit
  Applies (clause ∷ rest) = HoldsAny (clause ∷ rest)

  match_clause-Holds :
      (clause : Dict String (Condition F)) → match_clause F clause c ≡ ok true → All Holds clause
  unfolding match_clause
  match_clause-Holds [] h = tt
  match_clause-Holds ((param, condition) ∷ rest) h = elim (Option-cases (lookup param c)) [
    | inl e ↦ absurd (cc (rw (e, match_clause) at h))
    | inr (v, e) ↦ elim (Bool-cases (holds F condition v)) [
      | inl t ↦ ((v, e, t), match_clause-Holds rest (ground arith))
      | inr f ↦ absurd (ground arith)
    ]
  ]

  Holds-match_clause :
      (clause : Dict String (Condition F)) → All Holds clause → match_clause F clause c ≡ ok true
  unfolding match_clause
  Holds-match_clause [] h = refl
  Holds-match_clause ((param, condition) ∷ rest) ((v, found, holding), more) =
      ground (arith, Holds-match_clause rest more)

  match_any-HoldsAny :
      (cs : List (Dict String (Condition F))) (acc : Bool) {b : Bool}
      → match_any F cs acc c ≡ ok b
      → (b ≡ true) ↔ ((acc ≡ true) ⊎ HoldsAny cs)
  unfolding match_any
  match_any-HoldsAny [] acc h = ground arith
  match_any-HoldsAny (clause ∷ rest) acc h =
      let (m, e, k) = >>=-eq-ok (match_clause F clause c) _ h in
      or_round _ acc m (answer m e) (match_any-HoldsAny rest (acc || m) k)
    where
      answer : (m : Bool) → match_clause F clause c ≡ ok m → (m ≡ true) ↔ All Holds clause
      answer m e =
          (λ t. match_clause-Holds clause (cc), λ holding. cc (Holds-match_clause clause holding))

  -- The test of a rule that does not raise says exactly whether the rule applies: it has no
  -- condition, or all conditions of one of its clauses hold.
  pub is_match-Applies :
      (cs : List (Dict String (Condition F))) {b : Bool}
      → is_match F (conditions cs) c ≡ ok b
      → (b ≡ true) ↔ Applies cs
  unfolding is_match
  is_match-Applies [] h = (λ _. tt, λ _. ground arith)
  is_match-Applies (clause ∷ rest) h =
      let answer = match_any-HoldsAny (clause ∷ rest) false h in
      (
        λ t. elim (answer.0 t) [ inl e ↦ absurd (cc) | inr found ↦ found ],
        λ found. answer.1 (inr found),
      )

  -- Every parameter that the conditions name has a value.
  abbrev pub Knows {ℓ} : {A : Type ℓ} → Dict String A → Type 0
  Knows [] = Unit
  Knows ((param, _) ∷ rest) = (lookup param c ≢ none) × Knows rest

  abbrev pub KnowsAll : Matcher F → Type 0
  KnowsAll not_a_list = ⊥
  KnowsAll (conditions cs) = All Knows cs

  match_clause_total :
      (clause : Dict String (Condition F))
      → Knows clause
      → (b : Bool) × (match_clause F clause c ≡ ok b)
  unfolding match_clause
  match_clause_total [] known = (true, refl)
  match_clause_total ((param, condition) ∷ rest) (here, known) =
      elim (Option-cases (lookup param c)) [
        | inl e ↦ absurd (here e)
        | inr (v, e) ↦ elim (Bool-cases (holds F condition v)) [
          | inl t ↦ let (b, ih) = match_clause_total rest known in (b, ground arith)
          | inr f ↦ (false, ground arith)
        ]
      ]

  match_any_total :
      (cs : List (Dict String (Condition F))) (acc : Bool)
      → All Knows cs
      → (b : Bool) × (match_any F cs acc c ≡ ok b)
  unfolding match_any
  match_any_total [] acc known = (acc, refl)
  match_any_total (clause ∷ rest) acc (here, known) =
      let (m, e) = match_clause_total clause here in
      let (b, ih) = match_any_total rest (acc || m) known in (b, rw (e, ih))

  -- A rule whose conditions name known parameters only is tested without an error.
  pub is_match_total : (m : Matcher F) → KnowsAll m → (b : Bool) × (is_match F m c ≡ ok b)
  unfolding is_match
  is_match_total not_a_list known = absurd known
  is_match_total (conditions cs) known = match_any_total cs _ known
