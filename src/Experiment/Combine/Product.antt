-- ===== src/Experiment/Combine/Product.antt =====
-- The loop of combinations against the Cartesian product of the value lists (tools/experiment.py).
use mathlib.Core.Path.{ap₂}
use mathlib.Core.List.{flat_map, map-append, append_assoc, append-nil, map-id}
use sunstorm_xactserver.Base.{
  ℕ, ◌*◌, ◌≡◌, refl, sym, ◌∙◌, ap, String, none, List, [], ◌∷◌, ◌++◌, map, arith, All, All-append,
  length, length-append, length-map, string_eq, contains, Distinct, false,
}
use sunstorm_xactserver.Base.Dict.{Dict, insert, keys, lookup, insert_new, lookup-insert}
use sunstorm_xactserver.Experiment.Combine.{extend, combine_from, combinations}

module _ {V : Type 0} (values : String → List V) where
  -- One value for each parameter: the first parameter varies slowest.
  pub choices : List String → List (Dict String V)
  unfolding flat_map
  choices [] = [] ∷ []
  choices (param ∷ params) =
      flat_map (λ v. map (λ c. (param, v) ∷ c) (choices params)) (values param)

  abbrev pub product : List String → ℕ
  product [] = 1
  product (param ∷ params) = length (values param) * product params

  length-branches :
      (param : String) (vs : List V) (cs : List (Dict String V))
      → length (flat_map (λ v. map (λ c. (param, v) ∷ c) cs) vs) ≡ length vs * length cs
  unfolding flat_map
  length-branches param [] cs = omega arith
  length-branches param (v ∷ vs) cs = omega (
    arith,
    length-append (map (λ c. (param, v) ∷ c) cs) (flat_map (λ w. map (λ c. (param, w) ∷ c) cs) vs),
    length-map cs (λ c. (param, v) ∷ c),
    length-branches param vs cs,
  )

  length-choices : (params : List String) → length (choices params) ≡ product params
  unfolding choices
  length-choices [] = refl
  length-choices (param ∷ params) =
      length-branches param (values param) (choices params)
      ∙ ap (λ (n : ℕ). length (values param) * n) (length-choices params)

module _ {V : Type 0} where
  -- The combination has no value yet for any of the parameters.
  abbrev Fresh : List String → Dict String V → Type 0
  Fresh [] c = Unit
  Fresh (param ∷ params) c = (lookup param c ≡ none) × Fresh params c

Fresh-nil : (V : Type 0) (params : List String) → Fresh {V = V} params []
Fresh-nil V [] = tt
Fresh-nil V (param ∷ params) = (refl, Fresh-nil V params)

module _ {V : Type 0} where
  Fresh-insert :
      (params : List String) (param : String) (v : V) (c : Dict String V)
      → contains params param ≡ false
      → Fresh params c
      → Fresh params (insert param v c)
  Fresh-insert [] param v c new fresh = tt
  Fresh-insert (q ∷ params) param v c new (here, fresh) = (
    ground (arith, lookup-insert q param v c),
    Fresh-insert params param v c (ground arith) fresh,
  )

  Fresh-row :
      (params : List String) (param : String) (vs : List V) (c : Dict String V)
      → contains params param ≡ false
      → Fresh params c
      → All (Fresh params) (map (λ v. insert param v c) vs)
  Fresh-row params param [] c new fresh = tt
  Fresh-row params param (v ∷ vs) c new fresh =
      (Fresh-insert params param v c new fresh, Fresh-row params param vs c new fresh)

  Fresh-extend :
      (params : List String) (param : String) (vs : List V) (cs : List (Dict String V))
      → contains params param ≡ false
      → All (Fresh params) cs
      → All (Fresh params) (extend param vs cs)
  unfolding extend
  Fresh-extend params param vs [] new fresh = tt
  Fresh-extend params param vs (c ∷ cs) new (here, fresh) =
      All-append (Fresh params) _ _ (Fresh-row params param vs c new here)
        (Fresh-extend params param vs cs new fresh)

  -- Each combination, followed by each of the endings.
  abbrev graft : List (Dict String V) → List (Dict String V) → List (Dict String V)
  graft ends cs = flat_map (λ c. map (λ d. c ++ d) ends) cs

  graft-nil : (cs : List (Dict String V)) → graft ([] ∷ []) cs ≡ cs
  unfolding flat_map
  graft-nil [] = refl
  graft-nil (c ∷ cs) = rw (append-nil, graft-nil cs)

  graft-append :
      (ends cs ds : List (Dict String V)) → graft ends (cs ++ ds) ≡ graft ends cs ++ graft ends ds
  unfolding flat_map
  graft-append ends [] ds = refl
  graft-append ends (c ∷ cs) ds = simp (graft-append ends cs ds, append_assoc)

  map-regroup :
      (param : String) (v : V) (c : Dict String V) (ends : List (Dict String V))
      → map (λ d. (c ++ (param, v) ∷ []) ++ d) ends
        ≡ map (λ d. c ++ d) (map (λ d. (param, v) ∷ d) ends)
  map-regroup param v c [] = refl
  map-regroup param v c (d ∷ ends) = simp (map-regroup param v c ends, append_assoc)

  graft_one :
      (param : String) (vs : List V) (ends : List (Dict String V)) (c : Dict String V)
      → lookup param c ≡ none
      → graft ends (map (λ v. insert param v c) vs)
        ≡ map (λ d. c ++ d) (flat_map (λ v. map (λ d. (param, v) ∷ d) ends) vs)
  unfolding flat_map
  graft_one param [] ends c new = refl
  graft_one param (v ∷ vs) ends c new =
      rw (insert_new param v c new, map-append)
        (ap₂ ◌++◌ (map-regroup param v c ends) (graft_one param vs ends c new))

  graft-extend :
      (param : String) (vs : List V) (ends cs : List (Dict String V))
      → All (λ c. lookup param c ≡ none) cs
      → graft ends (extend param vs cs)
        ≡ graft (flat_map (λ v. map (λ d. (param, v) ∷ d) ends) vs) cs
  unfolding extend
  graft-extend param vs ends [] new = refl
  graft-extend param vs ends (c ∷ cs) (here, new) =
      graft-append ends (map (λ v. insert param v c) vs) (extend param vs cs)
      ∙ ap₂ ◌++◌ (graft_one param vs ends c here) (graft-extend param vs ends cs new)

  new_of_Fresh :
      (param : String) (params : List String) (cs : List (Dict String V))
      → All (Fresh (param ∷ params)) cs
      → All (λ c. lookup param c ≡ none) cs × All (Fresh params) cs
  new_of_Fresh param params [] fresh = (tt, tt)
  new_of_Fresh param params (c ∷ cs) ((here, later), fresh) =
      let (news, rest) = new_of_Fresh param params cs fresh in ((here, news), (later, rest))

  combine_from-choices :
      (values : String → List V) (params : List String) (cs : List (Dict String V))
      → Distinct params
      → All (Fresh params) cs
      → combine_from params values cs ≡ graft (choices values params) cs
  unfolding combine_from choices
  combine_from-choices values [] cs distinct fresh = sym (graft-nil cs)
  combine_from-choices values (param ∷ params) cs (new, distinct) fresh =
      let (news, rest) = new_of_Fresh param params cs fresh in
      combine_from-choices values params (extend param (values param) cs) distinct
        (Fresh-extend params param (values param) cs new rest)
      ∙ graft-extend param (values param) (choices values params) cs news

  -- For parameters of which none is listed twice, the loop yields the product of the value lists,
  -- the first parameter varying slowest.
  pub combinations-eq-choices :
      (values : String → List V) (params : List String)
      → Distinct params
      → combinations params values ≡ choices values params
  unfolding combinations flat_map
  combinations-eq-choices values params distinct =
      combine_from-choices values params ([] ∷ []) distinct (Fresh-nil V params, tt)
      ∙ append-nil _
      ∙ map-id (choices values params)

  pub length-combinations :
      (values : String → List V) (params : List String)
      → Distinct params
      → length (combinations params values) ≡ product values params
  length-combinations values params distinct =
      rw (combinations-eq-choices values params distinct) (length-choices values params)

module _ {V : Type 0} (values : String → List V) where
  keys-row :
      (param : String) (params : List String) (v : V) (cs : List (Dict String V))
      → All (λ c. keys c ≡ params) cs
      → All (λ c. keys c ≡ param ∷ params) (map (λ c. (param, v) ∷ c) cs)
  keys-row param params v [] h = tt
  keys-row param params v (c ∷ cs) (e, h) = (ap (λ ks. param ∷ ks) e, keys-row param params v cs h)

  keys-branches :
      (param : String) (params : List String) (vs : List V) (cs : List (Dict String V))
      → All (λ c. keys c ≡ params) cs
      → All (λ c. keys c ≡ param ∷ params) (flat_map (λ v. map (λ c. (param, v) ∷ c) cs) vs)
  unfolding flat_map
  keys-branches param params [] cs h = tt
  keys-branches param params (v ∷ vs) cs h =
      All-append (λ c. keys c ≡ param ∷ params) _ _ (keys-row param params v cs h)
        (keys-branches param params vs cs h)

  -- Every element of the product has each parameter once, in order.
  pub keys-choices : (params : List String) → All (λ c. keys c ≡ params) (choices values params)
  unfolding choices
  keys-choices [] = (refl, tt)
  keys-choices (param ∷ params) =
      keys-branches param params (values param) (choices values params) (keys-choices params)
