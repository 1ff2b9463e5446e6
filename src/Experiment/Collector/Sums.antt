-- ===== src/Experiment/Collector/Sums.antt =====
-- Counting over the collections (tools/experiment.py).
use sunstorm_xactserver.Base.{ℕ, ◌+◌, ◌≤◌, ◌≡◌, List, [], ◌∷◌, ◌++◌, arith}
use sunstorm_xactserver.Experiment.Collector.{Phase, sum}

module _ (f : Phase → ℕ) where
  pub sum-append : (ps qs : List Phase) → sum f (ps ++ qs) ≡ sum f ps + sum f qs
  sum-append [] qs = omega arith
  sum-append (p ∷ ps) qs = omega (arith, sum-append ps qs)

  -- The sum after one of the collections has gone on.
  pub sum-moved :
      (front back : List Phase) (p q : Phase) {jobs : List Phase}
      → jobs ≡ front ++ p ∷ back
      → sum f (front ++ q ∷ back) + f p ≡ sum f jobs + f q
  sum-moved front back p q e =
      rw e (omega (arith, sum-append front (p ∷ back), sum-append front (q ∷ back)))

-- A smaller count of each collection has a smaller sum.
pub sum_mono :
    (f g : Phase → ℕ) → ((p : Phase) → f p ≤ g p) → (ps : List Phase) → sum f ps ≤ sum g ps
sum_mono f g le [] = omega arith
sum_mono f g le (p ∷ ps) = omega (arith, le p, sum_mono f g le ps)
