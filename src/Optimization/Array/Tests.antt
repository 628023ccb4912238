-- ===== src/Optimization/Array/Tests.antt =====
-- Runs of the two programs, and an example of their theorem.
use mathlib.Core.List.Permᴰ
use csel_workspace.Prelude.{◌≡◌, refl, ◌*◌, ◌^◌, ◌<◌, [], ◌∷◌}
use csel_workspace.Optimization.Array.{
  increment, columns, rows, rounds, generate, sum_large, sum_rounds, sorted_sum,
}
use csel_workspace.Optimization.Array.Sums.{large, sorted_sum_lem}

test_rounds : rounds 3 10 (λ a b. a) 2 1 ≡ 12
unfolding rounds rows columns increment
test_rounds = refl

test_sum : sum_rounds 2 (100 ∷ 300 ∷ 256 ∷ []) 0 ≡ 1112
unfolding sum_rounds sum_large
test_sum = refl

test_sorted_sum :
    (sorted_sum (λ c xs. xs) (λ i. i) ≡ 10000 * large (generate (λ i. i) 0 65536))
    × (sorted_sum (λ c xs. xs) (λ i. i) ≡ sorted_sum (λ c xs. xs) (λ i. i))
    × (sorted_sum (λ c xs. xs) (λ i. i) < 2 ^ 63)
test_sorted_sum = sorted_sum_lem (λ c xs. xs) (λ i. i) (Permᴰ.refl (generate (λ i. i) 0 65536))
