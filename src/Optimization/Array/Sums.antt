-- ===== src/Optimization/Array/Sums.antt =====
-- What the two programs compute.
use mathlib.Core.List.{Permᴰ}
use csel_workspace.Prelude.{
  ℕ, zero, suc, ◌+◌, ◌*◌, ◌^◌, ◌≤◌, ◌<◌, ◌≡◌, refl, ◌∙◌, Bool, ◌&&◌, List, [], ◌∷◌, leb, ltb, ◌==◌,
  if◌then◌else◌, arith,
}
use csel_workspace.Prelude.Int.{ℤ}
use csel_workspace.Optimization.Array.{
  Elements, increment, columns, rows, rounds, size, count_up, generate, compare_shorts, sum_large,
  sum_rounds, sorted_sum,
}

-- Whether `b` is among the `k` numbers from `j` on.
abbrev within : ℕ → ℕ → ℕ → Bool
within j k b = leb j b && ltb b (j + k)

columns_lem :
    (i j k : ℕ) (array : Elements) (a b : ℕ)
    → columns i j k array a b ≡ (if (a == i) && within j k b then array a b + 1 else array a b)
unfolding columns increment
columns_lem i j zero array a b = ground arith
columns_lem i j (suc k) array a b = columns_lem i (j + 1) k (increment i j array) a b ∙ ground arith

rows_lem :
    (n i k : ℕ) (array : Elements) (a b : ℕ)
    → rows n i k array a b ≡ (if within i k a && ltb b n then array a b + 1 else array a b)
unfolding rows
rows_lem n i zero array a b = ground arith
rows_lem n i (suc k) array a b =
    rows_lem n (i + 1) k (columns i 0 n array) a b ∙ ground (arith, columns_lem i 0 n array a b)

rounds_lem :
    (n k : ℕ) (array : Elements) (a b : ℕ)
    → rounds n k array a b ≡ (if ltb a n && ltb b n then array a b + k else array a b)
unfolding rounds
rounds_lem n zero array a b = ground arith
rounds_lem n (suc k) array a b =
    rounds_lem n k (rows n 0 n array) a b ∙ ground (arith, rows_lem n 0 n array a b)

-- Every element of the array is counted up ten times, and nothing outside it is touched.
pub count_up_lem :
    (array : Elements) (a b : ℕ)
    → count_up array a b ≡ (if ltb a size && ltb b size then array a b + 10 else array a b)
unfolding count_up
count_up_lem array a b = rounds_lem 5000 10 array a b

-- The sum of the elements that are 256 at least.
abbrev pub large : List ℕ → ℕ
large [] = 0
large (d ∷ ds) = (if leb 256 d then d else 0) + large ds

large_perm : {xs ys : List ℕ} → Permᴰ xs ys → large xs ≡ large ys
large_perm Permᴰ.nil = refl
large_perm (Permᴰ.cons e d) = ground (arith, e, large_perm d)
large_perm (Permᴰ.swap e f) = ground (arith, e, f)
large_perm (Permᴰ.trans d e) = large_perm d ∙ large_perm e

sum_large_lem : (xs : List ℕ) (sum : ℕ) → sum_large xs sum ≡ sum + large xs
unfolding sum_large
sum_large_lem [] sum = omega arith
sum_large_lem (d ∷ xs) sum = sum_large_lem xs _ ∙ ground arith

sum_rounds_lem : (k : ℕ) (xs : List ℕ) (sum : ℕ) → sum_rounds k xs sum ≡ sum + k * large xs
unfolding sum_rounds
sum_rounds_lem zero xs sum = omega arith
sum_rounds_lem (suc k) xs sum = sum_rounds_lem k xs _ ∙ omega (arith, sum_large_lem xs sum)

large-generate : (rand : ℕ → ℕ) (i k : ℕ) → large (generate rand i k) ≤ k * 511
unfolding generate
large-generate rand i zero = omega arith
large-generate rand i (suc k) = ground (arith, large-generate rand (i + 1) k)

-- When `qsort` reorders its elements: the sum printed is 10000 times the sum of the elements from
-- 256 on, as it is without the sort, whose only use is to make the branch predictable, and it is in
-- the range of `long long`.
pub sorted_sum_lem :
    (qsort : (ℕ → ℕ → ℤ) → List ℕ → List ℕ) (rand : ℕ → ℕ)
    → Permᴰ (qsort compare_shorts (generate rand 0 65536)) (generate rand 0 65536)
    → (sorted_sum qsort rand ≡ 10000 * large (generate rand 0 65536))
      × (sorted_sum qsort rand ≡ sorted_sum (λ c xs. xs) rand)
      × (sorted_sum qsort rand < 2 ^ 63)
unfolding sorted_sum
sorted_sum_lem qsort rand p =
    let data_list = generate rand 0 65536 in
    let sorted = sum_rounds_lem 10000 (qsort compare_shorts data_list) 0 in
    let same = large_perm p in
    let value : sorted_sum qsort rand ≡ 10000 * large data_list = omega (arith, sorted, same) in
    (
      value,
      value ∙ omega (arith, sum_rounds_lem 10000 data_list 0),
      omega (arith, value, large-generate rand 0 65536),
    )
