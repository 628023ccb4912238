-- ===== src/Optimization/Array.antt =====
-- src/06_optimization/ex01/main.c: ten rounds over a square array; ex02/main.c: a sum over sorted
-- random data.
pub mod Sums
mod Tests
use csel_workspace.Prelude.{
  ℕ, zero, suc, ◌+◌, ◌-◌, ◌*◌, ◌%◌, Bool, ◌&&◌, List, [], ◌∷◌, leb, ◌==◌, if◌then◌else◌,
}
use csel_workspace.Prelude.Int.{ℤ, pos, ◌-ℤ◌}

-- The elements of `array`, by row and column.
abbrev pub Elements : Type 0
Elements = ℕ → ℕ → ℕ

-- `array[i][j]++`
unfoldable pub increment : ℕ → ℕ → Elements → Elements
increment i j array a b = if (a == i) && (b == j) then array a b + 1 else array a b

-- The loop over `j` from `j` on, with `k` rounds left, the loop over `i`, and the loop over `k`.
unfoldable pub columns : ℕ → ℕ → ℕ → Elements → Elements
columns i j zero array = array
columns i j (suc k) array = columns i (j + 1) k (increment i j array)

unfoldable pub rows : ℕ → ℕ → ℕ → Elements → Elements
rows size i zero array = array
rows size i (suc k) array = rows size (i + 1) k (columns i 0 size array)

unfoldable pub rounds : ℕ → ℕ → Elements → Elements
rounds size zero array = array
rounds size (suc k) array = rounds size k (rows size 0 size array)

-- SIZE of ex01
abbrev pub size : ℕ
size = 5000

-- `main` of ex01.
unfoldable pub count_up : Elements → Elements
count_up array = rounds size 10 array

-- `data[i] = rand() % 512` for `k` elements, from the numbers that `rand` brings.
unfoldable pub generate : (ℕ → ℕ) → ℕ → ℕ → List ℕ
generate rand i zero = []
generate rand i (suc k) = rand i % 512 ∷ generate rand (i + 1) k

-- `compare`; the difference of two `short` fits an `int`.
unfoldable pub compare_shorts : ℕ → ℕ → ℤ
compare_shorts a b = pos a -ℤ pos b

-- The inner loop of ex02, and the outer loop.
unfoldable pub sum_large : List ℕ → ℕ → ℕ
sum_large [] sum = sum
sum_large (d ∷ data_list) sum = sum_large data_list (if leb 256 d then sum + d else sum)

unfoldable pub sum_rounds : ℕ → List ℕ → ℕ → ℕ
sum_rounds zero data_list sum = sum
sum_rounds (suc k) data_list sum = sum_rounds k data_list (sum_large data_list sum)

-- `main` of ex02: the sum that it prints; `qsort` is the sort with a comparison.
unfoldable pub sorted_sum : ((ℕ → ℕ → ℤ) → List ℕ → List ℕ) → (ℕ → ℕ) → ℕ
sorted_sum qsort rand = sum_rounds 10000 (qsort compare_shorts (generate rand 0 65536)) 0
