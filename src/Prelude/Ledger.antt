-- ===== src/Prelude/Ledger.antt =====
-- Counting what a run of calls acquires and releases of the resources that a test picks.
use csel_workspace.Prelude.{ℕ, ◌+◌, ◌≡◌, Bool, List, [], ◌∷◌, ◌++◌, if◌then◌else◌, arith}

pub data Op {ℓ} (R : Type ℓ) : Type ℓ where
  acquire release : R → Op R

module _ {ℓ} {R : Type ℓ} (picks : R → Bool) where
  unfoldable pub acquired : List (Op R) → ℕ
  acquired [] = 0
  acquired (acquire r ∷ ops) = (if picks r then 1 else 0) + acquired ops
  acquired (release r ∷ ops) = acquired ops

  unfoldable pub released : List (Op R) → ℕ
  released [] = 0
  released (acquire r ∷ ops) = released ops
  released (release r ∷ ops) = (if picks r then 1 else 0) + released ops

  pub acquired-append : (xs ys : List (Op R)) → acquired (xs ++ ys) ≡ acquired xs + acquired ys
  unfolding acquired
  acquired-append [] ys = omega arith
  acquired-append (acquire r ∷ xs) ys = omega (arith, acquired-append xs ys)
  acquired-append (release r ∷ xs) ys = acquired-append xs ys

  pub released-append : (xs ys : List (Op R)) → released (xs ++ ys) ≡ released xs + released ys
  unfolding released
  released-append [] ys = omega arith
  released-append (acquire r ∷ xs) ys = released-append xs ys
  released-append (release r ∷ xs) ys = omega (arith, released-append xs ys)
