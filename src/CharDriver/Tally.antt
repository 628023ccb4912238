-- ===== src/CharDriver/Tally.antt =====
-- Counting acquisitions and releases of one resource in a run of calls.
use csel_workspace.Prelude.{
  ℕ, ◌+◌, ◌≤◌, ◌<◌, ◌≡◌, refl, Bool, true, false, ◌&&◌, List, [], ◌∷◌, ◌++◌, ◌==◌, ltb, leb,
  if◌then◌else◌, arith,
}
use csel_workspace.CharDriver.Init.{
  Kind, devices, buffers, buffer, region, class, cdev, node, Op, acquire, release,
}

abbrev pub same : Kind → Kind → Bool
same devices devices = true
same buffers buffers = true
same buffer buffer = true
same region region = true
same class class = true
same cdev cdev = true
same node node = true
same _ _ = false

-- 1 at the index, and 1 between two indices; 0 elsewhere.
pub at : ℕ → ℕ → ℕ
at i j = if i == j then 1 else 0

pub within : ℕ → ℕ → ℕ → ℕ
within a b j = if leb a j && ltb j b then 1 else 0

-- How often a resource is acquired and released.
unfoldable pub acquired : Kind → ℕ → List Op → ℕ
acquired k j [] = 0
acquired k j (acquire kind i ∷ ops) = (if same k kind then at i j else 0) + acquired k j ops
acquired k j (release kind i ∷ ops) = acquired k j ops

unfoldable pub released : Kind → ℕ → List Op → ℕ
released k j [] = 0
released k j (acquire kind i ∷ ops) = released k j ops
released k j (release kind i ∷ ops) = (if same k kind then at i j else 0) + released k j ops

module _ (k : Kind) (j : ℕ) where
  pub acquired-append :
      (xs ys : List Op) → acquired k j (xs ++ ys) ≡ acquired k j xs + acquired k j ys
  unfolding acquired
  acquired-append [] ys = omega arith
  acquired-append (acquire kind i ∷ xs) ys = omega (arith, acquired-append xs ys)
  acquired-append (release kind i ∷ xs) ys = acquired-append xs ys

  pub released-append :
      (xs ys : List Op) → released k j (xs ++ ys) ≡ released k j xs + released k j ys
  unfolding released
  released-append [] ys = omega arith
  released-append (acquire kind i ∷ xs) ys = released-append xs ys
  released-append (release kind i ∷ xs) ys = omega (arith, released-append xs ys)

pub within-empty : (a b j : ℕ) → b ≤ a → within a b j ≡ 0
unfolding within
within-empty a b j h = ground arith

pub within-step : (i n j : ℕ) → i < n → at i j + within (i + 1) n j ≡ within i n j
unfolding within at
within-step i n j h = ground arith

pub within-last : (n j : ℕ) → within 0 n j + at n j ≡ within 0 (n + 1) j
unfolding within at
within-last n j = ground arith

-- What a run of calls comes to, for one resource: acquisitions and releases.
pub record Tally (k : Kind) (j : ℕ) (ops : List Op) (got gone : ℕ) : Type 0 where
  pub gets : acquired k j ops ≡ got
  pub puts : released k j ops ≡ gone

module _ (k : Kind) (j : ℕ) where
  -- A count that concerns one kind only.
  abbrev pub of_kind : Kind → ℕ → ℕ
  of_kind kind n = if same k kind then n else 0

  pub Tally-append :
      {xs ys : List Op} {a b c d : ℕ}
      → Tally k j xs a b
      → Tally k j ys c d
      → Tally k j (xs ++ ys) (a + c) (b + d)
  Tally-append {xs} {ys} s t = record {
    gets = omega (arith, acquired-append k j xs ys, s.gets, t.gets);
    puts = omega (arith, released-append k j xs ys, s.puts, t.puts);
  }

  pub Tally-nil : Tally k j [] 0 0
  unfolding acquired released
  Tally-nil = record { gets = refl; puts = refl }

  pub Tally-acquire :
      {ops : List Op} {a b : ℕ} (kind : Kind) (i : ℕ)
      → Tally k j ops a b
      → Tally k j (acquire kind i ∷ ops) (of_kind kind (at i j) + a) b
  unfolding acquired released
  Tally-acquire kind i t = record { gets = omega (arith, t.gets); puts = t.puts }

  pub Tally-release :
      {ops : List Op} {a b : ℕ} (kind : Kind) (i : ℕ)
      → Tally k j ops a b
      → Tally k j (release kind i ∷ ops) a (of_kind kind (at i j) + b)
  unfolding acquired released
  Tally-release kind i t = record { gets = t.gets; puts = omega (arith, t.puts) }

  pub Tally-eq :
      {ops : List Op} {a b a' b' : ℕ} → Tally k j ops a b → a ≡ a' → b ≡ b' → Tally k j ops a' b'
  Tally-eq t e f = record { gets = omega (arith, t.gets); puts = omega (arith, t.puts) }
