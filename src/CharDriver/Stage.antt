-- ===== src/CharDriver/Stage.antt =====
-- A part of the initialisation that either holds what it is to hold or releases everything.
use csel_workspace.Prelude.{ℕ, ◌+◌, ◌≡◌, ◌≢◌, List, ◌∷◌, ◌++◌, arith}
use csel_workspace.Prelude.Int.{ℤ, pos}
use csel_workspace.CharDriver.Init.{Kind, region, class, cdev, node, Op, acquire}
use csel_workspace.CharDriver.Tally.{
  at, within, acquired, released, acquired-append, released-append, Tally, of_kind,
}
use csel_workspace.CharDriver.Ledger.{base}

-- What the module holds with `n` devices, for one resource.
abbrev pub owned : ℕ → Kind → ℕ → ℕ
owned n k j =
    of_kind k j node (within 0 n j)
    + of_kind k j cdev (within 0 n j)
    + of_kind k j class (at 0 j)
    + of_kind k j region (at 0 j)
    + base k j n

-- A part of the initialisation that begins with `held` and is to hold `all` more in the end: it
-- either does that, or releases what was held and whatever it has acquired.
pub record Stage (k : Kind) (j held all : ℕ) (out : ℤ × List Op) : Type 0 where
  pub on_success : out.0 ≡ pos 0 → (acquired k j out.1 ≡ all) × (released k j out.1 ≡ 0)
  pub on_failure : out.0 ≢ pos 0 → held + acquired k j out.1 ≡ released k j out.1

module _ (k : Kind) (j : ℕ) where
  pub Stage-failed :
      {held all got gone : ℕ} {ret : ℤ} {ops : List Op}
      → ret ≢ pos 0
      → Tally k j ops got gone
      → held + got ≡ gone
      → Stage k j held all (ret, ops)
  Stage-failed bad t e = record {
    on_success = λ z. absurd (bad z);
    on_failure = λ z. omega (arith, t.gets, t.puts);
  }

  pub Stage-acquire :
      {held all : ℕ} {ret : ℤ} {ops : List Op} (kind : Kind) (i : ℕ)
      → Stage k j (of_kind k j kind (at i j) + held) all (ret, ops)
      → Stage k j held (of_kind k j kind (at i j) + all) (ret, acquire kind i ∷ ops)
  unfolding acquired released
  Stage-acquire kind i s = record {
    on_success = λ z. (omega (arith, (s.on_success z).0), (s.on_success z).1);
    on_failure = λ z. omega (arith, s.on_failure z);
  }

  pub Stage-append :
      {held all got : ℕ} {before : List Op} {out : ℤ × List Op}
      → Tally k j before got 0
      → Stage k j (held + got) all out
      → Stage k j held (got + all) (out.0, before ++ out.1)
  Stage-append {before = before} {out} t s = record {
    on_success = λ z. (
      omega (arith, acquired-append k j before out.1, t.gets, (s.on_success z).0),
      omega (arith, released-append k j before out.1, t.puts, (s.on_success z).1),
    );
    on_failure = λ z. omega (
      arith,
      acquired-append k j before out.1,
      t.gets,
      released-append k j before out.1,
      t.puts,
      s.on_failure z,
    );
  }

  pub Stage-held :
      {held held' all all' : ℕ} {out : ℤ × List Op}
      → held ≡ held'
      → all ≡ all'
      → Stage k j held all out
      → Stage k j held' all' out
  Stage-held e f s = record {
    on_success = λ z. (omega (arith, (s.on_success z).0), (s.on_success z).1);
    on_failure = λ z. omega (arith, s.on_failure z);
  }
