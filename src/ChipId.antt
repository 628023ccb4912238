-- ===== src/ChipId.antt =====
-- src/03_drivers/exercise01/main.c: the chip id, read from its registers through /dev/mem.
pub mod Words
mod Tests
use csel_workspace.Prelude.{
  ℕ, zero, suc, ◌+◌, ◌-◌, ◌*◌, ◌/◌, ◌%◌, Bool, true, false, not, Option, none, some, List, [], ◌∷◌,
  ◌++◌, if◌then◌else◌,
}
use csel_workspace.Prelude.Int.{ℤ, pos, minus}
use csel_workspace.Prelude.Ledger.{Op, acquire, release}

-- What `main` opens and maps.
pub data Resource : Type 0 where
  dev_mem mapping : Resource

-- 0x01c14200
abbrev pub dev_addr : ℕ
dev_addr = 29442560

-- The page size, whether `open` and `mmap` succeed, and the 32-bit words of the memory by their
-- address.
pub record Env : Type 0 where
  pub psz : ℕ
  pub opens : Bool
  pub maps : Bool
  pub memory : ℕ → ℕ

-- `ofs` and `offset`; `psz` is not 0.
unfoldable pub ofs : ℕ → ℕ
ofs psz = dev_addr % psz

unfoldable pub offset : ℕ → ℕ
unfolding ofs
offset psz = dev_addr - ofs psz

-- `*(regs + (ofs + at) / sizeof(uint32_t))`: `regs` points at the words of the page at `offset`.
unfoldable pub register : Env → ℕ → ℕ
register env at = env.memory (offset env.psz + 4 * ((ofs env.psz + at) / 4))

unfoldable pub chipid : Env → List ℕ
chipid env = register env 0 ∷ register env 4 ∷ register env 8 ∷ register env 12 ∷ []

-- `main`: the result, the four words if they are read, and what is opened and mapped, closed and
-- unmapped.
unfoldable pub main : Env → ℤ × Option (List ℕ) × List (Op Resource)
main env =
    if not env.opens
    then (minus 1, none, [])
    else if not env.maps
    then (minus 1, none, acquire dev_mem ∷ [])
    else (
      pos 0,
      some (chipid env),
      acquire dev_mem ∷ acquire mapping ∷ release mapping ∷ release dev_mem ∷ [],
    )
