-- ===== src/ChipId/Words.antt =====
-- Which words the program reads, and what it leaves open.
use native.Mathlib.Nat.{div-add-mod, mod-lt, mul_assoc}
use mathlib.Core.Path.{subst}
use csel_workspace.Prelude.{
  ℕ, ◌+◌, ◌*◌, ◌/◌, ◌%◌, ◌≤◌, ◌<◌, ◌≡◌, refl, sym, ap, ◌∙◌, Bool, true, false, none, some, List, [],
  ◌∷◌, arith, if◌then◌else◌,
}
use csel_workspace.Prelude.Int.{pos, minus}
use csel_workspace.Prelude.Ledger.{acquired, released}
use csel_workspace.ChipId.{
  Resource, dev_mem, mapping, dev_addr, Env, ofs, offset, register, chipid, main,
}

-- The register lies in the page that is mapped, at an offset that is a multiple of 16.
record InPage (psz : ℕ) : Type 0 where
  whole : offset psz + ofs psz ≡ dev_addr
  aligned : ofs psz % 16 ≡ 0
  inside : ofs psz + 16 ≤ psz

in_page : (q : ℕ) → 0 < q → InPage (16 * q)
unfolding ofs offset
in_page q h =
    let below = mod-lt dev_addr {m = 16 * q} (omega (arith, h)) in
    let pages = dev_addr / (16 * q) in
    let split : 16 * (q * pages) + dev_addr % (16 * q) ≡ dev_addr =
      ap (λ t. t + dev_addr % (16 * q)) (sym (mul_assoc 16 q pages))
      ∙ div-add-mod dev_addr (16 * q) in
    record {
      whole = omega (arith, split);
      aligned = omega (arith, split);
      inside = omega (arith, split, below);
    }

register_lem :
    (env : Env) (at : ℕ)
    → InPage env.psz
    → at % 4 ≡ 0
    → register env at ≡ env.memory (dev_addr + at)
unfolding register
register_lem env at p e = ap env.memory (omega (arith, p.whole, p.aligned, e))

abbrev pub words : Env → List ℕ
words env =
    env.memory dev_addr
    ∷ env.memory (dev_addr + 4)
    ∷ env.memory (dev_addr + 8)
    ∷ env.memory (dev_addr + 12)
    ∷ []

chipid_lem : (env : Env) → InPage env.psz → chipid env ≡ words env
unfolding chipid
chipid_lem env p =
    rw
      (
        register_lem env 0 p refl,
        register_lem env 4 p refl,
        register_lem env 8 p refl,
        register_lem env 12 p refl,
      )
      refl

abbrev pub is_mem : Resource → Bool
is_mem dev_mem = true
is_mem mapping = false

-- For every page size that is a multiple of 16: when /dev/mem opens and can be mapped, the result is
-- 0 and the words are those at the address of the chip id and the three behind it, all four in the
-- page that was mapped, and /dev/mem is closed again. When the mapping fails the result is -1, no
-- word is read and /dev/mem stays open.
pub main_reads :
    (env : Env) (q : ℕ)
    → 0 < q
    → env.psz ≡ 16 * q
    → env.opens ≡ true
    → (offset env.psz ≤ dev_addr)
      × (dev_addr + 16 ≤ offset env.psz + env.psz)
      × ((main env).0 ≡ (if env.maps then pos 0 else minus 1))
      × ((main env).1 ≡ (if env.maps then some (words env) else none))
      × (acquired is_mem (main env).2 ≡ released is_mem (main env).2 + (if env.maps then 0 else 1))
unfolding main acquired released
main_reads env q h e o =
    let p : InPage env.psz = subst InPage (sym e) (in_page q h) in
    (
      omega (arith, p.whole),
      omega (arith, p.whole, p.inside),
      ground (arith, o),
      ground (arith, o, chipid_lem env p),
      ground (arith, o),
    )
