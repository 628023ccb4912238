-- ===== src/ChipId/Tests.antt =====
-- A run of the chip id program, and an example of its theorem.
use csel_workspace.Prelude.{◌≡◌, ◌≤◌, ◌+◌, refl, true, some, [], ◌∷◌, arith}
use csel_workspace.Prelude.Int.{pos}
use csel_workspace.Prelude.Ledger.{acquired, released}
use csel_workspace.ChipId.{Env, dev_addr, ofs, offset, register, chipid, main}
use csel_workspace.ChipId.Words.{words, is_mem, main_reads}

-- Pages of 4096 bytes; each word holds its address.
abbrev board : Env
board = record { psz = 4096; opens = true; maps = true; memory = λ a. a }

test_words : (main board).1 ≡ some (29442560 ∷ 29442564 ∷ 29442568 ∷ 29442572 ∷ [])
unfolding main chipid register ofs offset
test_words = refl

main_reads_example :
    (offset 4096 ≤ dev_addr)
    × (dev_addr + 16 ≤ offset 4096 + 4096)
    × ((main board).0 ≡ pos 0)
    × ((main board).1 ≡ some (words board))
    × (acquired is_mem (main board).2 ≡ released is_mem (main board).2 + 0)
main_reads_example = main_reads board 256 (omega arith) refl refl
