-- ===== src/PlatformDriver/Tests.antt =====
-- Runs of the platform driver, and examples of its theorems.
use csel_workspace.Prelude.{
  ℕ, ◌+◌, ◌≡◌, refl, true, false, none, some, List, [], ◌∷◌, ◌++◌, min, take, drop, set, length,
  length-replicate, replicate, length-append, arith,
}
use csel_workspace.Prelude.Int.{pos, minus}
use csel_workspace.Prelude.Errno.{efault}
use csel_workspace.Prelude.Ledger.{Op, acquired, released}
use csel_workspace.Prelude.Text.{codes, no_nul, strlen}
use csel_workspace.PlatformDriver.{buffer_sz, skeleton_read, skeleton_write}
use csel_workspace.PlatformDriver.Append.{append-read}
use csel_workspace.PlatformDriver.Overflow.{long_write, read_past_end}
use csel_workspace.PlatformDriver.Probe.{Resource, Child, drv_probe, drv_remove, probe_children}
use csel_workspace.PlatformDriver.Probe.Leak.{is_misc, remove_leaves}

abbrev two : List ℕ
two = codes "ab"

abbrev zeros : List ℕ
zeros = replicate 9998 0

whole : length (two ++ zeros) ≡ buffer_sz
whole = omega (arith, length-append two zeros, length-replicate {A = ℕ} 9998 0)

append-read_example :
    (buffer : List ℕ) × (skeleton_write (two ++ zeros) (codes "cd") 2 none
      ≡ some (pos 2, buffer, 4))
    × (skeleton_read buffer 3 1 false
        ≡ some (pos (min 3 3), take (min 3 3) (drop 1 (codes "abcd")), 1 + min 3 3))
unfolding no_nul
append-read_example =
    append-read two zeros (codes "cd") 3 1 whole refl refl (omega arith) (omega arith) (omega arith)

-- Twenty bytes at offset 9990.
long_write_example :
    skeleton_write (two ++ zeros) (replicate 20 65) 9990 none
    ≡ some (minus efault, set (two ++ zeros) 9985 0, 10010)
long_write_example =
    long_write (two ++ zeros) (replicate 20 65) 9990 none (omega arith) (omega arith) (omega arith)

test_past_end : skeleton_read (codes "ab\0cdef") 3 4 false ≡ some (pos 3, codes "def", 7)
unfolding strlen
test_past_end =
    read_past_end (codes "ab\0cdef") 2 3 4 refl (omega arith) (omega arith) (omega arith)

abbrev good : Child
good = record { alloc_ok = true; register_status = pos 0; create_status = pos 0 }

-- A third child without memory ends the probe.
test_no_memory : (drv_probe (good ∷ good ∷ record good { alloc_ok = false } ∷ [])).drvdata ≡ some 1
unfolding drv_probe probe_children
test_no_memory = refl

remove_leaves_example :
    (calls : List (Op Resource)) × (drv_remove (drv_probe (good ∷ good ∷ [])).drvdata ≡ some calls)
    × (acquired (is_misc 0) (drv_probe (good ∷ good ∷ [])).ops ≡ 1)
    × (released (is_misc 0) calls ≡ 0)
remove_leaves_example = remove_leaves (good ∷ good ∷ []) 0 refl (omega arith)
