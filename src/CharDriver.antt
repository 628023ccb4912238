-- ===== src/CharDriver.antt =====
-- src/03_drivers/exercise02_to_03/skeleton.c: a character driver with one fixed buffer for each of
-- its devices.
pub mod Transfer
pub mod Init
pub mod Tally
pub mod Ledger
pub mod Stage
pub mod Settled
pub mod Unload
mod Tests
use csel_workspace.Prelude.{
  ℕ, zero, suc, ◌+◌, ◌-◌, ◌*◌, min, Bool, true, false, ◌||◌, Option, none, some, List, [], ◌∷◌,
  ◌++◌, ◌==◌, ltb, leb, take, drop, set, length, get_or, if◌then◌else◌,
}
use csel_workspace.Prelude.Int.{ℤ, pos, minus}
use csel_workspace.Prelude.Errno.{enodev, efault}

abbrev pub skeleton_buffer_size : ℕ
skeleton_buffer_size = 256

-- The bytes before the first NUL, `size` at most.
unfoldable pub strnlen : List ℕ → ℕ → ℕ
strnlen [] size = 0
strnlen (b ∷ bs) zero = 0
strnlen (b ∷ bs) (suc size) = let n = strnlen bs size in if b == 0 then 0 else suc n

-- `skeleton_open`: the result, and the index whose buffer becomes the file's private data.
-- `minor` and `base` are the minor numbers of the file and of the first device.
unfoldable pub skeleton_open : ℕ → ℕ → ℕ → ℤ × Option ℕ
skeleton_open devices_number minor base =
    if ltb minor base || leb devices_number (minor - base)
    then (minus enodev, none)
    else (pos 0, some (minor - base))

-- What `skeleton_read` returns, the bytes that reach the caller, and the new offset. `fails` is
-- whether `copy_to_user` leaves bytes uncopied.
abbrev pub ReadResult : Type 0
ReadResult = ℤ × List ℕ × ℕ

unfoldable pub skeleton_read : Option (List ℕ) → ℕ → ℕ → Bool → ReadResult
unfolding strnlen
skeleton_read none count off fails = (pos 0, [], off)
skeleton_read (some bytes) count off fails =
    let len = strnlen bytes skeleton_buffer_size in
    let n = if ltb (len - off) count then len - off else count in
    if leb len off
    then (pos 0, [], off)
    else if fails
    then (minus efault, [], off)
    else (pos n, take n (drop off bytes), off + n)

-- The buffer after `n` bytes were copied to its front.
abbrev pub overlay : ℕ → List ℕ → List ℕ → List ℕ
overlay n new old = take n new ++ drop n old

-- What `skeleton_write` returns, the buffer, and the new offset. `fault` is what a failed
-- `copy_from_user` leaves in the buffer.
abbrev pub WriteResult : Type 0
WriteResult = ℤ × Option (List ℕ) × ℕ

-- The bytes that a write takes.
abbrev pub bytes_to_copy : ℕ → ℕ
bytes_to_copy count = min count (skeleton_buffer_size - 1)

unfoldable pub skeleton_write : Option (List ℕ) → List ℕ → ℕ → Option (List ℕ) → WriteResult
skeleton_write none buf off fault = (minus enodev, none, off)
skeleton_write (some bytes) buf off (some left) = (minus efault, some left, off)
skeleton_write (some bytes) buf off none =
    let n = bytes_to_copy (length buf) in (pos n, some (set (overlay n buf bytes) n 0), 0)
