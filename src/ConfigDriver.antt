-- ===== src/ConfigDriver.antt =====
-- src/03_drivers/exercise05/skeleton.c: a character driver whose buffer is allocated anew by every
-- write, with two attributes in sysfs.
pub mod Attributes
pub mod Setup
pub mod Text
mod Tests
use csel_workspace.Prelude.{
  ℕ, zero, suc, ◌+◌, ◌-◌, Bool, true, false, not, ◌||◌, Option, none, some, List, [], ◌∷◌, ◌++◌,
  ◌==◌, leb, ltb, length, take, drop, set, replicate, if◌then◌else◌,
}
use csel_workspace.Prelude.Int.{ℤ, pos, minus}
use csel_workspace.Prelude.Text.{strlen}
use csel_workspace.Prelude.Errno.{enomem, efault}

-- What `chardev_read` returns, the bytes that reach the caller, and the new offset.
abbrev pub ReadResult : Type 0
ReadResult = ℤ × List ℕ × ℕ

-- From the length of the text on.
unfoldable pub read_at : List ℕ → ℕ → ℕ → ℕ → Bool → ReadResult
read_at bytes len count off fails =
    let n = if ltb (len - off) count then len - off else count in
    if leb len off
    then (pos 0, [], off)
    else if fails
    then (minus efault, [], off)
    else (pos n, take n (drop off bytes), off + n)

-- `chardev_read`; `none` is a read behind the allocation. `fails` is whether `copy_to_user` leaves
-- bytes uncopied.
unfoldable pub chardev_read : Option (List ℕ) → ℕ → ℕ → Bool → Option ReadResult
chardev_read none count off fails = some (pos 0, [], off)
chardev_read (some bytes) count off fails = elim (strlen bytes) [
  | none ↦ none
  | some len ↦ some (read_at bytes len count off fails)
]

-- `chardev_write` of `buf`, with the value returned and the new `chardev_data`. `alloc` is what
-- `kmalloc` brings: uninitialised bytes, one more than `buf` has. `fault` is the number of bytes
-- that `copy_from_user` copied when it could not copy all: it fills the rest with zeros. The former
-- data is freed first in every case.
unfoldable pub chardev_write :
    Option (List ℕ) → Option (List ℕ) → List ℕ → Option ℕ → ℤ × Option (List ℕ)
chardev_write old none buf fault = (minus enomem, none)
chardev_write old (some bytes) buf (some k) =
    let n = length buf in (minus efault, some (take k buf ++ (replicate (n - k) 0 ++ drop n bytes)))
chardev_write old (some bytes) buf none =
    let n = length buf in (pos n, some (set (buf ++ drop n bytes) n 0))
