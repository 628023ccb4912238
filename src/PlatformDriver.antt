-- ===== src/PlatformDriver.antt =====
-- teacher_solutions/03_drivers/sample06.3/skeleton.c: a platform driver that registers a
-- character device with an attribute for each child of its device tree node.
pub mod Append
pub mod Overflow
pub mod Probe
mod Tests
use csel_workspace.Prelude.{
  ℕ, zero, suc, ◌+◌, ◌-◌, ◌%◌, ◌^◌, Bool, true, false, not, ◌&&◌, ◌||◌, Option, none, some, List,
  [], ◌∷◌, ◌++◌, ◌==◌, ltb, leb, take, drop, set, length, if◌then◌else◌, ◌⊎◌, inl, inr,
}
use csel_workspace.Prelude.Int.{ℤ, pos, negsuc, minus, ◌-ℤ◌}
use csel_workspace.Prelude.Errno.{efault, eio}
use csel_workspace.Prelude.Machine.{to_size}
use csel_workspace.Prelude.Decimal.{print_int}
use csel_workspace.Prelude.Text.{strlen}

abbrev pub buffer_sz : ℕ
buffer_sz = 10000

-- `skeleton_read` of a device's buffer: the result, the bytes that reach the caller, and the new
-- offset; `none` is a read outside the buffer. `fails` is whether `copy_to_user` fails.
unfoldable pub skeleton_read : List ℕ → ℕ → ℕ → Bool → Option (ℤ × List ℕ × ℕ)
skeleton_read buffer count off fails = elim (strlen buffer) [
  | none ↦ none
  | some len ↦
      let remaining = to_size (pos len -ℤ pos off) in
      let n = if ltb remaining count then remaining else count in
      if ltb buffer_sz (off + n)
      then none
      else if fails && not (n == 0)
      then some (minus efault, [], off + n)
      else some (pos n, take n (drop off buffer), off + n)
]

-- The bytes that `copy_from_user` puts at the offset.
abbrev pub overlay : ℕ → List ℕ → List ℕ → List ℕ
overlay off buf buffer = take off buffer ++ (buf ++ drop (off + length buf) buffer)

-- `skeleton_write` of `buf` from the assignment to `count` on. `fault` is what the buffer holds when
-- `copy_from_user` fails, which it does without a copy when more is asked for than `buf` has.
unfoldable pub store_bytes : List ℕ → List ℕ → ℕ → ℕ → Option (List ℕ) → Option (ℤ × List ℕ × ℕ)
store_bytes buffer buf off count fault =
    let at = (off + count) % 2 ^ 64 in
    let ended = set buffer at 0 in
    if leb buffer_sz at
    then none
    else if ltb (length buf) count
    then some (minus efault, ended, off + length buf)
    else elim fault [
      | some left ↦ some (minus efault, left, off + length buf)
      | none ↦ some (pos count, overlay off buf ended, off + length buf)
    ]

-- `skeleton_write`: the result, the buffer and the new offset; `none` is a write outside the buffer.
unfoldable pub skeleton_write : List ℕ → List ℕ → ℕ → Option (List ℕ) → Option (ℤ × List ℕ × ℕ)
unfolding store_bytes
skeleton_write buffer buf off fault =
    let remaining = to_size (pos buffer_sz -ℤ pos off) in
    let count = if leb remaining (length buf) then to_size (minus eio) else length buf in
    if count == 0
    then some (pos 0, buffer, off + length buf)
    else store_bytes buffer buf off count fault

-- `sysfs_show_val` and `sysfs_store_val` of a device's `attr.val`; `kstrtol` brings a number, or the
-- error that the store returns.
unfoldable pub sysfs_show_val : ℤ → List ℕ × ℕ
sysfs_show_val val = let buf = print_int val ++ (10 ∷ []) in (buf, length buf)

unfoldable pub sysfs_store_val : ℤ → ℤ ⊎ ℤ → ℕ → ℤ × ℤ
sysfs_store_val val (inl number) count = (number, pos count)
sysfs_store_val val (inr err) count = (val, err)
