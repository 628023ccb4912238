-- ===== src/PlatformDriver/Overflow.antt =====
-- What the platform driver does with a write that does not fit, and with a read behind the text: its
-- comparisons mix signed and unsigned numbers.
use csel_workspace.Prelude.{
  ℕ, ◌+◌, ◌-◌, ◌%◌, ◌^◌, ◌≤◌, ◌<◌, ◌≡◌, refl, true, false, Option, none, some, List, ltb, leb, take,
  drop, set, length, if◌then◌else◌, arith, Bool-cases, inl, inr,
}
use csel_workspace.Prelude.Int.{pos, minus, ◌-ℤ◌}
use csel_workspace.Prelude.Errno.{efault, eio}
use csel_workspace.Prelude.Machine.{to_size, to_size-difference}
use csel_workspace.Prelude.Text.{strlen}
use csel_workspace.PlatformDriver.{buffer_sz, to_size, skeleton_read, store_bytes, skeleton_write}

-- A negative difference is a large `size_t`.
negative : (a b : ℕ) → a < b → b < 2 ^ 63 → to_size (pos a -ℤ pos b) ≡ 2 ^ 64 - (b - a)
unfolding to_size ◌-ℤ◌
negative a b h l = ground (arith, h, l)

error_size : to_size (minus eio) ≡ 2 ^ 64 - 5
unfolding to_size
error_size = refl

-- A write that does not fit, at any offset in the buffer, does not return -EIO: the error number is
-- taken for a size. From offset 5 on the byte 5 in front of the offset becomes NUL, which cuts the
-- text, and the result is -EFAULT; before that the NUL is written in front of the buffer.
pub long_write :
    (buffer buf : List ℕ) (off : ℕ) (fault : Option (List ℕ))
    → off ≤ buffer_sz
    → buffer_sz ≤ off + length buf
    → length buf < 2 ^ 63
    → skeleton_write buffer buf off fault
      ≡ (if ltb off 5 then none else some (minus efault, set buffer (off - 5) 0, off + length buf))
unfolding skeleton_write store_bytes
long_write buffer buf off fault h l s =
    let left = to_size-difference buffer_sz off h in
    let long : leb (buffer_sz - off) (length buf) ≡ true = ground (arith, h, l) in
    let more : ltb (length buf) (2 ^ 64 - 5) ≡ true = ground (arith, s) in
    elim (Bool-cases (ltb off 5)) [
      | inl front ↦
          let at : (off + (2 ^ 64 - 5)) % 2 ^ 64 ≡ off + (2 ^ 64 - 5) = ground (arith, front) in
          let outside : leb buffer_sz (off + (2 ^ 64 - 5)) ≡ true = ground arith in
          rw (left, long, error_size, at, outside, front) refl
      | inr behind ↦
          let at : (off + (2 ^ 64 - 5)) % 2 ^ 64 ≡ off - 5 = ground (arith, h, behind) in
          let inside : leb buffer_sz (off - 5) ≡ false = ground (arith, h, behind) in
          rw (left, long, error_size, at, inside, more, behind) refl
    ]

-- A read from behind the end of the text, which another writer has made shorter, does not find the
-- end of the file: it brings all bytes that it asks for, from behind the text, and from behind the
-- buffer when it asks for as many.
pub read_past_end :
    (buffer : List ℕ) (len count off : ℕ)
    → strlen buffer ≡ some len
    → len < off
    → off < 2 ^ 62
    → count < 2 ^ 62
    → skeleton_read buffer count off false ≡ (
        if ltb buffer_sz (off + count)
        then none
        else some (pos count, take count (drop off buffer), off + count))
unfolding skeleton_read
read_past_end buffer len count off e h l s =
    let large = negative len off h (omega (arith, l)) in
    let unlimited : ltb (2 ^ 64 - (off - len)) count ≡ false = ground (arith, h, l, s) in
    rw (skeleton_read, e, large, unlimited) refl
