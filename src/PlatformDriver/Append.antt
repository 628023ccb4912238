-- ===== src/PlatformDriver/Append.antt =====
-- A write of the platform driver that fits puts its bytes behind the text, and a read brings them.
use mathlib.Core.List.{append_assoc}
use csel_workspace.Prelude.{
  ℕ, suc, ◌+◌, ◌-◌, ◌%◌, ◌^◌, ◌≤◌, ◌<◌, ◌≡◌, refl, sym, ap, ◌∙◌, true, false, Option, none, some,
  List, [], ◌∷◌, ◌++◌, ◌==◌, ltb, leb, min, min_if, take, drop, set, set, length, length-append,
  take-set, drop-set, take_front, take-drop-append, arith,
}
use csel_workspace.Prelude.Int.{ℤ, pos}
use csel_workspace.Prelude.Machine.{to_size-difference}
use csel_workspace.Prelude.Text.{no_nul, strlen_text}
use csel_workspace.PlatformDriver.{buffer_sz, skeleton_read, overlay, store_bytes, skeleton_write}

no_nul-append : (s t : List ℕ) → no_nul s ≡ true → no_nul t ≡ true → no_nul (s ++ t) ≡ true
unfolding no_nul
no_nul-append [] t h k = k
no_nul-append (b ∷ s) t h k = ground (arith, h, no_nul-append s t)

-- What lies behind the text after a write.
abbrev rest_of : List ℕ → ℕ → List ℕ
rest_of buffer end = drop (suc end) buffer

overlay_lem :
    (text rest buf : List ℕ)
    → length text + length buf < length (text ++ rest)
    → overlay (length text) buf (set (text ++ rest) (length text + length buf) 0)
      ≡ (text ++ buf) ++ (0 ∷ rest_of (text ++ rest) (length text + length buf))
overlay_lem text rest buf h =
    let end = length text + length buf in
    rw
      (
        take-set (length text) end 0 (text ++ rest) (omega arith),
        drop-set end 0 (text ++ rest) h,
        take_front text rest,
      )
      (sym (append_assoc text buf (0 ∷ rest_of (text ++ rest) end)))

write_lem :
    (text rest buf : List ℕ)
    → length (text ++ rest) ≡ buffer_sz
    → 0 < length buf
    → length text + length buf < buffer_sz
    → skeleton_write (text ++ rest) buf (length text) none
      ≡ some (
        pos (length buf),
        (text ++ buf) ++ (0 ∷ rest_of (text ++ rest) (length text + length buf)),
        length text + length buf,
      )
unfolding skeleton_write store_bytes
write_lem text rest buf l p h =
    let end = length text + length buf in
    let left = to_size-difference buffer_sz (length text) (omega (arith, h)) in
    let fits : leb (buffer_sz - length text) (length buf) ≡ false = ground (arith, h) in
    let some_bytes : (length buf == 0) ≡ false = ground (arith, p) in
    let in_range : end % 2 ^ 64 ≡ end = omega (arith, h) in
    let inside : leb buffer_sz end ≡ false = ground (arith, h) in
    let all : ltb (length buf) (length buf) ≡ false = ground arith in
    rw
      (
        left,
        fits,
        some_bytes,
        in_range,
        inside,
        all,
        overlay_lem text rest buf (omega (arith, l, h)),
      )
      refl

read_lem :
    (text rest : List ℕ) (count off : ℕ)
    → no_nul text ≡ true
    → length text < buffer_sz
    → off ≤ length text
    → skeleton_read (text ++ (0 ∷ rest)) count off false
      ≡ some (let n = min count (length text - off) in (pos n, take n (drop off text), off + n))
unfolding skeleton_read
read_lem text rest count off z s h =
    let n = min count (length text - off) in
    let inside : ltb buffer_sz (off + n) ≡ false = ground (arith, s, h) in
    rw
      (
        skeleton_read,
        strlen_text text rest z,
        to_size-difference (length text) off h,
        min_if (length text - off) count,
        inside,
        take-drop-append n off text (0 ∷ rest) (omega (arith, h)),
      )
      refl

-- When the buffer of 10000 bytes starts with a text up to the offset, and the bytes that are written
-- and a NUL behind them fit: the write takes all of them and moves the offset behind them. A read
-- from any offset up to the end of the text then brings the text with the bytes appended, as far as
-- it asks for.
pub append-read :
    (text rest buf : List ℕ) (count off : ℕ)
    → length (text ++ rest) ≡ buffer_sz
    → no_nul text ≡ true
    → no_nul buf ≡ true
    → 0 < length buf
    → length text + length buf < buffer_sz
    → off ≤ length text + length buf
    → (buffer : List ℕ) × (skeleton_write (text ++ rest) buf (length text) none
        ≡ some (pos (length buf), buffer, length text + length buf))
      × (skeleton_read buffer count off false
          ≡ some (
              let n = min count (length text + length buf - off) in
              (pos n, take n (drop off (text ++ buf)), off + n)))
append-read text rest buf count off l z y p h o =
    let end = length text + length buf in
    let whole : length (text ++ buf) ≡ end = length-append text buf in
    let read =
      read_lem (text ++ buf) (rest_of (text ++ rest) end) count off (no_nul-append text buf z y)
        (omega (arith, whole, h)) (omega (arith, whole, o)) in
    let brings : ℕ → Option (ℤ × List ℕ × ℕ) =
      λ e. let n = min count (e - off) in some (pos n, take n (drop off (text ++ buf)), off + n) in
    (_, write_lem text rest buf l p h, read ∙ ap brings whole)
