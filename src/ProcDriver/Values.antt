-- ===== src/ProcDriver/Values.antt =====
-- What the file `val` of the procfs module takes and brings.
use csel_workspace.Prelude.{
  ℕ, ◌+◌, ◌-◌, ◌≤◌, ◌≡◌, refl, ap, ◌∙◌, false, some, List, ◌∷◌, ◌++◌, ltb, take, drop, min, min_if,
  length, length-append, arith,
}
use mathlib.Core.List.{append_assoc}
use csel_workspace.Prelude.Int.{ℤ, pos}
use csel_workspace.Prelude.Decimal.{print_int, is_digit}
use csel_workspace.Prelude.Decimal.RoundTrip.{length-print_int}
use csel_workspace.Prelude.Text.{codes}
use csel_workspace.Prelude.Machine.{
  to_long, simple_strtol, IsInt, int-IsLong, to_int_same, to_long_same, simple_strtol-print_int,
  to_size-difference,
}
use csel_workspace.ProcDriver.{read_temp, skeleton_read_val, skeleton_write_val}

read_temp_lem :
    (temp : List ℕ) (count off : ℕ)
    → off ≤ length temp
    → read_temp temp count off false
      ≡ some (let n = min count (length temp - off) in (pos n, take n temp, off + n))
unfolding read_temp
read_temp_lem temp count off h =
    let n = min count (length temp - off) in
    let inside : ltb (length temp) n ≡ false = ground (arith, h) in
    rw (to_size-difference (length temp) off h, min_if (length temp - off) count, inside) refl

-- For every `int` that is printed with a newline behind it and written: it becomes the value,
-- whatever the stack held. A read from any offset in the text of the value then brings as many bytes
-- as are left there, but always those at the start of the text, and moves the offset on.
pub write_val-read_val :
    (v old : ℤ) (stack : List ℕ) (count off : ℕ)
    → IsInt v
    → off ≤ length (print_int v ++ codes "\n")
    → (skeleton_write_val old stack (print_int v ++ codes "\n") false
        ≡ (v, pos (length (print_int v ++ codes "\n"))))
      × (skeleton_read_val v count off false
          ≡ some (
              let text = print_int v ++ codes "\n" in
              let n = min count (length text - off) in (pos n, take n text, off + n)))
unfolding skeleton_write_val skeleton_read_val is_digit
write_val-read_val v old stack count off i h =
    let text = print_int v ++ codes "\n" in
    let short : ltb 20 (length text) ≡ false = ground (
      arith,
      length-append (print_int v) (codes "\n"),
      length-print_int v (omega (arith, i)) (omega (arith, i)),
    ) in
    let behind = drop (length text) stack in
    let number : simple_strtol (text ++ behind) ≡ to_long v =
      ap simple_strtol (append_assoc (print_int v) (codes "\n") behind)
      ∙ simple_strtol-print_int v (10 ∷ behind) refl in
    (
      rw (short, number, to_long_same v (int-IsLong v i), to_int_same v i) refl,
      read_temp_lem text count off h,
    )
