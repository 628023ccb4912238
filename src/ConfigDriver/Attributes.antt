-- ===== src/ConfigDriver/Attributes.antt =====
-- The two attributes of src/03_drivers/exercise05/skeleton.c in sysfs: `sysfs_data` and `cfg`.
pub mod RoundTrip
mod Tests
use csel_workspace.Prelude.{
  ℕ, zero, suc, ◌+◌, ◌-◌, ◌*◌, ◌%◌, ◌^◌, Bool, true, false, ◌&&◌, ◌||◌, Option, none, some, List,
  [], ◌∷◌, ◌++◌, ltb, leb, ◌==◌, if◌then◌else◌, length,
}
use csel_workspace.Prelude.Int.{ℤ, pos, negsuc, minus}
use csel_workspace.Prelude.Machine.{to_int, to_long, simple_strtol}
use csel_workspace.Prelude.Decimal.{print_int, is_digit, parse_digits}

-- `struct skeleton_config`; the texts are without their NUL.
pub record Config : Type 0 where
  pub id : ℤ
  pub ref : ℤ
  pub name : List ℕ
  pub descr : List ℕ

abbrev pub newline : List ℕ
newline = 10 ∷ []

-- `sysfs_show_val`, which returns the length of its text, and `sysfs_store_val`, which returns
-- `count`.
unfoldable pub sysfs_show_val : ℤ → List ℕ × ℕ
sysfs_show_val sysfs_data = let buf = print_int sysfs_data ++ newline in (buf, length buf)

unfoldable pub sysfs_store_val : List ℕ → ℕ → ℤ × ℕ
sysfs_store_val buf count = (to_int (simple_strtol buf), count)

-- `sysfs_show_cfg`: the four fields with a blank between two.
unfoldable pub sysfs_show_cfg : Config → List ℕ × ℕ
sysfs_show_cfg config =
    let buf =
      print_int config.id
      ++ (32
          ∷ (print_int config.ref ++ (32 ∷ (config.name ++ (32 ∷ (config.descr ++ newline)))))) in
    (buf, length buf)

-- `isspace` of the kernel.
abbrev pub is_blank : ℕ → Bool
is_blank c = (c == 32) || ((leb 9 c && leb c 13) || (c == 160))

unfoldable pub skip_blanks : List ℕ → List ℕ
skip_blanks [] = []
skip_blanks (c ∷ cs) = let rest = skip_blanks cs in if is_blank c then rest else c ∷ cs

unfoldable pub after_digits : List ℕ → List ℕ
after_digits [] = []
after_digits (c ∷ cs) = let rest = after_digits cs in if is_digit c then rest else c ∷ cs

abbrev pub starts_digit : List ℕ → Bool
starts_digit [] = false
starts_digit (c ∷ cs) = is_digit c

-- `%d` and `%ld` of `sscanf`: the number and the text behind it, or no number.
unfoldable pub scan_number : List ℕ → Option (ℤ × List ℕ)
scan_number [] = none
scan_number (c ∷ cs) =
    if c == b'-'
    then (if starts_digit cs then some (minus (parse_digits 0 cs), after_digits cs) else none)
    else if is_digit c
    then some (pos (parse_digits 0 (c ∷ cs)), after_digits (c ∷ cs))
    else none

-- `%s` of `sscanf`: the bytes up to the next blank, and the text from there on.
unfoldable pub scan_word : List ℕ → List ℕ × List ℕ
scan_word [] = ([], [])
scan_word (c ∷ cs) =
    let rest = scan_word cs in if is_blank c then ([], c ∷ cs) else (c ∷ rest.0, rest.1)

-- A word into a field of 30 bytes; `none` is a write behind the field.
unfoldable pub into_field : List ℕ → Option (List ℕ)
into_field word = if ltb (length word) 30 then some word else none

-- `sscanf` from `config.descr` on, from `config.name` on, and from `config.ref` on. A text that is
-- at its end leaves the fields behind as they are.
unfoldable pub store_descr : Config → List ℕ → Option Config
store_descr config [] = some config
store_descr config (c ∷ cs) = elim (into_field (scan_word (c ∷ cs)).0) [
  | none ↦ none
  | some word ↦ some (record config { descr = word })
]

unfoldable pub store_name : Config → List ℕ → Option Config
store_name config [] = some config
store_name config (c ∷ cs) = elim (into_field (scan_word (c ∷ cs)).0) [
  | none ↦ none
  | some word ↦ store_descr (record config { name = word }) (skip_blanks (scan_word (c ∷ cs)).1)
]

unfoldable pub store_ref : Config → List ℕ → Option Config
store_ref config text = elim (scan_number text) [
  | none ↦ some config
  | some (n, rest) ↦ store_name (record config { ref = to_long n }) (skip_blanks rest)
]

-- `sysfs_store_cfg` of the text before the NUL of `buf`.
unfoldable pub sysfs_store_cfg : Config → List ℕ → ℕ → Option (Config × ℕ)
sysfs_store_cfg config buf count = elim (scan_number (skip_blanks buf)) [
  | none ↦ some (config, count)
  | some (n, rest) ↦ elim (store_ref (record config { id = to_int n }) (skip_blanks rest)) [
    | none ↦ none
    | some config' ↦ some (config', count)
  ]
]
