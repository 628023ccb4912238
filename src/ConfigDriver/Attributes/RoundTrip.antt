-- ===== src/ConfigDriver/Attributes/RoundTrip.antt =====
-- What is read from the attributes of the configuration driver can be written back.
use csel_workspace.Prelude.{
  ℕ, zero, suc, ◌+◌, ◌/◌, ◌%◌, ◌<◌, ◌≡◌, refl, sym, ap, ◌∙◌, Bool, true, not, ◌&&◌, some, List, [],
  ◌∷◌, ◌++◌, ◌==◌, length, arith, Bool-cases, inl, inr,
}
use csel_workspace.Prelude.Int.{ℤ, pos, negsuc}
use csel_workspace.Prelude.Machine.{
  IsInt, IsLong, to_int_same, to_long_same, int-IsLong, simple_strtol-print_int,
}
use csel_workspace.Prelude.Decimal.{print_int, print_nat, print_from, is_digit, parse_digits}
use csel_workspace.Prelude.Decimal.RoundTrip.{
  print_from-append, print_from_head, parse_digits-print_nat, ends_number,
}
use csel_workspace.ConfigDriver.Attributes.{
  Config, newline, sysfs_show_val, sysfs_store_val, sysfs_show_cfg, is_blank, skip_blanks,
  after_digits, scan_number, scan_word, into_field, store_descr, store_name, store_ref,
  sysfs_store_cfg,
}

-- A word: no blanks in it, and it fits a field.
abbrev pub no_blank : List ℕ → Bool
no_blank [] = true
no_blank (c ∷ cs) = not (is_blank c) && no_blank cs

pub record IsWord (w : List ℕ) : Type 0 where
  pub solid : no_blank w ≡ true
  pub some_byte : 0 < length w
  pub short : length w < 30

after_digits-print_from :
    (f n : ℕ) (rest : List ℕ) → after_digits (print_from f n rest) ≡ after_digits rest
unfolding print_from after_digits is_digit
after_digits-print_from zero n rest = refl
after_digits-print_from (suc f) n rest = elim (Bool-cases (n / 10 == 0)) [
  | inl last ↦ rw last (ground arith)
  | inr more ↦ rw (more, after_digits-print_from f (n / 10) ((48 + n % 10) ∷ rest)) (ground arith)
]

after_digits_end : (rest : List ℕ) → ends_number rest ≡ true → after_digits rest ≡ rest
unfolding after_digits
after_digits_end [] h = refl
after_digits_end (c ∷ cs) h = ground (arith, h)

-- The parts of a printed number that the scanner looks at.
printed :
    (n : ℕ) (rest : List ℕ)
    → ends_number rest ≡ true
    → (c : ℕ) × (cs : List ℕ) × (print_nat n ++ rest ≡ c ∷ cs)
      × (is_digit c ≡ true)
      × (parse_digits 0 (c ∷ cs) ≡ n)
      × (after_digits (c ∷ cs) ≡ rest)
unfolding print_nat
printed n rest h =
    let (c, cs, e, d) = print_from_head n n rest in
    let p : print_nat n ++ rest ≡ c ∷ cs = print_from-append (suc n) n [] rest ∙ e in
    (
      c,
      cs,
      p,
      d,
      ap (parse_digits 0) (sym p) ∙ parse_digits-print_nat n rest h,
      ap after_digits (sym e) ∙ (after_digits-print_from (suc n) n rest ∙ after_digits_end rest h),
    )

scan_number-print_int :
    (z : ℤ) (rest : List ℕ)
    → ends_number rest ≡ true
    → (scan_number (print_int z ++ rest) ≡ some (z, rest))
      × (skip_blanks (print_int z ++ rest) ≡ print_int z ++ rest)
unfolding scan_number skip_blanks print_int is_digit
scan_number-print_int (pos n) rest h =
    let (c, cs, e, d, p, a) = printed n rest h in
    (rw e (ground (arith, d, p, a)), rw e (ground (arith, d)))
scan_number-print_int (negsuc n) rest h =
    let (c, cs, e, d, p, a) = printed (suc n) rest h in (rw e (ground (arith, d, p, a)), refl)

scan_word_lem :
    (w : List ℕ) (c : ℕ) (rest : List ℕ)
    → no_blank w ≡ true
    → is_blank c ≡ true
    → scan_word (w ++ (c ∷ rest)) ≡ (w, c ∷ rest)
unfolding scan_word
scan_word_lem [] c rest s b = rw (scan_word, b) refl
scan_word_lem (a ∷ w) c rest s b = ground (arith, s, scan_word_lem w c rest)

-- A field that is read from the words of a text.
word_field :
    (w : List ℕ) (c : ℕ) (rest : List ℕ)
    → IsWord w
    → is_blank c ≡ true
    → (a : ℕ) × (v : List ℕ) × (w ++ (c ∷ rest) ≡ a ∷ v)
      × (skip_blanks (a ∷ v) ≡ a ∷ v)
      × (into_field (scan_word (a ∷ v)).0 ≡ some w)
      × ((scan_word (a ∷ v)).1 ≡ c ∷ rest)
unfolding skip_blanks into_field
word_field [] c rest h b = absurd (omega (arith, h.some_byte))
word_field (a ∷ w) c rest h b =
    let e = scan_word_lem (a ∷ w) c rest h.solid b in
    (a, w ++ (c ∷ rest), refl, ground (arith, h.solid), rw e (ground (arith, h.short)), rw e refl)

store_descr_lem :
    (config : Config) (w : List ℕ)
    → IsWord w
    → store_descr config (skip_blanks (w ++ newline)) ≡ some (record config { descr = w })
unfolding store_descr
store_descr_lem config w h =
    let (a, v, e, s, f, r) = word_field w 10 [] h refl in rw (e, s, store_descr, f) refl

skip_one : (text : List ℕ) → skip_blanks (32 ∷ text) ≡ skip_blanks text
unfolding skip_blanks
skip_one text = refl

store_name_lem :
    (config : Config) (w v : List ℕ)
    → IsWord w
    → IsWord v
    → store_name config (skip_blanks (w ++ (32 ∷ (v ++ newline))))
      ≡ some (record config { name = w; descr = v })
unfolding store_name
store_name_lem config w v h k =
    let (a, t, e, s, f, r) = word_field w 32 (v ++ newline) h refl in
    rw (e, s, store_name, f, r, skip_one (v ++ newline))
      (store_descr_lem (record config { name = w }) v k)

store_ref_lem :
    (config : Config) (z : ℤ) (w v : List ℕ)
    → IsLong z
    → IsWord w
    → IsWord v
    → store_ref config (skip_blanks (print_int z ++ (32 ∷ (w ++ (32 ∷ (v ++ newline))))))
      ≡ some (record config { ref = z; name = w; descr = v })
unfolding store_ref is_digit
store_ref_lem config z w v l h k =
    let (e, s) = scan_number-print_int z (32 ∷ (w ++ (32 ∷ (v ++ newline)))) refl in
    rw (s, store_ref, e, to_long_same z l, skip_one (w ++ (32 ∷ (v ++ newline))))
      (store_name_lem (record config { ref = z }) w v h k)

-- A configuration that can be written back.
pub record IsWritable (config : Config) : Type 0 where
  pub id_fits : IsInt config.id
  pub ref_fits : IsLong config.ref
  pub name_word : IsWord config.name
  pub descr_word : IsWord config.descr

-- For every value of `sysfs_data`, and every configuration whose numbers have their types and whose
-- texts are words of 1 to 29 bytes: storing what `show` printed brings back the value, whatever was
-- there before; `show` returns the length of its text and `store` the number of bytes it was given.
pub attributes_roundtrip :
    (z : ℤ) (config old : Config) (count : ℕ)
    → IsInt z
    → IsWritable config
    → (sysfs_store_val (sysfs_show_val z).0 count ≡ (z, count))
      × ((sysfs_show_val z).1 ≡ length (sysfs_show_val z).0)
      × (sysfs_store_cfg old (sysfs_show_cfg config).0 count ≡ some (config, count))
      × ((sysfs_show_cfg config).1 ≡ length (sysfs_show_cfg config).0)
unfolding sysfs_store_val sysfs_show_val sysfs_store_cfg sysfs_show_cfg is_digit
attributes_roundtrip z config old count i w =
    let rest = print_int config.ref ++ (32 ∷ (config.name ++ (32 ∷ (config.descr ++ newline)))) in
    let (e, s) = scan_number-print_int config.id (32 ∷ rest) refl in
    let kept =
      store_ref_lem (record old { id = config.id }) config.ref config.name config.descr w.ref_fits
        w.name_word w.descr_word in
    (
      rw (simple_strtol-print_int z newline refl, to_long_same z (int-IsLong z i), to_int_same z i)
          refl,
      refl,
      rw (s, sysfs_store_cfg, e, to_int_same config.id w.id_fits, skip_one rest, kept) refl,
      refl,
    )
