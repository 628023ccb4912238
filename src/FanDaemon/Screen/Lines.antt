-- ===== src/FanDaemon/Screen/Lines.antt =====
-- What a refresh leaves of the line that was there before.
use mathlib.Core.List.{append_assoc}
use csel_workspace.Prelude.{
  ℕ, ◌+◌, ◌/◌, ◌%◌, ◌<◌, ◌≤◌, ◌≡◌, refl, sym, ap, ◌∙◌, Bool, true, false, Option, List, [], ◌∷◌,
  arith, length, length-append, drop, ◌++◌, ◌==◌,
}
use csel_workspace.Prelude.Int.{pos}
use csel_workspace.Prelude.Decimal.RoundTrip.{print_int_pos, print_nat-one, print_nat-two}
use csel_workspace.Prelude.Text.{codes, no_nul}
use csel_workspace.FanDaemon.Calls.{Message}
use csel_workspace.FanDriver.{FanCtrl}
use csel_workspace.FanDriver.Sysfs.{frequency_show}
use csel_workspace.FanDaemon.Fan.{Fan, fan_get_cpu_temp}
use csel_workspace.FanDaemon.FanLaws.{shown_bytes, read-show_small}
use csel_workspace.FanDaemon.Oled.{ssd1306_putc, ssd1306_puts, ssd1306_set_position}
use csel_workspace.FanDaemon.Oled.Laws.{text_length, length-ssd1306_puts}
use csel_workspace.FanDaemon.Screen.{mode_text, temp_text, freq_text, screen_refresh, line}

-- The line of the mode has the same width in both modes, so that one overwrites the other.
pub mode_text_width : (m : Bool) → text_length (mode_text m) ≡ 13
unfolding text_length mode_text
mode_text_width true = refl
mode_text_width false = refl

freq_text-one : (f : ℕ) → f < 10 → freq_text (pos f) ≡ (48 + f) ∷ codes "Hz"
unfolding freq_text
freq_text-one f h = rw (print_int_pos f, print_nat-one f h) refl

freq_text-two :
    (f : ℕ) → 10 ≤ f → f < 100 → freq_text (pos f) ≡ (48 + f / 10) ∷ (48 + f % 10) ∷ codes "Hz"
unfolding freq_text
freq_text-two f l h = rw (print_int_pos f, print_nat-two f l h) refl

-- The columns of the line of the frequency, one for each message, from its first column on.
abbrev pub columns : ℕ → List Message
columns f = ssd1306_puts (codes "Freq: ") ++ ssd1306_puts (freq_text (pos f))

-- What a line shows when some columns are sent to it from its first column on.
abbrev pub over : List Message → List Message → List Message
over new old = new ++ drop (length new) old

-- The messages of a refresh for the lines above the frequency.
abbrev pub above : Fan → Option (List ℕ) → List Message
above fan temp = line 3 (mode_text fan.manual_mode) ++ line 5 (temp_text (fan_get_cpu_temp temp))

screen_refresh-columns :
    (fan : Fan) (temp : Option (List ℕ)) (fc : FanCtrl)
    → fc.frequency < 100
    → screen_refresh fan (shown_bytes (frequency_show fc)) temp
      ≡ above fan temp ++ (ssd1306_set_position 0 6 ++ columns fc.frequency)
unfolding screen_refresh
screen_refresh-columns fan temp fc h =
    rw (read-show_small fc (omega (arith, h)))
      (sym (append_assoc (line 3 (mode_text fan.manual_mode)) _ _))

drop_front : (xs ys : List Message) → drop (length xs) (xs ++ ys) ≡ ys
drop_front [] ys = refl
drop_front (x ∷ xs) ys = drop_front xs ys

puts-append :
    (xs ys : List ℕ)
    → no_nul xs ≡ true
    → ssd1306_puts (xs ++ ys) ≡ ssd1306_puts xs ++ ssd1306_puts ys
unfolding ssd1306_puts no_nul
puts-append [] ys h = refl
puts-append (c ∷ cs) ys h =
    let nonzero : (c == 0) ≡ false = ground (arith, h) in
    rw (nonzero, puts-append cs ys (ground (arith, h)))
      (sym (append_assoc (ssd1306_putc c) (ssd1306_puts cs) (ssd1306_puts ys)))

-- The line of a frequency with two digits, less its last character.
abbrev stem : ℕ → List Message
stem f = ssd1306_puts (codes "Freq: ") ++ ssd1306_puts ((48 + f / 10) ∷ (48 + f % 10) ∷ codes "H")

puts_z : ssd1306_puts (codes "z") ≡ ssd1306_putc b'z'
unfolding ssd1306_puts
puts_z = refl

columns-two : (f : ℕ) → 10 ≤ f → f < 100 → columns f ≡ stem f ++ ssd1306_putc b'z'
unfolding no_nul
columns-two f l h =
    rw
      (
        freq_text-two f l h,
        puts-append ((48 + f / 10) ∷ (48 + f % 10) ∷ codes "H") (codes "z") (ground arith),
        ← puts_z,
      )
      (sym (append_assoc (ssd1306_puts (codes "Freq: ")) _ _))

length-columns : (f : ℕ) → f < 10 → length (columns f) ≡ 72
unfolding text_length
length-columns f h = rw (freq_text-one f h) (
    grind (
      arith,
      length-append (ssd1306_puts (codes "Freq: ")) (ssd1306_puts ((48 + f) ∷ codes "Hz")),
      length-ssd1306_puts (codes "Freq: "),
      length-ssd1306_puts ((48 + f) ∷ codes "Hz"),
    ))

length-stem : (f : ℕ) → length (stem f) ≡ 72
unfolding text_length
length-stem f = grind (
  arith,
  length-append (ssd1306_puts (codes "Freq: "))
      (ssd1306_puts ((48 + f / 10) ∷ (48 + f % 10) ∷ codes "H")),
  length-ssd1306_puts (codes "Freq: "),
  length-ssd1306_puts ((48 + f / 10) ∷ (48 + f % 10) ∷ codes "H"),
)

-- When the driver's frequency falls from two digits to one, the refresh sends a line that is one
-- character shorter, and nothing in its place: behind it the last character of the old line, which
-- is a z, stays on the screen.
pub screen_refresh_shrinks :
    (fan : Fan) (temp : Option (List ℕ)) (old new : FanCtrl)
    → 10 ≤ old.frequency
    → old.frequency < 100
    → new.frequency < 10
    → (screen_refresh fan (shown_bytes (frequency_show old)) temp
        ≡ above fan temp ++ (ssd1306_set_position 0 6 ++ columns old.frequency))
      × (screen_refresh fan (shown_bytes (frequency_show new)) temp
          ≡ above fan temp ++ (ssd1306_set_position 0 6 ++ columns new.frequency))
      × (over (columns new.frequency) (columns old.frequency)
          ≡ columns new.frequency ++ ssd1306_putc b'z')
screen_refresh_shrinks fan temp old new l h k = (
  screen_refresh-columns fan temp old h,
  screen_refresh-columns fan temp new (omega (arith, k)),
  ap (λ t. columns new.frequency ++ t)
      (ap (λ t. drop (length (columns new.frequency)) t) (columns-two old.frequency l h)
        ∙ ap (λ n. drop n (stem old.frequency ++ ssd1306_putc b'z'))
            (length-columns new.frequency k ∙ sym (length-stem old.frequency))
        ∙ drop_front (stem old.frequency) (ssd1306_putc b'z')),
)
