-- ===== src/FanDaemon/Oled/Laws.antt =====
-- Bounds of the font, and what a position and a text amount to.
use csel_workspace.Prelude.{
  ℕ, zero, suc, ◌+◌, ◌-◌, ◌*◌, ◌<◌, ◌≡◌, refl, Bool, true, ◌&&◌, List, [], ◌∷◌, map, ltb, ◌==◌,
  get_or, length, length-append, length-map, if◌then◌else◌, arith, ◌∙◌,
}
use csel_workspace.FanDaemon.Calls.{Message}
use csel_workspace.FanDaemon.Font.{font}
use csel_workspace.FanDaemon.Oled.{
  send_data, ssd1306_set_position, font_index, ssd1306_putc, ssd1306_puts, oled_data_mode,
}

-- Every byte of a row fits, and every row has eight columns.
row_fits : List ℕ → Bool
row_fits [] = true
row_fits (b ∷ bs) = ltb b 256 && row_fits bs

rows_fit : List (List ℕ) → Bool
rows_fit [] = true
rows_fit (r ∷ rs) = (length r == 8 && row_fits r) && rows_fit rs

font_fits : rows_fit font ≡ true
unfolding rows_fit row_fits
font_fits = refl

rows_fit-get_or :
    (rs : List (List ℕ)) (i : ℕ)
    → rows_fit rs ≡ true
    → i < length rs
    → (length (get_or rs i []) ≡ 8) × (row_fits (get_or rs i []) ≡ true)
unfolding rows_fit
rows_fit-get_or [] i h k = absurd (omega arith)
rows_fit-get_or (r ∷ rs) zero h k = ground arith
rows_fit-get_or (r ∷ rs) (suc i) h k = rows_fit-get_or rs i (ground arith) (omega arith)

font_index-lt : (c : ℕ) → font_index c < 96
unfolding font_index
font_index-lt c = ground arith

-- All of some messages carry data.
pub all_data : List Message → Bool
all_data [] = true
all_data ((mode, byte) ∷ ms) = (mode == oled_data_mode && ltb byte 256) && all_data ms

all_data-map : (bs : List ℕ) → row_fits bs ≡ true → all_data (map send_data bs) ≡ true
unfolding all_data row_fits
all_data-map [] h = refl
all_data-map (b ∷ bs) h = ground (arith, all_data-map bs)

-- Any character, printable or not, stays inside the font and is sent as eight bytes of data.
pub ssd1306_putc_lem :
    (c : ℕ)
    → (font_index c < length font)
      × (length (ssd1306_putc c) ≡ 8)
      × (all_data (ssd1306_putc c) ≡ true)
unfolding ssd1306_putc
ssd1306_putc_lem c =
    let fits = rows_fit-get_or font (font_index c) font_fits (font_index-lt c) in
    (
      font_index-lt c,
      length-map (get_or font (font_index c) []) send_data ∙ fits.0,
      all_data-map (get_or font (font_index c) []) fits.1,
    )

-- The characters of a text before its NUL.
unfoldable pub text_length : List ℕ → ℕ
text_length [] = 0
text_length (c ∷ cs) = let n = text_length cs in if c == 0 then 0 else suc n

-- A text takes eight columns for each character before its NUL.
pub length-ssd1306_puts : (str : List ℕ) → length (ssd1306_puts str) ≡ 8 * text_length str
unfolding ssd1306_puts text_length
length-ssd1306_puts [] = refl
length-ssd1306_puts (c ∷ cs) = ground (
  arith,
  length-ssd1306_puts cs,
  (ssd1306_putc_lem c).1,
  length-append (ssd1306_putc c) (ssd1306_puts cs),
)

-- What the screen is told by the three bytes of a position: the page and the column.
pub page_of : List Message → ℕ
page_of ((m, a) ∷ _) = a - 0xb0
page_of _ = 0

pub column_of : List Message → ℕ
column_of (_ ∷ (m, lo) ∷ (n, hi) ∷ _) = (hi - 0x10) * 16 + lo
column_of _ = 0

-- A position on the grid of 16 characters by 8 rows arrives whole: its page is the row, and its
-- column is eight times the character's. Different positions are different commands.
pub ssd1306_set_position_lem :
    (column row : ℕ)
    → column < 16
    → row < 8
    → (page_of (ssd1306_set_position column row) ≡ row)
      × (column_of (ssd1306_set_position column row) ≡ 8 * column)
unfolding ssd1306_set_position page_of column_of
ssd1306_set_position_lem column row h k = omega arith
