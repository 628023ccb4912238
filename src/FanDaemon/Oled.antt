-- ===== src/FanDaemon/Oled.antt =====
-- src/07_miniproj/daemon/ssd1306.c: characters and positions as two-byte messages to the screen.
pub mod Laws
use csel_workspace.Prelude.{
  ℕ, zero, suc, ◌+◌, ◌-◌, ◌*◌, ◌/◌, ◌%◌, ◌^◌, Bool, ◌||◌, List, [], ◌∷◌, ◌++◌, map, ltb, ◌==◌,
  get_or, if◌then◌else◌,
}
use csel_workspace.Prelude.Int.{ℤ, pos, minus, ltb_ℤ}
use csel_workspace.FanDaemon.Calls.{Message}
use csel_workspace.FanDaemon.Font.{font, init_commands}

abbrev pub oled_command_mode : ℕ
oled_command_mode = 0x00

abbrev pub oled_data_mode : ℕ
oled_data_mode = 0x40

abbrev pub oled_display_off_cmd : ℕ
oled_display_off_cmd = 0xae

abbrev pub oled_display_on_cmd : ℕ
oled_display_on_cmd = 0xaf

-- The argument is an expression of the source; it is cut to uint8_t.
abbrev pub send_command : ℕ → Message
send_command cmd = (oled_command_mode, cmd % 256)

abbrev pub send_data : ℕ → Message
send_data byte = (oled_data_mode, byte % 256)

-- `8 * column` is a product in uint32_t.
unfoldable pub ssd1306_set_position : ℕ → ℕ → List Message
ssd1306_set_position column row =
    let x = (8 * column) % 2 ^ 32 in
    send_command (0xb0 + row)
    ∷ send_command (0x00 + x % 16)
    ∷ send_command (0x10 + x / 2 ^ 4 % 16)
    ∷ []

-- The row of the font that a character is drawn with; what cannot be printed is a blank.
unfoldable pub font_index : ℕ → ℕ
font_index c = (if ltb c 32 || ltb 127 c then 32 else c) - 32

unfoldable pub ssd1306_putc : ℕ → List Message
unfolding font_index
ssd1306_putc c = map send_data (get_or font (font_index c) [])

-- The text up to its NUL.
unfoldable pub ssd1306_puts : List ℕ → List Message
unfolding ssd1306_putc
ssd1306_puts [] = []
ssd1306_puts (c ∷ str) =
    let rest = ssd1306_puts str in if c == 0 then [] else ssd1306_putc c ++ rest

blanks : ℕ → List Message
unfolding ssd1306_putc
blanks zero = []
blanks (suc i) = ssd1306_putc 32 ++ blanks i

-- The rows from `j` on, `rounds` of them.
clear_rows : ℕ → ℕ → List Message
unfolding ssd1306_set_position blanks
clear_rows zero j = []
clear_rows (suc rounds) j = ssd1306_set_position 0 j ++ (blanks 16 ++ clear_rows rounds (j + 1))

unfoldable pub ssd1306_clear_display : List Message
unfolding clear_rows
ssd1306_clear_display =
    send_command oled_display_off_cmd
    ∷ (clear_rows 8 0 ++ (send_command oled_display_on_cmd ∷ ssd1306_set_position 0 0))

-- `ssd1306_init`, given what `open` and `ioctl` return.
unfoldable pub ssd1306_init : ℤ → ℤ → List Message × ℤ
unfolding ssd1306_clear_display
ssd1306_init fd slave =
    if ltb_ℤ fd (pos 0)
    then ([], minus 1)
    else if ltb_ℤ slave (pos 0)
    then ([], minus 1)
    else (map send_command init_commands ++ ssd1306_clear_display, pos 0)
