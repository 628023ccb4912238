-- ===== src/FanDaemon/Screen.antt =====
-- src/07_miniproj/daemon/screen.c: the lines of the screen. `freq` and `temp` are the reads of the
-- driver's files, as in `Fan`.
pub mod Lines
use csel_workspace.Prelude.{
  ℕ, suc, ◌/◌, Bool, true, false, List, [], ◌∷◌, ◌++◌, Option, if◌then◌else◌,
}
use csel_workspace.Prelude.Int.{ℤ, pos, negsuc, minus, ltb_ℤ}
use csel_workspace.Prelude.Decimal.{print_int}
use csel_workspace.Prelude.Text.{codes, snprintf}
use csel_workspace.FanDaemon.Calls.{Message}
use csel_workspace.FanDaemon.Fan.{Fan, fan_read_frequency, fan_get_cpu_temp}
use csel_workspace.FanDaemon.Oled.{
  ssd1306_init, ssd1306_clear_display, ssd1306_set_position, ssd1306_puts,
}

-- Division of an `int` by 1000, which C rounds towards zero.
abbrev pub thousandth : ℤ → ℤ
thousandth (pos n) = pos (n / 1000)
thousandth (negsuc n) = minus (suc n / 1000)

unfoldable pub line : ℕ → List ℕ → List Message
line row text = ssd1306_set_position 0 row ++ ssd1306_puts text

-- `screen_init`; the result of `ssd1306_init` is not looked at.
unfoldable pub screen_init : ℤ → ℤ → List Message
unfolding line
screen_init fd slave =
    (ssd1306_init fd slave).0
    ++ (ssd1306_clear_display
        ++ (line 0 (codes "CSEL1a - SP.07")
            ++ (line 1 (codes "  Demo - SW")
                ++ (line 2 (codes "--------------")
                    ++ (line 3 (codes "Mode: Unknown")
                        ++ (line 4 (codes "--------------")
                            ++ (line 5 (codes "Temp: xx'C") ++ line 6 (codes "Freq: xxHz"))))))))

unfoldable pub mode_text : Bool → List ℕ
mode_text manual = if manual then codes "Mode: Manual " else codes "Mode: Auto   "

unfoldable pub temp_text : ℤ → List ℕ
temp_text temp_mc =
    if ltb_ℤ temp_mc (pos 0)
    then codes "Temp: --'C  "
    else snprintf 20 (codes "Temp: " ++ (print_int (thousandth temp_mc) ++ codes "'C  "))

unfoldable pub freq_text : ℤ → List ℕ
freq_text freq = snprintf 20 (print_int freq ++ codes "Hz")

-- `screen_refresh`.
unfoldable pub screen_refresh : Fan → Option (List ℕ) → Option (List ℕ) → List Message
screen_refresh fan freq_bytes temp_bytes =
    let freq = fan_read_frequency freq_bytes in
    let temp_mc = fan_get_cpu_temp temp_bytes in
    line 3 (mode_text fan.manual_mode)
    ++ (line 5 (temp_text temp_mc)
        ++ (ssd1306_set_position 0 6
            ++ (ssd1306_puts (codes "Freq: ") ++ ssd1306_puts (freq_text freq))))
