-- ===== src/FanDaemon/Fan.antt =====
-- src/07_miniproj/daemon/fan.c. A read is given as the bytes that the system returned, or `none` for
-- a negative return; the rest of an uninitialised buffer is an argument, `junk`.
use csel_workspace.Prelude.{
  ℕ, Bool, not, Option, none, some, List, [], ◌∷◌, ◌++◌, ◌==◌, take, if◌then◌else◌,
}
use csel_workspace.Prelude.Int.{ℤ, pos, negsuc, ◌+ℤ◌, ◌-ℤ◌, ltb_ℤ}
use csel_workspace.Prelude.Machine.{to_int}
use csel_workspace.Prelude.Decimal.{print_int, atoi}
use csel_workspace.FanDaemon.Calls.{Call, write}

-- The static variables of fan.c.
pub record Fan : Type 0 where
  pub manual_mode : Bool
  pub manual_fd : ℤ
  pub freq_fd : ℤ
  pub temp_fd : ℤ

abbrev pub fan_frequency_max : ℤ
fan_frequency_max = pos 100

abbrev pub fan_frequency_min : ℤ
fan_frequency_min = pos 1

abbrev pub fan_frequency_step : ℤ
fan_frequency_step = pos 1

-- The first byte of a buffer after a read into it.
abbrev pub first_byte : Option (List ℕ) → ℕ → ℕ
first_byte (some (b ∷ _)) junk = b
first_byte _ junk = junk

-- `fan_init`, given the three descriptors and the read of one byte.
unfoldable pub fan_init : ℤ → ℤ → ℤ → Option (List ℕ) → ℕ → Fan
fan_init manual freq temp byte junk = record {
  manual_mode = first_byte byte junk == b'1';
  manual_fd = manual;
  freq_fd = freq;
  temp_fd = temp;
}

-- `read` of 19 bytes into a zeroed buffer of 20, and `atoi` of it: the number that the text has, as
-- an `int`.
unfoldable pub read_number : Option (List ℕ) → ℤ
read_number none = negsuc 0
read_number (some bytes) = to_int (atoi (take 19 bytes ++ (0 ∷ [])))

-- `fan_get_frequency` and `fan_read_frequency` have the same text.
unfoldable pub fan_read_frequency : Option (List ℕ) → ℤ
unfolding read_number
fan_read_frequency bytes = read_number bytes

unfoldable pub fan_get_frequency : Option (List ℕ) → ℤ
unfolding read_number
fan_get_frequency bytes = read_number bytes

unfoldable pub fan_get_cpu_temp : Option (List ℕ) → ℤ
unfolding read_number
fan_get_cpu_temp bytes = read_number bytes

unfoldable pub fan_toggle_mode : Fan → Fan × List Call
fan_toggle_mode f =
    let m = not f.manual_mode in
    (record f { manual_mode = m }, write f.manual_fd ((if m then b'1' else b'0') ∷ []) ∷ [])

-- `snprintf` into `buf[20]`; all 20 bytes are written to the file, with what stood behind the text.
unfoldable pub set_frequency_bytes : ℤ → List ℕ → List ℕ
set_frequency_bytes freq junk = take 20 (take 19 (print_int freq) ++ (0 ∷ junk))

unfoldable pub fan_set_frequency : Fan → ℤ → List ℕ → List Call
fan_set_frequency f freq junk = write f.freq_fd (set_frequency_bytes freq junk) ∷ []

-- The value that `fan_increase_frequency` hands on.
unfoldable pub increased : ℤ → ℤ
unfolding ◌+ℤ◌
increased freq =
    let next = freq +ℤ fan_frequency_step in
    if ltb_ℤ fan_frequency_max next then fan_frequency_max else next

unfoldable pub decreased : ℤ → ℤ
unfolding ◌-ℤ◌
decreased freq =
    let next = freq -ℤ fan_frequency_step in
    if ltb_ℤ next fan_frequency_min then fan_frequency_min else next

unfoldable pub fan_increase_frequency : Fan → Option (List ℕ) → List ℕ → List Call
unfolding fan_read_frequency increased fan_set_frequency
fan_increase_frequency f bytes junk =
    fan_set_frequency f (increased (fan_read_frequency bytes)) junk

unfoldable pub fan_decrease_frequency : Fan → Option (List ℕ) → List ℕ → List Call
unfolding fan_read_frequency decreased fan_set_frequency
fan_decrease_frequency f bytes junk =
    fan_set_frequency f (decreased (fan_read_frequency bytes)) junk
