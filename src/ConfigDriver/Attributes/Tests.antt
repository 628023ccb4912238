-- ===== src/ConfigDriver/Attributes/Tests.antt =====
-- Runs of the attributes of the configuration driver, and examples of their theorems.
use csel_workspace.Prelude.{◌≡◌, refl, none, some, [], length, arith}
use csel_workspace.Prelude.Int.{pos, negsuc}
use csel_workspace.Prelude.Machine.{to_int, to_long}
use csel_workspace.Prelude.Decimal.{is_digit, parse_digits}
use csel_workspace.Prelude.Text.{codes}
use csel_workspace.ConfigDriver.Attributes.{
  Config, to_int, to_long, sysfs_show_val, sysfs_store_val, sysfs_show_cfg, skip_blanks,
  after_digits, scan_number, scan_word, into_field, store_descr, store_name, store_ref,
  sysfs_store_cfg,
}
use csel_workspace.ConfigDriver.Attributes.RoundTrip.{attributes_roundtrip}

abbrev empty : Config
empty = record { id = pos 0; ref = pos 0; name = []; descr = [] }

abbrev given : Config
given = record { id = negsuc 6; ref = pos 5000000000; name = codes "csel"; descr = codes "lab5" }

test_store : sysfs_store_cfg empty (codes " -7  5000000000 csel lab5\n") 26 ≡ some (given, 26)
unfolding sysfs_store_cfg store_ref store_name store_descr into_field scan_word scan_number
    skip_blanks after_digits to_int to_long is_digit parse_digits
test_store = refl

-- A word of 30 bytes is written behind the field.
test_overflow : sysfs_store_cfg empty (codes "1 2 123456789012345678901234567890 x") 36 ≡ none
unfolding sysfs_store_cfg store_ref store_name into_field scan_word scan_number skip_blanks
    after_digits to_int to_long is_digit parse_digits
test_overflow = refl

attributes_roundtrip_example :
    (sysfs_store_val (sysfs_show_val (negsuc 41)).0 4 ≡ (negsuc 41, 4))
    × ((sysfs_show_val (negsuc 41)).1 ≡ length (sysfs_show_val (negsuc 41)).0)
    × (sysfs_store_cfg empty (sysfs_show_cfg given).0 4 ≡ some (given, 4))
    × ((sysfs_show_cfg given).1 ≡ length (sysfs_show_cfg given).0)
attributes_roundtrip_example =
    attributes_roundtrip (negsuc 41) given empty 4 (omega arith, omega arith)
      (record {
        id_fits = (omega arith, omega arith);
        ref_fits = (omega arith, omega arith);
        name_word = record { solid = refl; some_byte = omega arith; short = omega arith };
        descr_word = record { solid = refl; some_byte = omega arith; short = omega arith };
      })
