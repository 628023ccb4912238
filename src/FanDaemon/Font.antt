-- ===== src/FanDaemon/Font.antt =====
-- The tables of src/07_miniproj/daemon/ssd1306.c.
use csel_workspace.Prelude.{ℕ, List, [], ◌∷◌}

-- One row of eight columns for each character from blank (32) on.
abbrev pub font : List (List ℕ)
font =
    (0x00 ∷ 0x00 ∷ 0x00 ∷ 0x00 ∷ 0x00 ∷ 0x00 ∷ 0x00 ∷ 0x00 ∷ [])
    ∷ (0x00 ∷ 0x00 ∷ 0x5f ∷ 0x00 ∷ 0x00 ∷ 0x00 ∷ 0x00 ∷ 0x00 ∷ [])
    ∷ (0x00 ∷ 0x00 ∷ 0x07 ∷ 0x00 ∷ 0x07 ∷ 0x00 ∷ 0x00 ∷ 0x00 ∷ [])
    ∷ (0x00 ∷ 0x14 ∷ 0x7f ∷ 0x14 ∷ 0x7f ∷ 0x14 ∷ 0x00 ∷ 0x00 ∷ [])
    ∷ (0x00 ∷ 0x24 ∷ 0x2a ∷ 0x7f ∷ 0x2a ∷ 0x12 ∷ 0x00 ∷ 0x00 ∷ [])
    ∷ (0x00 ∷ 0x23 ∷ 0x13 ∷ 0x08 ∷ 0x64 ∷ 0x62 ∷ 0x00 ∷ 0x00 ∷ [])
    ∷ (0x00 ∷ 0x36 ∷ 0x49 ∷ 0x55 ∷ 0x22 ∷ 0x50 ∷ 0x00 ∷ 0x00 ∷ [])
    ∷ (0x00 ∷ 0x00 ∷ 0x05 ∷ 0x03 ∷ 0x00 ∷ 0x00 ∷ 0x00 ∷ 0x00 ∷ [])
    ∷ (0x00 ∷ 0x1c ∷ 0x22 ∷ 0x41 ∷ 0x00 ∷ 0x00 ∷ 0x00 ∷ 0x00 ∷ [])
    ∷ (0x00 ∷ 0x41 ∷ 0x22 ∷ 0x1c ∷ 0x00 ∷ 0x00 ∷ 0x00 ∷ 0x00 ∷ [])
    ∷ (0x00 ∷ 0x08 ∷ 0x2a ∷ 0x1c ∷ 0x2a ∷ 0x08 ∷ 0x00 ∷ 0x00 ∷ [])
    ∷ (0x00 ∷ 0x08 ∷ 0x08 ∷ 0x3e ∷ 0x08 ∷ 0x08 ∷ 0x00 ∷ 0x00 ∷ [])
    ∷ (0x00 ∷ 0xa0 ∷ 0x60 ∷ 0x00 ∷ 0x00 ∷ 0x00 ∷ 0x00 ∷ 0x00 ∷ [])
    ∷ (0x00 ∷ 0x08 ∷ 0x08 ∷ 0x08 ∷ 0x08 ∷ 0x08 ∷ 0x00 ∷ 0x00 ∷ [])
    ∷ (0x00 ∷ 0x60 ∷ 0x60 ∷ 0x00 ∷ 0x00 ∷ 0x00 ∷ 0x00 ∷ 0x00 ∷ [])
    ∷ (0x00 ∷ 0x20 ∷ 0x10 ∷ 0x08 ∷ 0x04 ∷ 0x02 ∷ 0x00 ∷ 0x00 ∷ [])
    ∷ (0x00 ∷ 0x3e ∷ 0x51 ∷ 0x49 ∷ 0x45 ∷ 0x3e ∷ 0x00 ∷ 0x00 ∷ [])
    ∷ (0x00 ∷ 0x00 ∷ 0x42 ∷ 0x7f ∷ 0x40 ∷ 0x00 ∷ 0x00 ∷ 0x00 ∷ [])
    ∷ (0x00 ∷ 0x62 ∷ 0x51 ∷ 0x49 ∷ 0x49 ∷ 0x46 ∷ 0x00 ∷ 0x00 ∷ [])
    ∷ (0x00 ∷ 0x22 ∷ 0x41 ∷ 0x49 ∷ 0x49 ∷ 0x36 ∷ 0x00 ∷ 0x00 ∷ [])
    ∷ (0x00 ∷ 0x18 ∷ 0x14 ∷ 0x12 ∷ 0x7f ∷ 0x10 ∷ 0x00 ∷ 0x00 ∷ [])
    ∷ (0x00 ∷ 0x27 ∷ 0x45 ∷ 0x45 ∷ 0x45 ∷ 0x39 ∷ 0x00 ∷ 0x00 ∷ [])
    ∷ (0x00 ∷ 0x3c ∷ 0x4a ∷ 0x49 ∷ 0x49 ∷ 0x30 ∷ 0x00 ∷ 0x00 ∷ [])
    ∷ (0x00 ∷ 0x01 ∷ 0x71 ∷ 0x09 ∷ 0x05 ∷ 0x03 ∷ 0x00 ∷ 0x00 ∷ [])
    ∷ (0x00 ∷ 0x36 ∷ 0x49 ∷ 0x49 ∷ 0x49 ∷ 0x36 ∷ 0x00 ∷ 0x00 ∷ [])
    ∷ (0x00 ∷ 0x06 ∷ 0x49 ∷ 0x49 ∷ 0x29 ∷ 0x1e ∷ 0x00 ∷ 0x00 ∷ [])
    ∷ (0x00 ∷ 0x00 ∷ 0x36 ∷ 0x36 ∷ 0x00 ∷ 0x00 ∷ 0x00 ∷ 0x00 ∷ [])
    ∷ (0x00 ∷ 0x00 ∷ 0xac ∷ 0x6c ∷ 0x00 ∷ 0x00 ∷ 0x00 ∷ 0x00 ∷ [])
    ∷ (0x00 ∷ 0x08 ∷ 0x14 ∷ 0x22 ∷ 0x41 ∷ 0x00 ∷ 0x00 ∷ 0x00 ∷ [])
    ∷ (0x00 ∷ 0x14 ∷ 0x14 ∷ 0x14 ∷ 0x14 ∷ 0x14 ∷ 0x00 ∷ 0x00 ∷ [])
    ∷ (0x00 ∷ 0x41 ∷ 0x22 ∷ 0x14 ∷ 0x08 ∷ 0x00 ∷ 0x00 ∷ 0x00 ∷ [])
    ∷ (0x00 ∷ 0x02 ∷ 0x01 ∷ 0x51 ∷ 0x09 ∷ 0x06 ∷ 0x00 ∷ 0x00 ∷ [])
    ∷ (0x00 ∷ 0x32 ∷ 0x49 ∷ 0x79 ∷ 0x41 ∷ 0x3e ∷ 0x00 ∷ 0x00 ∷ [])
    ∷ (0x00 ∷ 0x7e ∷ 0x09 ∷ 0x09 ∷ 0x09 ∷ 0x7e ∷ 0x00 ∷ 0x00 ∷ [])
    ∷ (0x00 ∷ 0x7f ∷ 0x49 ∷ 0x49 ∷ 0x49 ∷ 0x36 ∷ 0x00 ∷ 0x00 ∷ [])
    ∷ (0x00 ∷ 0x3e ∷ 0x41 ∷ 0x41 ∷ 0x41 ∷ 0x22 ∷ 0x00 ∷ 0x00 ∷ [])
    ∷ (0x00 ∷ 0x7f ∷ 0x41 ∷ 0x41 ∷ 0x22 ∷ 0x1c ∷ 0x00 ∷ 0x00 ∷ [])
    ∷ (0x00 ∷ 0x7f ∷ 0x49 ∷ 0x49 ∷ 0x49 ∷ 0x41 ∷ 0x00 ∷ 0x00 ∷ [])
    ∷ (0x00 ∷ 0x7f ∷ 0x09 ∷ 0x09 ∷ 0x09 ∷ 0x01 ∷ 0x00 ∷ 0x00 ∷ [])
    ∷ (0x00 ∷ 0x3e ∷ 0x41 ∷ 0x41 ∷ 0x51 ∷ 0x72 ∷ 0x00 ∷ 0x00 ∷ [])
    ∷ (0x00 ∷ 0x7f ∷ 0x08 ∷ 0x08 ∷ 0x08 ∷ 0x7f ∷ 0x00 ∷ 0x00 ∷ [])
    ∷ (0x00 ∷ 0x41 ∷ 0x7f ∷ 0x41 ∷ 0x00 ∷ 0x00 ∷ 0x00 ∷ 0x00 ∷ [])
    ∷ (0x00 ∷ 0x20 ∷ 0x40 ∷ 0x41 ∷ 0x3f ∷ 0x01 ∷ 0x00 ∷ 0x00 ∷ [])
    ∷ (0x00 ∷ 0x7f ∷ 0x08 ∷ 0x14 ∷ 0x22 ∷ 0x41 ∷ 0x00 ∷ 0x00 ∷ [])
    ∷ (0x00 ∷ 0x7f ∷ 0x40 ∷ 0x40 ∷ 0x40 ∷ 0x40 ∷ 0x00 ∷ 0x00 ∷ [])
    ∷ (0x00 ∷ 0x7f ∷ 0x02 ∷ 0x0c ∷ 0x02 ∷ 0x7f ∷ 0x00 ∷ 0x00 ∷ [])
    ∷ (0x00 ∷ 0x7f ∷ 0x04 ∷ 0x08 ∷ 0x10 ∷ 0x7f ∷ 0x00 ∷ 0x00 ∷ [])
    ∷ (0x00 ∷ 0x3e ∷ 0x41 ∷ 0x41 ∷ 0x41 ∷ 0x3e ∷ 0x00 ∷ 0x00 ∷ [])
    ∷ (0x00 ∷ 0x7f ∷ 0x09 ∷ 0x09 ∷ 0x09 ∷ 0x06 ∷ 0x00 ∷ 0x00 ∷ [])
    ∷ (0x00 ∷ 0x3e ∷ 0x41 ∷ 0x51 ∷ 0x21 ∷ 0x5e ∷ 0x00 ∷ 0x00 ∷ [])
    ∷ (0x00 ∷ 0x7f ∷ 0x09 ∷ 0x19 ∷ 0x29 ∷ 0x46 ∷ 0x00 ∷ 0x00 ∷ [])
    ∷ (0x00 ∷ 0x26 ∷ 0x49 ∷ 0x49 ∷ 0x49 ∷ 0x32 ∷ 0x00 ∷ 0x00 ∷ [])
    ∷ (0x00 ∷ 0x01 ∷ 0x01 ∷ 0x7f ∷ 0x01 ∷ 0x01 ∷ 0x00 ∷ 0x00 ∷ [])
    ∷ (0x00 ∷ 0x3f ∷ 0x40 ∷ 0x40 ∷ 0x40 ∷ 0x3f ∷ 0x00 ∷ 0x00 ∷ [])
    ∷ (0x00 ∷ 0x1f ∷ 0x20 ∷ 0x40 ∷ 0x20 ∷ 0x1f ∷ 0x00 ∷ 0x00 ∷ [])
    ∷ (0x00 ∷ 0x3f ∷ 0x40 ∷ 0x38 ∷ 0x40 ∷ 0x3f ∷ 0x00 ∷ 0x00 ∷ [])
    ∷ (0x00 ∷ 0x63 ∷ 0x14 ∷ 0x08 ∷ 0x14 ∷ 0x63 ∷ 0x00 ∷ 0x00 ∷ [])
    ∷ (0x00 ∷ 0x03 ∷ 0x04 ∷ 0x78 ∷ 0x04 ∷ 0x03 ∷ 0x00 ∷ 0x00 ∷ [])
    ∷ (0x00 ∷ 0x61 ∷ 0x51 ∷ 0x49 ∷ 0x45 ∷ 0x43 ∷ 0x00 ∷ 0x00 ∷ [])
    ∷ (0x00 ∷ 0x7f ∷ 0x41 ∷ 0x41 ∷ 0x00 ∷ 0x00 ∷ 0x00 ∷ 0x00 ∷ [])
    ∷ (0x00 ∷ 0x02 ∷ 0x04 ∷ 0x08 ∷ 0x10 ∷ 0x20 ∷ 0x00 ∷ 0x00 ∷ [])
    ∷ (0x00 ∷ 0x41 ∷ 0x41 ∷ 0x7f ∷ 0x00 ∷ 0x00 ∷ 0x00 ∷ 0x00 ∷ [])
    ∷ (0x00 ∷ 0x04 ∷ 0x02 ∷ 0x01 ∷ 0x02 ∷ 0x04 ∷ 0x00 ∷ 0x00 ∷ [])
    ∷ (0x00 ∷ 0x80 ∷ 0x80 ∷ 0x80 ∷ 0x80 ∷ 0x80 ∷ 0x00 ∷ 0x00 ∷ [])
    ∷ (0x00 ∷ 0x01 ∷ 0x02 ∷ 0x04 ∷ 0x00 ∷ 0x00 ∷ 0x00 ∷ 0x00 ∷ [])
    ∷ (0x00 ∷ 0x20 ∷ 0x54 ∷ 0x54 ∷ 0x54 ∷ 0x78 ∷ 0x00 ∷ 0x00 ∷ [])
    ∷ (0x00 ∷ 0x7f ∷ 0x48 ∷ 0x44 ∷ 0x44 ∷ 0x38 ∷ 0x00 ∷ 0x00 ∷ [])
    ∷ (0x00 ∷ 0x38 ∷ 0x44 ∷ 0x44 ∷ 0x28 ∷ 0x00 ∷ 0x00 ∷ 0x00 ∷ [])
    ∷ (0x00 ∷ 0x38 ∷ 0x44 ∷ 0x44 ∷ 0x48 ∷ 0x7f ∷ 0x00 ∷ 0x00 ∷ [])
    ∷ (0x00 ∷ 0x38 ∷ 0x54 ∷ 0x54 ∷ 0x54 ∷ 0x18 ∷ 0x00 ∷ 0x00 ∷ [])
    ∷ (0x00 ∷ 0x08 ∷ 0x7e ∷ 0x09 ∷ 0x02 ∷ 0x00 ∷ 0x00 ∷ 0x00 ∷ [])
    ∷ (0x00 ∷ 0x18 ∷ 0xa4 ∷ 0xa4 ∷ 0xa4 ∷ 0x7c ∷ 0x00 ∷ 0x00 ∷ [])
    ∷ (0x00 ∷ 0x7f ∷ 0x08 ∷ 0x04 ∷ 0x04 ∷ 0x78 ∷ 0x00 ∷ 0x00 ∷ [])
    ∷ (0x00 ∷ 0x00 ∷ 0x7d ∷ 0x00 ∷ 0x00 ∷ 0x00 ∷ 0x00 ∷ 0x00 ∷ [])
    ∷ (0x00 ∷ 0x80 ∷ 0x84 ∷ 0x7d ∷ 0x00 ∷ 0x00 ∷ 0x00 ∷ 0x00 ∷ [])
    ∷ (0x00 ∷ 0x7f ∷ 0x10 ∷ 0x28 ∷ 0x44 ∷ 0x00 ∷ 0x00 ∷ 0x00 ∷ [])
    ∷ (0x00 ∷ 0x41 ∷ 0x7f ∷ 0x40 ∷ 0x00 ∷ 0x00 ∷ 0x00 ∷ 0x00 ∷ [])
    ∷ (0x00 ∷ 0x7c ∷ 0x04 ∷ 0x18 ∷ 0x04 ∷ 0x78 ∷ 0x00 ∷ 0x00 ∷ [])
    ∷ (0x00 ∷ 0x7c ∷ 0x08 ∷ 0x04 ∷ 0x7c ∷ 0x00 ∷ 0x00 ∷ 0x00 ∷ [])
    ∷ (0x00 ∷ 0x38 ∷ 0x44 ∷ 0x44 ∷ 0x38 ∷ 0x00 ∷ 0x00 ∷ 0x00 ∷ [])
    ∷ (0x00 ∷ 0xfc ∷ 0x24 ∷ 0x24 ∷ 0x18 ∷ 0x00 ∷ 0x00 ∷ 0x00 ∷ [])
    ∷ (0x00 ∷ 0x18 ∷ 0x24 ∷ 0x24 ∷ 0xfc ∷ 0x00 ∷ 0x00 ∷ 0x00 ∷ [])
    ∷ (0x00 ∷ 0x00 ∷ 0x7c ∷ 0x08 ∷ 0x04 ∷ 0x00 ∷ 0x00 ∷ 0x00 ∷ [])
    ∷ (0x00 ∷ 0x48 ∷ 0x54 ∷ 0x54 ∷ 0x24 ∷ 0x00 ∷ 0x00 ∷ 0x00 ∷ [])
    ∷ (0x00 ∷ 0x04 ∷ 0x7f ∷ 0x44 ∷ 0x00 ∷ 0x00 ∷ 0x00 ∷ 0x00 ∷ [])
    ∷ (0x00 ∷ 0x3c ∷ 0x40 ∷ 0x40 ∷ 0x7c ∷ 0x00 ∷ 0x00 ∷ 0x00 ∷ [])
    ∷ (0x00 ∷ 0x1c ∷ 0x20 ∷ 0x40 ∷ 0x20 ∷ 0x1c ∷ 0x00 ∷ 0x00 ∷ [])
    ∷ (0x00 ∷ 0x3c ∷ 0x40 ∷ 0x30 ∷ 0x40 ∷ 0x3c ∷ 0x00 ∷ 0x00 ∷ [])
    ∷ (0x00 ∷ 0x44 ∷ 0x28 ∷ 0x10 ∷ 0x28 ∷ 0x44 ∷ 0x00 ∷ 0x00 ∷ [])
    ∷ (0x00 ∷ 0x1c ∷ 0xa0 ∷ 0xa0 ∷ 0x7c ∷ 0x00 ∷ 0x00 ∷ 0x00 ∷ [])
    ∷ (0x00 ∷ 0x44 ∷ 0x64 ∷ 0x54 ∷ 0x4c ∷ 0x44 ∷ 0x00 ∷ 0x00 ∷ [])
    ∷ (0x00 ∷ 0x08 ∷ 0x36 ∷ 0x41 ∷ 0x00 ∷ 0x00 ∷ 0x00 ∷ 0x00 ∷ [])
    ∷ (0x00 ∷ 0x00 ∷ 0x7f ∷ 0x00 ∷ 0x00 ∷ 0x00 ∷ 0x00 ∷ 0x00 ∷ [])
    ∷ (0x00 ∷ 0x41 ∷ 0x36 ∷ 0x08 ∷ 0x00 ∷ 0x00 ∷ 0x00 ∷ 0x00 ∷ [])
    ∷ (0x00 ∷ 0x02 ∷ 0x01 ∷ 0x01 ∷ 0x02 ∷ 0x01 ∷ 0x00 ∷ 0x00 ∷ [])
    ∷ (0x00 ∷ 0x02 ∷ 0x05 ∷ 0x05 ∷ 0x02 ∷ 0x00 ∷ 0x00 ∷ 0x00 ∷ [])
    ∷ []

abbrev pub init_commands : List ℕ
init_commands =
    0xae ∷ 0x00 ∷ 0x10 ∷ 0x40 ∷ 0xb0 ∷ 0x81 ∷ 0xcf ∷ 0xa1 ∷ 0xa6 ∷ 0xa8 ∷ 0x3f ∷ 0xc8 ∷ 0xd3 ∷ 0x00
    ∷ 0xd5 ∷ 0x80 ∷ 0xd9 ∷ 0xf1 ∷ 0xda ∷ 0x12 ∷ 0xdb ∷ 0x40 ∷ 0x8d ∷ 0x14 ∷ 0xaf ∷ []
