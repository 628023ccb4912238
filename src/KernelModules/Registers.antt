-- ===== src/KernelModules/Registers.antt =====
-- src/02_modules/exercice05/skeleton.c: chip id, temperature and MAC address, read from registers
-- that are mapped while the module is loaded.
use csel_workspace.Prelude.{
  ℕ, zero, suc, ◌+◌, ◌*◌, ◌/◌, ◌%◌, ◌^◌, ◌≡◌, Bool, ◌&&◌, List, [], ◌∷◌, ◌++◌, ◌==◌, ltb,
  if◌then◌else◌, arith,
}
use csel_workspace.Prelude.Int.{ℤ, pos, minus, ◌-ℤ◌}
use csel_workspace.Prelude.Errno.{efault}
use csel_workspace.Prelude.Decimal.{print_int}
use csel_workspace.Prelude.Text.{codes}
use csel_workspace.Prelude.Ledger.{Op, acquire, release, acquired, released}

-- `%0wx` of a number of `w` hexadecimal digits.
unfoldable pub hex_digit : ℕ → ℕ
hex_digit d = if ltb d 10 then 48 + d else 87 + d

unfoldable pub hex : ℕ → ℕ → List ℕ
hex zero n = []
hex (suc w) n = hex_digit (n / 16 ^ w % 16) ∷ hex w n

-- The three register ranges, by their index in `registers`.
abbrev pub same : ℕ → ℕ → Bool
same i j = i == j

-- What `ioremap` brings for each range, and the 32-bit words at the offsets of each.
pub record Env : Type 0 where
  pub maps : ℕ → Bool
  pub word : ℕ → ℕ → ℕ

-- `(macAddr >> 8 * i) & 0xff`
unfoldable pub byte : ℕ → ℕ → ℕ
byte n i = n / 256 ^ i % 256

-- `-1191*cpu_temp/10+223000`; the division of C truncates towards 0.
unfoldable pub temperature : ℕ → ℤ
temperature raw = pos 223000 -ℤ pos (1191 * raw / 10)

unfoldable pub chip_id : Env → List ℕ
chip_id env =
    codes "Chip ID: "
    ++ (hex 8 (env.word 0 0)
        ++ (codes "'"
            ++ (hex 8 (env.word 0 4)
                ++ (codes "'" ++ (hex 8 (env.word 0 8) ++ (codes "'" ++ hex 8 (env.word 0 12)))))))

-- The bytes of the MAC address: four of the second word, two of the first.
unfoldable pub mac_bytes : Env → List ℕ
mac_bytes env =
    let low = env.word 2 0 in
    let high = env.word 2 4 in
    byte high 0 ∷ byte high 1 ∷ byte high 2 ∷ byte high 3 ∷ byte low 0 ∷ byte low 1 ∷ []

unfoldable pub colons : List ℕ → List ℕ
colons [] = []
colons (b ∷ []) = hex 2 b
colons (b ∷ c ∷ bytes) = hex 2 b ++ (codes ":" ++ colons (c ∷ bytes))

-- Mapping and unmapping a range.
abbrev map_range : Env → ℕ → List (Op ℕ)
map_range env i = if env.maps i then acquire i ∷ [] else []

abbrev unmap_range : Env → ℕ → List (Op ℕ)
unmap_range env i = if env.maps i then release i ∷ [] else []

-- `skeleton_init`: the result, the lines logged behind the first, and the mappings made and undone.
unfoldable pub skeleton_init : Env → ℤ × List (List ℕ) × List (Op ℕ)
skeleton_init env =
    let mapped = map_range env 0 ++ (map_range env 1 ++ map_range env 2) in
    if env.maps 0 && (env.maps 1 && env.maps 2)
    then (
      pos 0,
      chip_id env
          ∷ (codes "CPU Temperature: "
              ++ (print_int (temperature (env.word 1 0))
                  ++ (codes " m" ++ (194 ∷ 176 ∷ codes "C"))))
          ∷ (codes "MAC Address: " ++ colons (mac_bytes env))
          ∷ [],
      mapped ++ (release 0 ∷ release 1 ∷ release 2 ∷ []),
    )
    else (
      minus efault,
      codes "Failded to map processors registers" ∷ [],
      mapped ++ (unmap_range env 0 ++ (unmap_range env 1 ++ unmap_range env 2)),
    )

-- Whichever ranges can be mapped: each is unmapped as often as it was mapped when the init returns,
-- and the result is 0 exactly when all three were mapped.
pub registers_balance :
    (env : Env) (i : ℕ)
    → (acquired (same i) (skeleton_init env).2 ≡ released (same i) (skeleton_init env).2)
      × ((skeleton_init env).0
          ≡ (if env.maps 0 && (env.maps 1 && env.maps 2) then pos 0 else minus efault))
unfolding skeleton_init acquired released
registers_balance env i = (ground arith, ground arith)
