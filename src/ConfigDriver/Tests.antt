-- ===== src/ConfigDriver/Tests.antt =====
-- Runs of the configuration driver, and examples of its theorems.
use csel_workspace.Prelude.{
  ℕ, ◌+◌, ◌≤◌, ◌≡◌, ◌≢◌, refl, false, Option, none, some, List, ◌⊎◌, replicate, arith,
}
use csel_workspace.Prelude.Int.{pos, minus}
use csel_workspace.Prelude.Text.{codes, no_nul, strlen}
use csel_workspace.Prelude.Ledger.{acquired, released}
use csel_workspace.ConfigDriver.{chardev_read, chardev_write, read_at}
use csel_workspace.ConfigDriver.Text.{write-read, read_text, kept}
use csel_workspace.ConfigDriver.Setup.Balance.{spurious, setup_balance}
use csel_workspace.ConfigDriver.Setup.{
  InitEnv, skeleton_init, skeleton_exit, same, region, cdev, finish, add_cdev, create_class,
  create_device, create_files, cleanup,
}

abbrev hello : List ℕ
hello = codes "hello"

abbrev memory : Option (List ℕ)
memory = some (replicate 6 255)

test_write : (chardev_write none memory hello none).1 ≡ some (codes "hello\0")
unfolding chardev_write
test_write = refl

test_read : chardev_read (some (codes "hello\0")) 10 2 false ≡ some (pos 3, codes "llo", 5)
unfolding chardev_read strlen read_at
test_read = refl

-- A write that copies three bytes only.
write-read_example :
    chardev_read (chardev_write none memory hello (some 3)).1 10 1 false
    ≡ some (read_text (kept memory (some 3) hello) 10 1 false)
unfolding no_nul
write-read_example = write-read none memory hello (some 3) 10 1 false refl (omega arith)

-- No region of device numbers.
abbrev no_region : InitEnv
no_region = record {
  region_status = minus 16;
  cdev_status = pos 0;
  class_error = none;
  device_error = none;
  data_status = pos 0;
  cfg_status = pos 0;
}

-- The error path then takes away a `cdev` and a region that it does not have.
test_no_region :
    let p = skeleton_init no_region in
    (acquired (same cdev) p.calls ≡ 0) × (released (same cdev) p.calls ≡ 1)
unfolding skeleton_init finish acquired released cleanup add_cdev create_class create_device
    create_files
test_no_region = (refl, refl)

setup_balance_example :
    let p = skeleton_init no_region in
    ((p.status ≡ pos 0)
      × (acquired (same region) p.calls ≡ 1)
      × (released (same region) p.calls ≡ 0)
      × (released (same region) (skeleton_exit p) ≡ 1))
    ⊎ ((p.status ≢ pos 0)
        × (acquired (same region) p.calls ≤ released (same region) p.calls)
        × (released (same region) p.calls ≤ acquired (same region) p.calls + spurious region))
setup_balance_example = setup_balance no_region region
