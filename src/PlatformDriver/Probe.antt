-- ===== src/PlatformDriver/Probe.antt =====
-- `drv_probe`, `drv_remove`, `sysfs_driver_init` and `sysfs_driver_exit` of sample06.3: what is
-- registered for the children of the node, and what is deregistered.
pub mod Leak
use csel_workspace.Prelude.{
  ℕ, zero, suc, ◌+◌, Bool, true, false, not, Option, none, some, List, [], ◌∷◌, ◌++◌, ◌==◌,
  if◌then◌else◌,
}
use csel_workspace.Prelude.Int.{ℤ, pos, minus, ==ℤ}
use csel_workspace.Prelude.Errno.{enomem}
use csel_workspace.Prelude.Ledger.{Op, acquire, release}

-- The device of a child, by the child's place in the node, and its attribute.
pub data Resource : Type 0 where
  misc attribute : ℕ → Resource

-- What the kernel answers for a child: whether `devm_kzalloc` brings memory, and the results of
-- `misc_register` and `device_create_file`.
pub record Child : Type 0 where
  pub alloc_ok : Bool
  pub register_status : ℤ
  pub create_status : ℤ

-- What the probe has come to: its result, what it registered, and the driver data of the platform
-- device, which is the child that was set last.
pub record Probed : Type 0 where
  pub result : ℤ
  pub ops : List (Op Resource)
  pub drvdata : Option ℕ

abbrev pub zero_status : ℤ → Bool
zero_status s = ==ℤ s (pos 0)

-- The loop over the children from the `i`-th on.
unfoldable pub probe_children : ℕ → Option ℕ → List Child → Probed
probe_children i drvdata [] = record { result = pos 0; ops = []; drvdata = drvdata }
probe_children i drvdata (c ∷ children) =
    let rest = probe_children (i + 1) (some i) children in
    if not c.alloc_ok
    then record { result = minus enomem; ops = []; drvdata = drvdata }
    else if not (zero_status c.register_status)
    then record { result = c.register_status; ops = []; drvdata = some i }
    else if not (zero_status c.create_status)
    then record { result = c.create_status; ops = acquire (misc i) ∷ []; drvdata = some i }
    else record rest { ops = acquire (misc i) ∷ acquire (attribute i) ∷ rest.ops }

-- `drv_probe`; the platform device has no driver data before.
unfoldable pub drv_probe : List Child → Probed
unfolding probe_children
drv_probe children = probe_children 0 none children

-- `drv_remove`; without driver data the device that it deregisters is behind NULL. The attribute goes
-- with its device.
unfoldable pub drv_remove : Option ℕ → Option (List (Op Resource))
drv_remove none = none
drv_remove (some i) = some (release (misc i) ∷ release (attribute i) ∷ [])

-- `sysfs_driver_init`, given the result of `platform_driver_register`: what it returns.
unfoldable pub sysfs_driver_init : ℤ → ℤ
sysfs_driver_init status = pos 0
