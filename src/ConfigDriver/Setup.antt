-- ===== src/ConfigDriver/Setup.antt =====
-- `skeleton_init` and `skeleton_exit` of the configuration driver: what they acquire and release.
pub mod Balance
use csel_workspace.Prelude.{
  ℕ, ◌+◌, ◌≤◌, ◌≡◌, ◌≢◌, Bool, true, false, Option, none, some, List, [], ◌∷◌, ◌++◌, if◌then◌else◌,
  arith, ◌⊎◌,
}
use csel_workspace.Prelude.Int.{ℤ, pos, negsuc, ==ℤ}
use csel_workspace.Prelude.Ledger.{Op, acquire, release, acquired, released}

pub data Resource : Type 0 where
  region cdev class device data_file cfg_file : Resource

abbrev pub same : Resource → Resource → Bool
same region region = true
same cdev cdev = true
same class class = true
same device device = true
same data_file data_file = true
same cfg_file cfg_file = true
same _ _ = false

-- What the kernel answers: the status of each call, and for the class and the device `some e` for the
-- error pointer of -(e + 1).
pub record InitEnv : Type 0 where
  pub region_status : ℤ
  pub cdev_status : ℤ
  pub class_error : Option ℕ
  pub device_error : Option ℕ
  pub data_status : ℤ
  pub cfg_status : ℤ

-- What `skeleton_init` carries from one of its steps to the next: `status`, whether `device_class`
-- and `sysfs_device` are set, and the calls made.
pub record Progress : Type 0 where
  pub status : ℤ
  pub has_class : Bool
  pub has_device : Bool
  pub calls : List (Op Resource)

-- A call that answers with a status; it acquires when the status is 0.
abbrev pub attempt : Progress → Resource → ℤ → Progress
attempt p r status = record p {
  status = status;
  calls = if ==ℤ status (pos 0) then p.calls ++ (acquire r ∷ []) else p.calls;
}

abbrev pub if_good : Progress → Progress → Progress
if_good p next = if ==ℤ p.status (pos 0) then next else p

unfoldable pub create_class : InitEnv → Progress → Progress
create_class env p = if_good p (elim env.class_error [
  | none ↦ record p { has_class = true; calls = p.calls ++ (acquire class ∷ []) }
  | some e ↦ record p { status = negsuc e; has_class = false }
])

unfoldable pub create_device : InitEnv → Progress → Progress
create_device env p = if_good p (elim env.device_error [
  | none ↦ record p { has_device = true; calls = p.calls ++ (acquire device ∷ []) }
  | some e ↦ record p { status = negsuc e; has_device = false }
])

-- Both attributes, and the other two steps.
unfoldable pub create_files : InitEnv → Progress → Progress
create_files env p =
    let first = attempt p data_file env.data_status in
    if_good p (if_good first (attempt first cfg_file env.cfg_status))

unfoldable pub add_cdev : InitEnv → Progress → Progress
add_cdev env p = if_good p (attempt p cdev env.cdev_status)

-- The error path.
unfoldable pub cleanup : Progress → List (Op Resource)
cleanup p =
    (if p.has_device then release data_file ∷ release cfg_file ∷ release device ∷ [] else [])
    ++ ((if p.has_class then release class ∷ [] else []) ++ (release cdev ∷ release region ∷ []))

-- The last `if`, with what the error path leaves.
unfoldable pub finish : Progress → Progress
finish p =
    if ==ℤ p.status (pos 0)
    then p
    else record p { has_class = false; has_device = false; calls = p.calls ++ cleanup p }

-- From the state that the module is loaded with.
unfoldable pub skeleton_init : InitEnv → Progress
skeleton_init env =
    let p0 : Progress = record {
      status = pos 0;
      has_class = false;
      has_device = false;
      calls = [];
    } in
    let p1 = add_cdev env (attempt p0 region env.region_status) in
    finish (create_files env (create_device env (create_class env p1)))

-- `skeleton_exit`, less the release of the buffer of the last write.
unfoldable pub skeleton_exit : Progress → List (Op Resource)
skeleton_exit p =
    release cdev
    ∷ release region
    ∷ ((if p.has_device then release data_file ∷ release cfg_file ∷ release device ∷ [] else [])
        ++ (if p.has_class then release class ∷ [] else []))
