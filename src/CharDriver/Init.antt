-- ===== src/CharDriver/Init.antt =====
-- `skeleton_init` and `skeleton_exit` of the character driver: what they acquire and release.
use csel_workspace.Prelude.{
  ℕ, zero, suc, ◌+◌, Bool, Option, none, some, List, [], ◌∷◌, ◌++◌, not, if◌then◌else◌,
}
use csel_workspace.Prelude.Int.{ℤ, pos, negsuc, minus, ltb_ℤ, ==ℤ}
use csel_workspace.Prelude.Errno.{einval, enomem}

-- What the module holds: its two arrays, a buffer, a `cdev` and a node for each device, the region
-- of device numbers and the class.
pub data Kind : Type 0 where
  devices buffers buffer region class cdev node : Kind

pub data Op : Type 0 where
  acquire release : Kind → ℕ → Op

-- What the kernel answers: whether the allocations succeed, the status of the region, the error of
-- the class, the status of each `cdev_add`, and whether each node is created.
pub record InitEnv : Type 0 where
  pub devices_ok : Bool
  pub buffers_ok : Bool
  pub buffer_ok : ℕ → Bool
  pub region_status : ℤ
  pub class_error : Option ℕ
  pub cdev_status : ℕ → ℤ
  pub node_ok : ℕ → Bool

-- `for (j = i; rounds left; j++)` releasing.
unfoldable pub release_from : Kind → ℕ → ℕ → List Op
release_from kind zero i = []
release_from kind (suc rounds) i = release kind i ∷ release_from kind rounds (i + 1)

-- The buffers from `i` on; the index whose allocation failed, if one did.
unfoldable pub alloc_buffers : InitEnv → ℕ → ℕ → List Op × Option ℕ
alloc_buffers env zero i = ([], none)
alloc_buffers env (suc rounds) i =
    let rest = alloc_buffers env rounds (i + 1) in
    if env.buffer_ok i then (acquire buffer i ∷ rest.0, rest.1) else ([], some i)

-- How the loop over the devices ends.
pub data DevicesEnd : Type 0 where
  all_added : DevicesEnd
  cdev_failed : ℕ → ℤ → DevicesEnd
  node_failed : ℕ → DevicesEnd

unfoldable pub add_devices : InitEnv → ℕ → ℕ → List Op × DevicesEnd
add_devices env zero i = ([], all_added)
add_devices env (suc rounds) i =
    let rest = add_devices env rounds (i + 1) in
    if not (==ℤ (env.cdev_status i) (pos 0))
    then ([], cdev_failed i (env.cdev_status i))
    else if not (env.node_ok i)
    then (acquire cdev i ∷ [], node_failed i)
    else (acquire cdev i ∷ acquire node i ∷ rest.0, rest.1)

-- The node and the `cdev` of each device up to the one that failed.
unfoldable pub release_devices : ℕ → ℕ → List Op
release_devices zero i = []
release_devices (suc rounds) i = release node i ∷ release cdev i ∷ release_devices rounds (i + 1)

-- The end of every error path: `n` buffers and the two arrays.
unfoldable pub free_all : ℕ → List Op
free_all n = release_from buffer n 0 ++ (release buffers 0 ∷ release devices 0 ∷ [])

unfoldable pub cleanup_devices : ℕ → DevicesEnd → ℤ × List Op
cleanup_devices n all_added = (pos 0, [])
cleanup_devices n (cdev_failed i status) =
    (status, release_from cdev i 0 ++ (release region 0 ∷ (free_all n ++ (release class 0 ∷ []))))
cleanup_devices n (node_failed i) = (
  minus enomem,
  release cdev i ∷ (release_devices i 0 ++ (release class 0 ∷ release region 0 ∷ free_all n)),
)

-- From the creation of the class on.
unfoldable pub init_class : InitEnv → ℕ → Option ℕ → ℤ × List Op
init_class env n (some e) = (minus e, release region 0 ∷ free_all n)
init_class env n none =
    let (ops, end) = add_devices env n 0 in
    let (ret, undo) = cleanup_devices n end in (ret, acquire class 0 ∷ (ops ++ undo))

-- From the region of device numbers on.
unfoldable pub init_region : InitEnv → ℕ → ℤ × List Op
init_region env n =
    let (ret, ops) = init_class env n env.class_error in
    if ltb_ℤ env.region_status (pos 0)
    then (env.region_status, free_all n)
    else (ret, acquire region 0 ∷ ops)

-- After the two arrays are there.
unfoldable pub init_buffers : InitEnv → ℕ → List Op → Option ℕ → ℤ × List Op
init_buffers env n ops (some i) = (minus enomem, ops ++ free_all i)
init_buffers env n ops none = let (ret, more) = init_region env n in (ret, ops ++ more)

-- `skeleton_init` for `devices_number`.
unfoldable pub skeleton_init : InitEnv → ℤ → ℤ × List Op
unfolding init_buffers alloc_buffers
skeleton_init env (negsuc n) = (minus einval, [])
skeleton_init env (pos zero) = (minus einval, [])
skeleton_init env (pos (suc m)) =
    let n = suc m in
    let (allocs, failed) = alloc_buffers env n 0 in
    let (ret, ops) = init_buffers env n allocs failed in
    if not env.devices_ok
    then (minus enomem, [])
    else if not env.buffers_ok
    then (minus enomem, acquire devices 0 ∷ release devices 0 ∷ [])
    else (ret, acquire devices 0 ∷ acquire buffers 0 ∷ ops)

-- `skeleton_exit` of a module that was loaded with `n` devices.
unfoldable pub skeleton_exit : ℕ → List Op
skeleton_exit n =
    release_from node n 0
    ++ (release class 0
        ∷ (release_from cdev n 0
            ++ (release region 0
                ∷ release devices 0
                ∷ (release_from buffer n 0 ++ (release buffers 0 ∷ [])))))
