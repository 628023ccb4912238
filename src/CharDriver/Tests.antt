-- ===== src/CharDriver/Tests.antt =====
-- Runs of the character driver, and examples of its theorems.
use csel_workspace.Prelude.{
  ℕ, ◌≡◌, ◌≢◌, refl, true, none, some, List, [], ◌∷◌, min, length, take, ltb, replicate,
  if◌then◌else◌, ◌⊎◌, ◌==◌,
}
use csel_workspace.Prelude.Int.{pos, minus}
use csel_workspace.Prelude.Text.{no_nul}
use csel_workspace.CharDriver.{skeleton_write, skeleton_buffer_size}
use csel_workspace.CharDriver.Transfer.{read-write, stored, read_pieces, sum}
use csel_workspace.CharDriver.Init.{
  cdev, node, InitEnv, skeleton_init, skeleton_exit, add_devices, cdev_failed, init_class,
  init_buffers, alloc_buffers, init_region, cleanup_devices,
}
use csel_workspace.CharDriver.Tally.{acquired, released, within}
use csel_workspace.CharDriver.Stage.{owned}
use csel_workspace.CharDriver.Unload.{skeleton_init_balance, skeleton_exit-owned, nodes_left_behind}

-- Three devices, the third of which has no node.
abbrev last_node_fails : InitEnv
last_node_fails = record {
  devices_ok = true;
  buffers_ok = true;
  buffer_ok = λ i. true;
  region_status = pos 0;
  class_error = none;
  cdev_status = λ i. pos 0;
  node_ok = λ i. ltb i 2;
}

-- The same, with a failure of the second `cdev_add` instead.
abbrev second_cdev_fails : InitEnv
second_cdev_fails = record {
  devices_ok = true;
  buffers_ok = true;
  buffer_ok = λ i. true;
  region_status = pos 0;
  class_error = none;
  cdev_status = λ i. if i == 1 then minus 12 else pos 0;
  node_ok = λ i. true;
}

test_init : (skeleton_init last_node_fails (pos 3)).0 ≡ minus 12
unfolding skeleton_init init_buffers alloc_buffers init_region init_class add_devices
    cleanup_devices
test_init = refl

skeleton_init_balance_example :
    let out = skeleton_init last_node_fails (pos 3) in
    ((out.0 ≡ pos 0) × (acquired cdev 1 out.1 ≡ owned 3 cdev 1) × (released cdev 1 out.1 ≡ 0))
    ⊎ ((out.0 ≢ pos 0) × (acquired cdev 1 out.1 ≡ released cdev 1 out.1))
skeleton_init_balance_example = skeleton_init_balance last_node_fails 2 cdev 1 refl (λ e. cc)

test_skeleton_exit-owned :
    (acquired node 1 (skeleton_exit 3) ≡ 0) × (released node 1 (skeleton_exit 3) ≡ owned 3 node 1)
test_skeleton_exit-owned = skeleton_exit-owned 3 node 1

second_cdev_lem : (add_devices second_cdev_fails 3 0).1 ≡ cdev_failed 1 (minus 12)
unfolding add_devices
second_cdev_lem = refl

test_nodes_left_behind :
    let out = init_class second_cdev_fails 3 none in
    (out.0 ≡ minus 12) × (acquired node 0 out.1 ≡ within 0 1 0) × (released node 0 out.1 ≡ 0)
test_nodes_left_behind = nodes_left_behind second_cdev_fails 3 1 0 (minus 12) second_cdev_lem

abbrev old_bytes : List ℕ
old_bytes = replicate 256 7

read-write_example :
    (skeleton_write (some old_bytes) (1 ∷ 2 ∷ 3 ∷ []) 5 none
      ≡ (pos (min 3 255), some (stored (1 ∷ 2 ∷ 3 ∷ []) old_bytes), 0))
    × (read_pieces (stored (1 ∷ 2 ∷ 3 ∷ []) old_bytes) (2 ∷ 2 ∷ []) 0
        ≡ take (sum (2 ∷ 2 ∷ [])) (take (min 3 255) (1 ∷ 2 ∷ 3 ∷ [])))
    × (length (stored (1 ∷ 2 ∷ 3 ∷ []) old_bytes) ≡ skeleton_buffer_size)
unfolding no_nul
read-write_example = read-write (1 ∷ 2 ∷ 3 ∷ []) old_bytes 5 (2 ∷ 2 ∷ []) refl refl
