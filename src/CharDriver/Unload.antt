-- ===== src/CharDriver/Unload.antt =====
-- Loading and unloading the character driver: what is left of what `skeleton_init` acquired.
use csel_workspace.Prelude.{
  ℕ, suc, ◌+◌, ◌≡◌, ◌≢◌, refl, false, none, some, List, ◌∷◌, ◌++◌, arith, inl, inr, ◌⊎◌,
}
use csel_workspace.Prelude.Int.{zero_cases, ℤ, pos}
use csel_workspace.CharDriver.Init.{
  Kind, devices, buffers, buffer, region, class, cdev, node, Op, acquire, InitEnv, cdev_failed,
  add_devices, cleanup_devices, init_class, skeleton_init, skeleton_exit,
}
use csel_workspace.CharDriver.Tally.{
  same, within, acquired, released, Tally, Tally-append, Tally-nil, Tally-release,
}
use csel_workspace.CharDriver.Ledger.{Tally-release_all, Tally-free_all, Tally-add_all}
use csel_workspace.CharDriver.Stage.{owned}
use csel_workspace.CharDriver.Settled.{skeleton_init-Stage}

-- For a positive number of devices and an error of the class that is not 0, and for every resource
-- but the device nodes: when `skeleton_init` returns 0, it has acquired exactly what the module
-- owns with that many devices and has released nothing; on every error path it has released all
-- that it had acquired, as often as it had acquired it.
pub skeleton_init_balance :
    (env : InitEnv) (m : ℕ) (k : Kind) (j : ℕ)
    → same k node ≡ false
    → env.class_error ≢ some 0
    → let out = skeleton_init env (pos (suc m)) in
      ((out.0 ≡ pos 0) × (acquired k j out.1 ≡ owned (suc m) k j) × (released k j out.1 ≡ 0))
      ⊎ ((out.0 ≢ pos 0) × (acquired k j out.1 ≡ released k j out.1))
skeleton_init_balance env m k j x z =
    let stage = skeleton_init-Stage k j env m x z in
    let out = skeleton_init env (pos (suc m)) in
    elim (zero_cases out.0) [
      | inl e ↦ inl (e, (stage.on_success e).0, (stage.on_success e).1)
      | inr (b, e) ↦ inr (e, omega (arith, stage.on_failure e))
    ]

-- `skeleton_exit` with `n` devices acquires nothing and releases, of each resource, exactly what
-- the module owns with that many devices.
pub skeleton_exit-owned :
    (n : ℕ) (k : Kind) (j : ℕ)
    → (acquired k j (skeleton_exit n) ≡ 0) × (released k j (skeleton_exit n) ≡ owned n k j)
unfolding skeleton_exit
skeleton_exit-owned n k j =
    let t = Tally-append k j (Tally-release_all k j node n) (
      Tally-release k j class 0 (
        Tally-append k j (Tally-release_all k j cdev n) (
          Tally-release k j region 0 (
            Tally-release k j devices 0 (
              Tally-append k j (Tally-release_all k j buffer n)
                (Tally-release k j buffers 0 (Tally-nil k j))))))) in
    (omega (arith, t.gets), omega (arith, t.puts))

left_behind :
    (n m j : ℕ) (status : ℤ) (ops : List Op)
    → Tally node j ops (within 0 m j + 0) 0
    → let out = cleanup_devices n (cdev_failed m status) in
      (out.0 ≡ status)
      × (acquired node j (acquire class 0 ∷ (ops ++ out.1)) ≡ within 0 m j)
      × (released node j (acquire class 0 ∷ (ops ++ out.1)) ≡ 0)
unfolding cleanup_devices acquired released
left_behind n m j status ops t =
    let whole = Tally-append node j t (
      Tally-append node j (Tally-release_all node j cdev m) (
        Tally-release node j region 0 (
          Tally-append node j (Tally-free_all node j n)
            (Tally-release node j class 0 (Tally-nil node j))))) in
    (refl, omega (arith, whole.gets), omega (arith, whole.puts))

-- The device nodes, when `cdev_add` is the call that fails: for every status that stopped the loop
-- over the devices at device `m`, the nodes of the devices below `m` have been created and are not
-- destroyed again.
pub nodes_left_behind :
    (env : InitEnv) (n m j : ℕ) (status : ℤ)
    → (add_devices env n 0).1 ≡ cdev_failed m status
    → let out = init_class env n none in
      (out.0 ≡ status) × (acquired node j out.1 ≡ within 0 m j) × (released node j out.1 ≡ 0)
unfolding init_class cleanup_devices acquired released
nodes_left_behind env n m j status failed =
    simp failed (
      left_behind n m j status (add_devices env n 0).0
        (simp failed at (Tally-add_all node j env n)))
