-- ===== src/CharDriver/Settled.antt =====
-- What `skeleton_init` and `skeleton_exit` leave behind.
use csel_workspace.Prelude.{
  ℕ, zero, suc, ◌+◌, ◌≡◌, ◌≢◌, refl, Bool, true, false, Option, none, some, List, ◌++◌,
  if◌then◌else◌, arith, Bool-cases, inl, inr,
}
use csel_workspace.Prelude.Int.{ℤ, pos, negsuc, ltb_ℤ, ==ℤ}
use csel_workspace.CharDriver.Init.{
  Kind, devices, buffers, buffer, region, class, cdev, node, Op, InitEnv, alloc_buffers, DevicesEnd,
  all_added, cdev_failed, node_failed, add_devices, cleanup_devices, init_class, init_region,
  init_buffers, skeleton_init,
}
use csel_workspace.CharDriver.Tally.{
  same, at, within, Tally, of_kind, Tally-append, Tally-nil, Tally-acquire, Tally-release,
}
use csel_workspace.CharDriver.Ledger.{
  Tally-release_all, Tally-release_all_devices, Tally-free_all, Tally-alloc_all, Tally-add_all,
  base, stop, full, extra,
}
use csel_workspace.CharDriver.Stage.{
  Stage, owned, Stage-failed, Stage-acquire, Stage-append, Stage-held,
}

-- A failed `cdev_add` has a status that is not 0.
abbrev Fails : DevicesEnd → Type 0
Fails (cdev_failed m s) = s ≢ pos 0
Fails _ = Unit

add_devices-Fails : (env : InitEnv) (rounds i : ℕ) → Fails (add_devices env rounds i).1
unfolding add_devices
add_devices-Fails env zero i = tt
add_devices-Fails env (suc rounds) i =
    let rest = add_devices-Fails env rounds (i + 1) in
    elim (Bool-cases (==ℤ (env.cdev_status i) (pos 0))) [
      | inr bad ↦ rw bad (λ e. ground arith)
      | inl added ↦ elim (Bool-cases (env.node_ok i)) [
        | inr bad ↦ rw (added, bad) tt
        | inl ok ↦ rw (added, ok) rest
      ]
    ]

negative_lem : (s : ℤ) → ltb_ℤ s (pos 0) ≡ true → s ≢ pos 0
negative_lem (pos n) h = ground arith
negative_lem (negsuc n) h = λ e. cc

-- The sums of the two error paths of the loop over the devices.
cdev_sum :
    (c r b w : ℕ) (d : Bool)
    → c + (r + b) + (0 + (if d then w + 0 else 0) + 0)
      ≡ 0 + ((if d then w else 0) + (r + (b + (c + 0))))
cdev_sum c r b w d = ground arith

node_sum :
    (c r b w a x : ℕ) (d : Bool)
    → c + (r + b) + (x + (if d then w + a else 0) + 0)
      ≡ 0 + ((if d then a else 0) + (x + (if d then w else 0) + (c + (r + b))))
node_sum c r b w a x d = ground arith

all_sum : (w x : ℕ) (d : Bool) → x + (if d then w + 0 else 0) ≡ x + (if d then w else 0)
all_sum w x d = ground arith

module _ (k : Kind) (j : ℕ) where
  devices_Stage :
      (n : ℕ) (end : DevicesEnd) (ops : List Op)
      → same k node ≡ false
      → Fails end
      → Tally k j ops
          (of_kind k j node (within 0 (full k j n end) j)
            + of_kind k j cdev (within 0 (full k j n end) j + extra k j end))
          0
      → let (ret, undo) = cleanup_devices n end in
        Stage k j
          (of_kind k j class (at 0 j) + (of_kind k j region (at 0 j) + base k j n))
          (of_kind k j node (within 0 n j) + of_kind k j cdev (within 0 n j))
          (ret, ops ++ undo)
  unfolding cleanup_devices
  devices_Stage n all_added ops x f t =
      let whole = Tally-append k j t (Tally-nil k j) in
      record {
        on_success = λ z. (
          omega (
            arith,
            whole.gets,
            all_sum (within 0 n j) (of_kind k j node (within 0 n j)) (same k cdev),
          ),
          omega (arith, whole.puts),
        );
        on_failure = λ z. absurd (z refl);
      }
  devices_Stage n (cdev_failed m s) ops x f t =
      Stage-failed k j f
        (Tally-append k j t (
          Tally-append k j (Tally-release_all k j cdev m) (
            Tally-release k j region 0 (
              Tally-append k j (Tally-free_all k j n)
                (Tally-release k j class 0 (Tally-nil k j))))))
        (rw x (
          cdev_sum (of_kind k j class (at 0 j)) (of_kind k j region (at 0 j)) (base k j n)
            (within 0 m j) (same k cdev)))
  devices_Stage n (node_failed m) ops x f t =
      Stage-failed k j (λ e. cc)
        (Tally-append k j t (
          Tally-release k j cdev m (
            Tally-append k j (Tally-release_all_devices k j m)
              (Tally-release k j class 0 (Tally-release k j region 0 (Tally-free_all k j n))))))
        (node_sum (of_kind k j class (at 0 j)) (of_kind k j region (at 0 j)) (base k j n)
          (within 0 m j) (at m j) (of_kind k j node (within 0 m j)) (same k cdev))

  class_Stage :
      (env : InitEnv) (n : ℕ) (e : Option ℕ)
      → same k node ≡ false
      → e ≢ some 0
      → Stage k j
          (of_kind k j region (at 0 j) + base k j n)
          (of_kind k j class (at 0 j)
            + (of_kind k j node (within 0 n j) + of_kind k j cdev (within 0 n j)))
          (init_class env n e)
  unfolding init_class
  class_Stage env n (some e) x z =
      Stage-failed k j (λ q. ground arith) (Tally-release k j region 0 (Tally-free_all k j n))
        (omega arith)
  class_Stage env n none x z =
      let out = add_devices env n 0 in
      Stage-acquire k j class 0
        (devices_Stage n out.1 out.0 x (add_devices-Fails env n 0) (Tally-add_all k j env n))

  region_Stage :
      (env : InitEnv) (n : ℕ)
      → same k node ≡ false
      → env.class_error ≢ some 0
      → Stage k j
          (base k j n)
          (of_kind k j region (at 0 j)
            + (of_kind k j class (at 0 j)
                + (of_kind k j node (within 0 n j) + of_kind k j cdev (within 0 n j))))
          (init_region env n)
  unfolding init_region
  region_Stage env n x z = elim (Bool-cases (ltb_ℤ env.region_status (pos 0))) [
    | inl bad ↦
        rw bad (
          Stage-failed k j (negative_lem env.region_status bad) (Tally-free_all k j n)
            (omega arith))
    | inr ok ↦ rw ok (Stage-acquire k j region 0 (class_Stage env n env.class_error x z))
  ]

  -- What is there before the buffers.
  abbrev arrays : ℕ
  arrays = of_kind k j buffers (at 0 j) + of_kind k j devices (at 0 j)

  abbrev rest : ℕ → ℕ
  rest n =
      of_kind k j region (at 0 j)
      + (of_kind k j class (at 0 j)
          + (of_kind k j node (within 0 n j) + of_kind k j cdev (within 0 n j)))

  buffers_Stage :
      (env : InitEnv) (n : ℕ) (ops : List Op) (failed : Option ℕ)
      → same k node ≡ false
      → env.class_error ≢ some 0
      → Tally k j ops (of_kind k j buffer (within 0 (stop k j n failed) j)) 0
      → Stage k j arrays
          (of_kind k j buffer (within 0 n j) + rest n)
          (init_buffers env n ops failed)
  unfolding init_buffers
  buffers_Stage env n ops (some i) x z t =
      Stage-failed k j (λ e. cc) (Tally-append k j t (Tally-free_all k j i)) (omega arith)
  buffers_Stage env n ops none x z t =
      Stage-append k j t (Stage-held k j (omega arith) refl (region_Stage env n x z))

  pub skeleton_init-Stage :
      (env : InitEnv) (m : ℕ)
      → same k node ≡ false
      → env.class_error ≢ some 0
      → Stage k j 0 (owned (suc m) k j) (skeleton_init env (pos (suc m)))
  unfolding skeleton_init
  skeleton_init-Stage env m x z =
      let out = alloc_buffers env (suc m) 0 in
      elim (Bool-cases env.devices_ok) [
        | inr bad ↦ simp bad (Stage-failed k j (λ e. cc) (Tally-nil k j) refl)
        | inl ok ↦ elim (Bool-cases env.buffers_ok) [
          | inr bad ↦
              simp (ok, bad)
                (Stage-failed k j (λ e. cc)
                  (Tally-acquire k j devices 0 (Tally-release k j devices 0 (Tally-nil k j)))
                  (omega arith))
          | inl there ↦
              simp (ok, there)
                (Stage-held k j refl (omega arith) (
                  Stage-acquire k j devices 0 (
                    Stage-acquire k j buffers 0 (
                      Stage-held k j (omega arith) refl (
                        buffers_Stage env (suc m) out.0 out.1 x z
                          (Tally-alloc_all k j env (suc m)))))))
        ]
      ]
