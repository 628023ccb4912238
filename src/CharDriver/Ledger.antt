-- ===== src/CharDriver/Ledger.antt =====
-- The ledger of the character driver: what `skeleton_init` holds when it returns.
use native.Mathlib.Nat.{zero-add}
use csel_workspace.Prelude.{
  ℕ, zero, suc, ◌+◌, ◌≤◌, ◌<◌, ◌≡◌, refl, Option, none, some, arith, Bool-cases, inl, inr, ap,
}
use csel_workspace.Prelude.Int.{pos, ==ℤ}
use csel_workspace.CharDriver.Init.{
  Kind, devices, buffers, buffer, cdev, node, InitEnv, release_from, alloc_buffers, DevicesEnd,
  all_added, cdev_failed, node_failed, add_devices, release_devices, free_all,
}
use csel_workspace.CharDriver.Tally.{
  at, within, within-empty, within-step, Tally, of_kind, Tally-append, Tally-nil, Tally-acquire,
  Tally-release, Tally-eq,
}

module _ (k : Kind) (j : ℕ) where
  pub within-next :
      (i rounds : ℕ) → at i j + within (i + 1) (i + 1 + rounds) j ≡ within i (i + suc rounds) j
  within-next i rounds = omega (
    arith,
    within-step i (i + suc rounds) j (omega arith),
    ap (λ b. within (i + 1) b j) (let e : i + 1 + rounds ≡ i + suc rounds = omega arith in e),
  )

  pub Tally-release_from :
      (kind : Kind) (rounds i : ℕ)
      → Tally k j (release_from kind rounds i) 0 (of_kind k j kind (within i (i + rounds) j))
  unfolding release_from
  Tally-release_from kind zero i =
      Tally-eq k j (Tally-nil k j) refl (ground (arith, within-empty i (i + 0) j))
  Tally-release_from kind (suc rounds) i =
      Tally-eq k j (Tally-release k j kind i (Tally-release_from kind rounds (i + 1))) refl
        (ground (arith, within-next i rounds))

  pub Tally-release_devices :
      (rounds i : ℕ)
      → Tally k j
          (release_devices rounds i)
          0
          (of_kind k j node (within i (i + rounds) j) + of_kind k j cdev (within i (i + rounds) j))
  unfolding release_devices
  Tally-release_devices zero i =
      Tally-eq k j (Tally-nil k j) refl (ground (arith, within-empty i (i + 0) j))
  Tally-release_devices (suc rounds) i =
      Tally-eq k j
        (Tally-release k j node i (Tally-release k j cdev i (Tally-release_devices rounds (i + 1))))
        refl (ground (arith, within-next i rounds))

  -- The three things of `free_all`.
  abbrev pub base : ℕ → ℕ
  base n =
      of_kind k j buffer (within 0 n j)
      + (of_kind k j buffers (at 0 j) + of_kind k j devices (at 0 j))

  pub Tally-free_all : (n : ℕ) → Tally k j (free_all n) 0 (base n)
  unfolding free_all
  Tally-free_all n =
      Tally-eq k j
        (Tally-append k j (Tally-release_from buffer n 0)
          (Tally-release k j buffers 0 (Tally-release k j devices 0 (Tally-nil k j))))
        refl
        (omega (
          arith,
          ap (λ b. of_kind k j buffer (within 0 b j)) (let e : 0 + n ≡ n = omega arith in e),
        ))

  -- Where the allocation of the buffers stops, and the loop over the devices.
  abbrev pub stop : ℕ → Option ℕ → ℕ
  stop n none = n
  stop n (some i) = i

  pub Tally-alloc_buffers :
      (env : InitEnv) (rounds i : ℕ)
      → let out = alloc_buffers env rounds i in
        Tally k j out.0 (of_kind k j buffer (within i (stop (i + rounds) out.1) j)) 0
        × (i ≤ stop (i + rounds) out.1)
  unfolding alloc_buffers
  Tally-alloc_buffers env zero i =
      (Tally-eq k j (Tally-nil k j) (ground (arith, within-empty i (i + 0) j)) refl, omega arith)
  Tally-alloc_buffers env (suc rounds) i =
      let rest = Tally-alloc_buffers env rounds (i + 1) in
      let low : i < stop (i + suc rounds) failed = omega (arith, rest.1, same_end) in
      elim (Bool-cases (env.buffer_ok i)) [
        | inl ok ↦ rw ok (
          Tally-eq k j (Tally-acquire k j buffer i rest.0)
              (ground (arith, within-step i (stop (i + suc rounds) failed) j low, same_stop)) refl,
          omega (arith, low),
        )
        | inr bad ↦
            rw bad
              (Tally-eq k j (Tally-nil k j) (ground (arith, within-empty i i j)) refl, omega arith)
      ]
    where
      failed : Option ℕ
      failed = (alloc_buffers env rounds (i + 1)).1

      same_end : stop (i + 1 + rounds) failed ≡ stop (i + suc rounds) failed
      same_end = ap (λ b. stop b failed) (omega arith)

      same_stop :
          within (i + 1) (stop (i + 1 + rounds) failed) j
          ≡ within (i + 1) (stop (i + suc rounds) failed) j
      same_stop = ap (λ b. within (i + 1) b j) same_end

  -- The devices that are complete when the loop ends, and the `cdev` that one failure leaves.
  abbrev pub full : ℕ → DevicesEnd → ℕ
  full n all_added = n
  full n (cdev_failed m s) = m
  full n (node_failed m) = m

  abbrev pub extra : DevicesEnd → ℕ
  extra (node_failed m) = at m j
  extra _ = 0

  pub Tally-add_devices :
      (env : InitEnv) (rounds i : ℕ)
      → let out = add_devices env rounds i in
        let m = full (i + rounds) out.1 in
        Tally k j out.0
          (of_kind k j node (within i m j) + of_kind k j cdev (within i m j + extra out.1))
          0
        × (i ≤ m)
  unfolding add_devices
  Tally-add_devices env zero i =
      (Tally-eq k j (Tally-nil k j) (ground (arith, within-empty i (i + 0) j)) refl, omega arith)
  Tally-add_devices env (suc rounds) i =
      let rest = Tally-add_devices env rounds (i + 1) in
      let low : i < full (i + suc rounds) end = omega (arith, rest.1, same_end) in
      elim (Bool-cases (==ℤ (env.cdev_status i) (pos 0))) [
        | inr bad ↦
            rw bad
              (Tally-eq k j (Tally-nil k j) (ground (arith, within-empty i i j)) refl, omega arith)
        | inl added ↦ elim (Bool-cases (env.node_ok i)) [
          | inr bad ↦
              rw (added, bad)
                (
                  Tally-eq k j (Tally-acquire k j cdev i (Tally-nil k j))
                      (ground (arith, within-empty i i j)) refl,
                  omega arith,
                )
          | inl ok ↦
              rw (added, ok)
                (
                  Tally-eq k j (Tally-acquire k j cdev i (Tally-acquire k j node i rest.0))
                      (ground (arith, within-step i (full (i + suc rounds) end) j low, same_full))
                      refl,
                  omega (arith, low),
                )
        ]
      ]
    where
      end : DevicesEnd
      end = (add_devices env rounds (i + 1)).1

      same_end : full (i + 1 + rounds) end ≡ full (i + suc rounds) end
      same_end = ap (λ b. full b end) (omega arith)

      same_full :
          within (i + 1) (full (i + 1 + rounds) end) j
          ≡ within (i + 1) (full (i + suc rounds) end) j
      same_full = ap (λ b. within (i + 1) b j) same_end

  -- The same from the first device on.
  pub Tally-release_all :
      (kind : Kind) (n : ℕ) → Tally k j (release_from kind n 0) 0 (of_kind k j kind (within 0 n j))
  Tally-release_all kind n = simp zero-add at (Tally-release_from kind n 0)

  pub Tally-release_all_devices :
      (n : ℕ)
      → Tally k j
          (release_devices n 0)
          0
          (of_kind k j node (within 0 n j) + of_kind k j cdev (within 0 n j))
  Tally-release_all_devices n = simp zero-add at (Tally-release_devices n 0)

  pub Tally-alloc_all :
      (env : InitEnv) (n : ℕ)
      → let out = alloc_buffers env n 0 in
        Tally k j out.0 (of_kind k j buffer (within 0 (stop n out.1) j)) 0
  Tally-alloc_all env n = simp zero-add at (Tally-alloc_buffers env n 0).0

  pub Tally-add_all :
      (env : InitEnv) (n : ℕ)
      → let out = add_devices env n 0 in
        let m = full n out.1 in
        Tally k j out.0
          (of_kind k j node (within 0 m j) + of_kind k j cdev (within 0 m j + extra out.1))
          0
  Tally-add_all env n = simp zero-add at (Tally-add_devices env n 0).0
