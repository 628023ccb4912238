-- ===== src/PlatformDriver/Probe/Leak.antt =====
-- Which devices of the children are left when the platform driver is removed.
use csel_workspace.Prelude.{
  ℕ, ◌+◌, ◌-◌, ◌<◌, ◌≡◌, refl, ap, ◌∙◌, Bool, true, false, ◌&&◌, Option, none, some, List, [], ◌∷◌,
  ◌==◌, ltb, leb, length, if◌then◌else◌, arith,
}
use csel_workspace.Prelude.Ledger.{Op, acquire, release, acquired, released}
use csel_workspace.PlatformDriver.Probe.{
  Resource, misc, attribute, Child, zero_status, probe_children, drv_probe, drv_remove,
}

-- Whether a call picks the device of the `j`-th child.
abbrev pub is_misc : ℕ → Resource → Bool
is_misc j (misc i) = i == j
is_misc j (attribute i) = false

-- Whether the kernel grants everything to every child.
abbrev pub granted : List Child → Bool
granted [] = true
granted (c ∷ children) =
    (c.alloc_ok && (zero_status c.register_status && zero_status c.create_status))
    && granted children

first_of : (a b : Bool) → (a && b) ≡ true → a ≡ true
first_of a b h = ground (arith, h)

second_of : (a b : Bool) → (a && b) ≡ true → b ≡ true
second_of a b h = ground (arith, h)

probe_step :
    (i : ℕ) (d : Option ℕ) (c : Child) (children : List Child)
    → granted (c ∷ children) ≡ true
    → (granted children ≡ true)
      × (probe_children i d (c ∷ children) ≡ record (probe_children (i + 1) (some i) children) {
        ops =
            acquire (misc i)
            ∷ acquire (attribute i)
            ∷ (probe_children (i + 1) (some i) children).ops;
      })
unfolding probe_children
probe_step i d c children g =
    let a : c.alloc_ok ≡ true = first_of _ _ (first_of _ _ g) in
    let r : zero_status c.register_status ≡ true =
      first_of _ _ (second_of c.alloc_ok _ (first_of _ _ g)) in
    let f : zero_status c.create_status ≡ true =
      second_of _ _ (second_of c.alloc_ok _ (first_of _ _ g)) in
    (second_of _ _ g, simp (a, r, f) refl)

registered :
    (i : ℕ) (d : Option ℕ) (children : List Child) (j : ℕ)
    → granted children ≡ true
    → acquired (is_misc j) (probe_children i d children).ops
      ≡ (if leb i j && ltb j (i + length children) then 1 else 0)
unfolding probe_children acquired
registered i d [] j g = ground arith
registered i d (c ∷ children) j g =
    let (more, e) = probe_step i d c children g in
    ap (λ p. acquired (is_misc j) p.ops) e
    ∙ ground (arith, registered (i + 1) (some i) children j more)

last_set :
    (i : ℕ) (d : Option ℕ) (children : List Child)
    → granted children ≡ true
    → (probe_children i d children).drvdata
      ≡ (if length children == 0 then d else some (i + length children - 1))
unfolding probe_children
last_set i d [] g = refl
last_set i d (c ∷ children) g =
    let (more, e) = probe_step i d c children g in
    ap (λ p. p.drvdata) e ∙ ground (arith, last_set (i + 1) (some i) children more)

-- When the kernel grants everything and the node has children: the probe registers a device for each
-- of them, and the remove deregisters that of the last child and no other; those before it stay
-- registered.
pub remove_leaves :
    (children : List Child) (j : ℕ)
    → granted children ≡ true
    → 0 < length children
    → (calls : List (Op Resource)) × (drv_remove (drv_probe children).drvdata ≡ some calls)
      × (acquired (is_misc j) (drv_probe children).ops ≡ (if ltb j (length children) then 1 else 0))
      × (released (is_misc j) calls ≡ (if j == length children - 1 then 1 else 0))
unfolding drv_probe drv_remove released
remove_leaves children j g h =
    let last : (probe_children 0 none children).drvdata ≡ some (length children - 1) =
      ground (arith, last_set 0 none children g, h) in
    (
      release (misc (length children - 1)) ∷ release (attribute (length children - 1)) ∷ [],
      ap drv_remove last,
      registered 0 none children j g ∙ ground arith,
      ground arith,
    )
