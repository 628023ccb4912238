-- ===== src/ConfigDriver/Setup/Balance.antt =====
-- What the set-up of the configuration driver holds, and what its error path and exit release.
use mathlib.Core.Path.{subst}
use csel_workspace.Prelude.{
  ℕ, zero, suc, ◌+◌, ◌≤◌, ◌<◌, ◌≡◌, ◌≢◌, refl, sym, ap, ap₂, ◌∙◌, false, List, [], ◌∷◌, ◌++◌, leb,
  arith, Option-cases, inl, inr, ◌⊎◌,
}
use csel_workspace.Prelude.Int.{zero_cases, ℤ, pos, negsuc, ==ℤ}
use csel_workspace.Prelude.Ledger.{Op, acquire, acquired, released}
use csel_workspace.ConfigDriver.Setup.{
  Resource, region, cdev, class, device, data_file, cfg_file, same, InitEnv, Progress, attempt,
  if_good, create_class, create_device, create_files, add_cdev, cleanup, finish, skeleton_init,
  skeleton_exit,
}

-- What the error path may release without the module having it.
abbrev pub spurious : Resource → ℕ
spurious class = 0
spurious device = 0
spurious _ = 1

-- The order in which the resources are acquired.
abbrev nth : ℕ → Resource
nth zero = region
nth (suc zero) = cdev
nth (suc (suc zero)) = class
nth (suc (suc (suc zero))) = device
nth (suc (suc (suc (suc zero)))) = data_file
nth (suc (suc (suc (suc (suc k))))) = cfg_file

abbrev first : ℕ → List (Op Resource)
first zero = []
first (suc k) = first k ++ (acquire (nth k) ∷ [])

-- The set-up with the first `k` resources and this status.
abbrev stuck : ℕ → ℤ → Progress
stuck k s = record { status = s; has_class = leb 3 k; has_device = leb 4 k; calls = first k }

-- Either all went well up to `k` resources, or a step failed before the sixth.
abbrev Progressed : ℕ → Progress → Type 0
Progressed k p =
    (p ≡ stuck k (pos 0))
    ⊎ ((m : ℕ) × (s : ℤ) × (m < 6) × (==ℤ s (pos 0) ≡ false) × (p ≡ stuck m s))

-- A step that does nothing after a failure.
abbrev Skips : (Progress → Progress) → Type 0
Skips f = (m : ℕ) (s : ℤ) → ==ℤ s (pos 0) ≡ false → f (stuck m s) ≡ stuck m s

advance :
    (f : Progress → Progress) (k k' : ℕ) (p : Progress)
    → Skips f
    → Progressed k' (f (stuck k (pos 0)))
    → Progressed k p
    → Progressed k' (f p)
advance f k k' p skips next (inl e) = subst (λ q. Progressed k' (f q)) (sym e) next
advance f k k' p skips next (inr (m, s, l, b, e)) = inr (m, s, l, b, ap f e ∙ skips m s b)

module _ (env : InitEnv) where
  region_first : Progressed 1 (attempt (stuck 0 (pos 0)) region env.region_status)
  region_first = elim (zero_cases env.region_status) [
    | inl ok ↦ inl (ap (λ s. attempt (stuck 0 (pos 0)) region s) ok)
    | inr (bad, n) ↦ inr (0, env.region_status, omega arith, bad, simp bad refl)
  ]

  add_cdev-Skips : Skips (add_cdev env)
  unfolding add_cdev
  add_cdev-Skips m s b = simp b refl

  add_cdev-Progressed : Progressed 2 (add_cdev env (stuck 1 (pos 0)))
  unfolding add_cdev
  add_cdev-Progressed = elim (zero_cases env.cdev_status) [
    | inl ok ↦ inl (ap (λ s. attempt (stuck 1 (pos 0)) cdev s) ok)
    | inr (bad, n) ↦ inr (1, env.cdev_status, omega arith, bad, simp bad refl)
  ]

  create_class-Skips : Skips (create_class env)
  unfolding create_class
  create_class-Skips m s b = simp b refl

  create_class-Progressed : Progressed 3 (create_class env (stuck 2 (pos 0)))
  unfolding create_class
  create_class-Progressed = elim (Option-cases env.class_error) [
    | inl ok ↦ inl (simp ok refl)
    | inr (e, bad) ↦ inr (2, negsuc e, omega arith, refl, simp bad refl)
  ]

  create_device-Skips : Skips (create_device env)
  unfolding create_device
  create_device-Skips m s b = simp b refl

  create_device-Progressed : Progressed 4 (create_device env (stuck 3 (pos 0)))
  unfolding create_device
  create_device-Progressed = elim (Option-cases env.device_error) [
    | inl ok ↦ inl (simp ok refl)
    | inr (e, bad) ↦ inr (3, negsuc e, omega arith, refl, simp bad refl)
  ]

  create_files-Skips : Skips (create_files env)
  unfolding create_files
  create_files-Skips m s b = simp b refl

  create_files-Progressed : Progressed 6 (create_files env (stuck 4 (pos 0)))
  unfolding create_files
  create_files-Progressed = elim (zero_cases env.data_status) [
    | inr (bad, n) ↦ inr (4, env.data_status, omega arith, bad, simp bad refl)
    | inl ok ↦ elim (zero_cases env.cfg_status) [
      | inr (bad, n) ↦ inr (5, env.cfg_status, omega arith, bad, both env.data_status ok bad)
      | inl all ↦ inl (ap₂ files ok all)
    ]
  ]
    where
      files : ℤ → ℤ → Progress
      files d c =
          if_good (attempt (stuck 4 (pos 0)) data_file d)
            (attempt (attempt (stuck 4 (pos 0)) data_file d) cfg_file c)

      both :
          (d : ℤ)
          → d ≡ pos 0
          → ==ℤ env.cfg_status (pos 0) ≡ false
          → files d env.cfg_status ≡ stuck 5 env.cfg_status
      both d ok bad = ap (λ x. files x env.cfg_status) ok ∙ simp bad refl

abbrev Balanced : Resource → Progress → Type 0
Balanced r p =
    ((p.status ≡ pos 0)
      × (acquired (same r) p.calls ≡ 1)
      × (released (same r) p.calls ≡ 0)
      × (released (same r) (skeleton_exit p) ≡ 1))
    ⊎ ((p.status ≢ pos 0)
        × (acquired (same r) p.calls ≤ released (same r) p.calls)
        × (released (same r) p.calls ≤ acquired (same r) p.calls + spurious r))

full-Balanced : (r : Resource) → Balanced r (finish (stuck 6 (pos 0)))
unfolding finish skeleton_exit acquired released
full-Balanced region = inl (refl, refl, refl, refl)
full-Balanced cdev = inl (refl, refl, refl, refl)
full-Balanced class = inl (refl, refl, refl, refl)
full-Balanced device = inl (refl, refl, refl, refl)
full-Balanced data_file = inl (refl, refl, refl, refl)
full-Balanced cfg_file = inl (refl, refl, refl, refl)

failed : (s : ℤ) → ==ℤ s (pos 0) ≡ false → s ≢ pos 0
failed s b e = ground (arith, ap (λ z. ==ℤ z (pos 0)) e)

stuck-Balanced :
    (r : Resource) (m : ℕ) (s : ℤ) → m < 6 → ==ℤ s (pos 0) ≡ false → Balanced r (finish (stuck m s))
unfolding finish cleanup acquired released
stuck-Balanced r zero s l b = simp b (inr (failed s b, ground arith, ground arith))
stuck-Balanced r (suc zero) s l b = simp b (inr (failed s b, ground arith, ground arith))
stuck-Balanced r (suc (suc zero)) s l b = simp b (inr (failed s b, ground arith, ground arith))
stuck-Balanced r (suc (suc (suc zero))) s l b =
    simp b (inr (failed s b, ground arith, ground arith))
stuck-Balanced r (suc (suc (suc (suc zero)))) s l b =
    simp b (inr (failed s b, ground arith, ground arith))
stuck-Balanced r (suc (suc (suc (suc (suc zero))))) s l b =
    simp b (inr (failed s b, ground arith, ground arith))
stuck-Balanced r (suc (suc (suc (suc (suc (suc m)))))) s l b = absurd (omega arith)

settled : (r : Resource) (p : Progress) → Progressed 6 p → Balanced r (finish p)
settled r p (inl e) = subst (λ q. Balanced r (finish q)) (sym e) (full-Balanced r)
settled r p (inr (m, s, l, b, e)) =
    subst (λ q. Balanced r (finish q)) (sym e) (stuck-Balanced r m s l b)

-- Whatever the kernel answers: either `skeleton_init` returns 0, holds each resource once and has
-- released none, and `skeleton_exit` then releases each once; or it returns an error, and has
-- released each resource at least as often as acquired, exactly as often for the class and the
-- device, and for the others at most once more.
pub setup_balance :
    (env : InitEnv) (r : Resource)
    → let p = skeleton_init env in
      ((p.status ≡ pos 0)
        × (acquired (same r) p.calls ≡ 1)
        × (released (same r) p.calls ≡ 0)
        × (released (same r) (skeleton_exit p) ≡ 1))
      ⊎ ((p.status ≢ pos 0)
          × (acquired (same r) p.calls ≤ released (same r) p.calls)
          × (released (same r) p.calls ≤ acquired (same r) p.calls + spurious r))
unfolding skeleton_init
setup_balance env r = settled r _ (
    advance (create_files env) 4 6 _ (create_files-Skips env) (create_files-Progressed env) (
      advance (create_device env) 3 4 _ (create_device-Skips env) (create_device-Progressed env) (
        advance (create_class env) 2 3 _ (create_class-Skips env) (create_class-Progressed env) (
          advance (add_cdev env) 1 2 _ (add_cdev-Skips env) (add_cdev-Progressed env)
            (region_first env)))))
