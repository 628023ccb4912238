-- ===== src/KernelModules/Elements.antt =====
-- src/02_modules/exercice04/skeleton.c: a list of elements allocated at load time.
use csel_workspace.Prelude.{
  ℕ, zero, suc, ◌+◌, ◌≡◌, refl, Bool, false, Option, none, some, List, [], ◌∷◌, ◌++◌, ◌==◌,
  if◌then◌else◌, arith, Bool-cases, inl, inr,
}
use csel_workspace.Prelude.Int.{ℤ, pos, negsuc}
use csel_workspace.Prelude.Ledger.{
  Op, acquire, release, acquired, released, acquired-append, released-append,
}

-- `struct element`; the text is a copy with its NUL, or NULL.
pub record Element : Type 0 where
  pub id : ℕ
  pub text : Option (List ℕ)

-- The two allocations for each element.
pub data Resource : Type 0 where
  element text : ℕ → Resource

abbrev pub same : Resource → Resource → Bool
same (element i) (element j) = i == j
same (text i) (text j) = i == j
same _ _ = false

-- Whether the two allocations for each element succeed.
pub record Env : Type 0 where
  pub element_ok : ℕ → Bool
  pub text_ok : ℕ → Bool

-- One round of the loop: the element that `list_add_tail` appends, if any.
unfoldable pub make_element : Env → List ℕ → ℕ → List Element × List (Op Resource)
make_element env txt i =
    if env.element_ok i
    then (if env.text_ok i
        then (
          record { id = i; text = some (txt ++ (0 ∷ [])) } ∷ [],
          acquire (element i) ∷ acquire (text i) ∷ [],
        )
        else (record { id = i; text = none } ∷ [], acquire (element i) ∷ []))
    else ([], [])

unfoldable pub make_elements : Env → List ℕ → ℕ → ℕ → List Element × List (Op Resource)
make_elements env txt zero i = ([], [])
make_elements env txt (suc rounds) i =
    let (one, ops) = make_element env txt i in
    let (others, more) = make_elements env txt rounds (i + 1) in (one ++ others, ops ++ more)

-- `skeleton_init` for `elements`, which always returns 0: the list and the allocations made.
unfoldable pub skeleton_init : Env → List ℕ → ℤ → List Element × List (Op Resource)
skeleton_init env txt (pos n) = make_elements env txt n 0
skeleton_init env txt (negsuc n) = ([], [])

-- `skeleton_exit`: `kfree` of a NULL text does nothing.
abbrev free_text : ℕ → Option (List ℕ) → List (Op Resource)
free_text i none = []
free_text i (some txt) = release (text i) ∷ []

unfoldable pub delete_element : Element → List (Op Resource)
delete_element el = free_text el.id el.text ++ (release (element el.id) ∷ [])

unfoldable pub skeleton_exit : List Element → List (Op Resource)
skeleton_exit [] = []
skeleton_exit (el ∷ els) = delete_element el ++ skeleton_exit els

skeleton_exit-append :
    (r : Resource) (xs ys : List Element)
    → released (same r) (skeleton_exit (xs ++ ys))
      ≡ released (same r) (skeleton_exit xs) + released (same r) (skeleton_exit ys)
unfolding skeleton_exit released
skeleton_exit-append r [] ys = omega arith
skeleton_exit-append r (x ∷ xs) ys = omega (
  arith,
  skeleton_exit-append r xs ys,
  released-append (same r) (delete_element x) (skeleton_exit (xs ++ ys)),
  released-append (same r) (delete_element x) (skeleton_exit xs),
)

make_element_balance :
    (env : Env) (txt : List ℕ) (i : ℕ) (r : Resource)
    → acquired (same r) (make_element env txt i).1
      ≡ released (same r) (skeleton_exit (make_element env txt i).0)
unfolding make_element skeleton_exit delete_element acquired released
make_element_balance env txt i r = elim (Bool-cases (env.element_ok i)) [
  | inr bad ↦ simp bad refl
  | inl there ↦ elim (Bool-cases (env.text_ok i)) [
    | inr bad ↦ simp (there, bad) (omega arith)
    | inl ok ↦ simp (there, ok) (omega arith)
  ]
]

make_elements_balance :
    (env : Env) (txt : List ℕ) (rounds i : ℕ) (r : Resource)
    → acquired (same r) (make_elements env txt rounds i).1
      ≡ released (same r) (skeleton_exit (make_elements env txt rounds i).0)
unfolding make_elements skeleton_exit acquired released
make_elements_balance env txt zero i r = refl
make_elements_balance env txt (suc rounds) i r = omega (
  arith,
  acquired-append (same r) (make_element env txt i).1 (make_elements env txt rounds (i + 1)).1,
  skeleton_exit-append r (make_element env txt i).0 (make_elements env txt rounds (i + 1)).0,
  make_element_balance env txt i r,
  make_elements_balance env txt rounds (i + 1) r,
)

-- For every number of elements, positive or not, every text, and every outcome of the allocations:
-- of each element and each text the module allocates at load time, the exit frees as many as were
-- allocated, and it frees nothing else.
pub unload_balance :
    (env : Env) (txt : List ℕ) (elements : ℤ) (r : Resource)
    → acquired (same r) (skeleton_init env txt elements).1
      ≡ released (same r) (skeleton_exit (skeleton_init env txt elements).0)
unfolding skeleton_init skeleton_exit acquired released
unload_balance env txt (pos n) r = make_elements_balance env txt n 0 r
unload_balance env txt (negsuc n) r = refl
