-- ===== src/Environment/MemLeaks/Run.antt =====
-- What `main` of mem_leaks.c prints, and what is still allocated when it returns.
use mathlib.Core.Path.{subst}
use mathlib.Core.List.{append_assoc, append-nil}
use csel_workspace.Prelude.{
  ℕ, zero, suc, ◌+◌, ◌-◌, ◌/◌, ◌≤◌, ◌<◌, ◌≡◌, refl, sym, ap, ◌∙◌, false, some, List, [], ◌∷◌, ◌++◌,
  length, length-append, length-drop, drop, arith,
}
use csel_workspace.Environment.MemLeaks.{Heap, State, allocs, deallocs, initial, main, visit}
use csel_workspace.Environment.MemLeaks.Chain.{Elements, head_of, has, Cells}
use csel_workspace.Environment.MemLeaks.Queue.{
  Holds, Counted, alloc-Holds, dealloc-Holds, dealloc-empty,
}

-- The elements that the calls of `alloc` after the first `n` make.
abbrev pub numbered : ℕ → List ℕ → Elements
numbered n [] = []
numbered n (ele ∷ eles) = (ele, n / 2) ∷ numbered (n + 1) eles

-- What `malloc` does: each address that it brings is not NULL and not in use.
abbrev pub Unused : ℕ → Elements → List ℕ → Type 0
Unused n es [] = Unit
Unused n es (ele ∷ eles) =
    (0 < ele) × (has ele es ≡ false) × Unused (n + 1) (es ++ ((ele, n / 2) ∷ [])) eles

allocs-Holds :
    (fuel n : ℕ) (s : State) (es : Elements) (eles : List ℕ)
    → length es + length eles ≤ fuel
    → Unused n es eles
    → Counted n s
    → Holds s es
    → (s' : State) × (allocs fuel eles s ≡ some s') × Holds s' (es ++ numbered n eles)
unfolding allocs
allocs-Holds fuel n s es [] l u t h = (s, refl, subst (Holds s) (sym (append-nil es)) h)
allocs-Holds fuel n s es (ele ∷ eles) l (p, new, u) t h =
    let (s1, e1, h1, t1) = alloc-Holds fuel n s es ele (omega (arith, l)) p new t h in
    let (s2, e2, h2) =
      allocs-Holds fuel (n + 1) s1 (es ++ ((ele, n / 2) ∷ [])) eles
        (omega (arith, l, length-append es ((ele, n / 2) ∷ []))) u t1 h1 in
    (s2, ground (arith, e1, e2), subst (Holds s2) (append_assoc es _ _) h2)

deallocs-Holds :
    (k : ℕ) (s : State) (es : Elements)
    → Holds s es
    → (s' : State) × (deallocs k s ≡ some s') × Holds s' (drop k es)
unfolding deallocs
deallocs-Holds zero s es h = (s, refl, h)
deallocs-Holds (suc k) s [] h =
    let (s', e, h') = deallocs-Holds k s [] h in
    (s', ground (arith, dealloc-empty s h, e), subst (Holds s') (drop-nil k) h')
  where
    drop-nil : (k : ℕ) → drop {A = ℕ × ℕ} k [] ≡ []
    drop-nil zero = refl
    drop-nil (suc k) = refl
deallocs-Holds (suc k) s ((a, v) ∷ es) h =
    let (s1, e1, h1) = dealloc-Holds s a v es h in
    let (s2, e2, h2) = deallocs-Holds k s1 es h1 in (s2, ground (arith, e1, e2), h2)

length-numbered : (n : ℕ) (eles : List ℕ) → length (numbered n eles) ≡ length eles
length-numbered n [] = refl
length-numbered n (ele ∷ eles) = ap suc (length-numbered (n + 1) eles)

-- The attributes of elements.
abbrev pub attrs_of : Elements → List ℕ
attrs_of [] = []
attrs_of ((a, v) ∷ es) = v ∷ attrs_of es

visit_lem :
    (fuel : ℕ) (h : Heap) (es : Elements)
    → length es ≤ fuel
    → Cells h es
    → visit fuel h (head_of es) ≡ some (attrs_of es)
unfolding visit
visit_lem zero h [] l c = refl
visit_lem zero h ((a, v) ∷ es) l c = absurd (omega (arith, l))
visit_lem (suc fuel) h [] l c = refl
visit_lem (suc fuel) h ((a, v) ∷ es) l c =
    ground (arith, c.0, c.1, visit_lem fuel h es (omega (arith, l)) c.3)

-- When `malloc` brings addresses that are not NULL and not in use, and the fuel is the number of
-- allocations at least: `main` makes no fault and ends. It prints the attributes 0, 0, 1, 1, 2, 2 and
-- so on, one for each allocation. What is still allocated at its end is the list without its first
-- `k` elements, in the order of allocation, linked from the root, and nothing else; these are as many
-- elements as there were more allocations than releases.
pub main-Holds :
    (fuel : ℕ) (eles : List ℕ) (k : ℕ)
    → length eles ≤ fuel
    → Unused 0 [] eles
    → (s : State) × (main fuel eles k ≡ some (attrs_of (numbered 0 eles), s))
      × Holds s (drop k (numbered 0 eles))
      × (length (drop k (numbered 0 eles)) ≡ length eles - k)
unfolding main
main-Holds fuel eles k l u =
    let start : Holds initial [] = record { at_root = refl; linked = tt; only = λ b m. refl } in
    let count : Counted 0 initial = record { turn = refl; first = refl; second = refl } in
    let (s1, e1, h1) = allocs-Holds fuel 0 initial [] eles (omega (arith, l)) u count start in
    let seen : visit fuel s1.heap s1.root ≡ some (attrs_of (numbered 0 eles)) =
      ap (visit fuel s1.heap) h1.at_root
      ∙ visit_lem fuel s1.heap (numbered 0 eles) (omega (arith, l, length-numbered 0 eles))
          h1.linked in
    let (s2, e2, h2) = deallocs-Holds k s1 (numbered 0 eles) h1 in
    (
      s2,
      rw (main, e1, seen, e2) refl,
      h2,
      omega (arith, length-drop k (numbered 0 eles), length-numbered 0 eles),
    )
