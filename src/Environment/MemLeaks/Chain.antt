-- ===== src/Environment/MemLeaks/Chain.antt =====
-- A list on the heap of mem_leaks.c, and what a change of one cell does to it.
use csel_workspace.Prelude.{
  ℕ, zero, suc, ◌<◌, ◌≡◌, refl, Bool, false, ◌||◌, Option, some, List, [], ◌∷◌, ◌++◌, length, ◌==◌,
  arith,
}
use csel_workspace.Environment.MemLeaks.{Alpha, Heap, set_cell, found, walk}

-- Elements in order, each with its address and its `attr`.
abbrev pub Elements : Type 0
Elements = List (ℕ × ℕ)

-- The address of the first element, or NULL.
abbrev pub head_of : Elements → ℕ
head_of [] = 0
head_of ((a, v) ∷ es) = a

abbrev pub has : ℕ → Elements → Bool
has b [] = false
has b ((a, v) ∷ es) = (b == a) || has b es

-- The heap holds the elements, linked in order, at distinct addresses.
abbrev pub Cells : Heap → Elements → Type 0
Cells h [] = Unit
Cells h ((a, v) ∷ es) =
    (0 < a)
    × (h a ≡ some (record { attr = v; next = head_of es }))
    × (has a es ≡ false)
    × Cells h es

abbrev pub last_of : ℕ × ℕ → Elements → ℕ × ℕ
last_of e [] = e
last_of e (e' ∷ es) = last_of e' es

-- A cell that is not in the list may change.
pub Cells-set :
    (h : Heap) (b : ℕ) (cell : Option Alpha) (es : Elements)
    → has b es ≡ false
    → Cells h es
    → Cells (set_cell h b cell) es
Cells-set h b cell [] n c = tt
Cells-set h b cell ((a, v) ∷ es) n (p, here, fresh, c) =
    (p, ground (arith, n, here), fresh, Cells-set h b cell es (ground (arith, n)) c)

-- The walk from the first element ends at the last one, with fuel for as many as there are.
pub walk_last :
    (fuel : ℕ) (h : Heap) (a v : ℕ) (es : Elements)
    → length es < fuel
    → Cells h ((a, v) ∷ es)
    → walk fuel h a ≡ found (last_of (a, v) es).0
unfolding walk
walk_last zero h a v es l c = absurd (omega arith)
walk_last (suc fuel) h a v [] l c = ground (arith, c.1)
walk_last (suc fuel) h a v ((b, w) ∷ es) l c =
    ground (arith, c.1, c.3.0, walk_last fuel h b w es (omega (arith, l)) c.3)

-- The heap after `link` of the last element to a new one.
abbrev pub linked : Heap → ℕ × ℕ → ℕ → Heap
linked h e ele = set_cell h e.0 (some (record { attr = e.1; next = ele }))

pub last_cell :
    (h : Heap) (a v : ℕ) (es : Elements)
    → Cells h ((a, v) ∷ es)
    → h (last_of (a, v) es).0 ≡ some (record { attr = (last_of (a, v) es).1; next = 0 })
last_cell h a v [] c = c.1
last_cell h a v ((b, u) ∷ es) c = last_cell h b u es c.3

pub has-last :
    (b : ℕ) (e : ℕ × ℕ) (es : Elements) → has b (e ∷ es) ≡ false → (b == (last_of e es).0) ≡ false
has-last b e [] n = ground (arith, n)
has-last b e (e' ∷ es) n = has-last b e' es (ground (arith, n))

pub has-append : (b : ℕ) (xs ys : Elements) → has b (xs ++ ys) ≡ (has b xs || has b ys)
has-append b [] ys = refl
has-append b ((a, v) ∷ xs) ys = ground (arith, has-append b xs ys)

-- Linking the last element to a new one, whose own cell is there, appends it.
pub Cells-link :
    (h : Heap) (a v : ℕ) (es : Elements) (ele w : ℕ)
    → 0 < ele
    → h ele ≡ some (record { attr = w; next = 0 })
    → has ele ((a, v) ∷ es) ≡ false
    → Cells h ((a, v) ∷ es)
    → Cells (linked h (last_of (a, v) es) ele) ((a, v) ∷ (es ++ ((ele, w) ∷ [])))
Cells-link h a v [] ele w p new n c =
    (c.0, ground (arith), ground (arith, n), (p, ground (arith, n, new), refl, tt))
Cells-link h a v ((b, u) ∷ es) ele w p new n c =
    let rest = Cells-link h b u es ele w p new (ground (arith, n)) c.3 in
    (
      c.0,
      ground (arith, has-last a (b, u) es c.2, c.1),
      ground (arith, n, c.2, has-append a es ((ele, w) ∷ [])),
      rest,
    )
