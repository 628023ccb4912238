-- ===== src/Environment/MemLeaks/Queue.antt =====
-- The list of mem_leaks.c as a queue: what `alloc` and `dealloc` do to the elements.
use mathlib.Core.Path.{subst}
use csel_workspace.Prelude.{
  ℕ, ◌+◌, ◌/◌, ◌%◌, ◌≤◌, ◌<◌, ◌≡◌, refl, ap, ◌∙◌, true, false, none, some, [], ◌∷◌, ◌++◌, length,
  ◌==◌, arith, Bool-cases, inl, inr,
}
use csel_workspace.Environment.MemLeaks.{
  Heap, set_cell, link, attach, State, new_element, alloc1, alloc2, alloc, dealloc,
}
use csel_workspace.Environment.MemLeaks.Chain.{
  Elements, head_of, has, Cells, last_of, Cells-set, linked, has-last, last_cell, walk_last,
  Cells-link, has-append,
}

-- The state holds these elements: the root points at them, they are linked on the heap, and nothing
-- else is allocated.
pub record Holds (s : State) (es : Elements) : Type 0 where
  pub at_root : s.root ≡ head_of es
  pub linked : Cells s.heap es
  pub only : (b : ℕ) → has b es ≡ false → s.heap b ≡ none

-- An element that `new_element` has made, attached at the end.
attach_lem :
    (fuel : ℕ) (h : Heap) (es : Elements) (ele w : ℕ)
    → length es ≤ fuel
    → 0 < ele
    → h ele ≡ none
    → Cells h es
    → has ele es ≡ false
    → (h' : Heap) × (attach fuel
          (set_cell h ele (some (record { attr = w; next = 0 })))
          (head_of es)
          ele
        ≡ some (head_of (es ++ ((ele, w) ∷ [])), h'))
      × Cells h' (es ++ ((ele, w) ∷ []))
      × ((b : ℕ) → has b es ≡ false → (b == ele) ≡ false → h' b ≡ h b)
unfolding attach link
attach_lem fuel h [] ele w l p n c new =
    (_, refl, (p, ground arith, refl, tt), λ b m d. ground (arith, d))
attach_lem fuel h ((a, v) ∷ es) ele w l p n c new =
    let h1 = set_cell h ele (some (record { attr = w; next = 0 })) in
    let c1 = Cells-set h ele (some (record { attr = w; next = 0 })) ((a, v) ∷ es) new c in
    let last = last_of (a, v) es in
    (
      linked h1 last ele,
      ground (arith, c1.0, walk_last fuel h1 a v es l c1, last_cell h1 a v es c1),
      Cells-link h1 a v es ele w p (ground arith) new c1,
      λ b m d. ground (arith, d, has-last b (a, v) es m),
    )

-- The state after an element was attached, whichever counter numbered it.
attached :
    (fuel w : ℕ) (s : State) (es : Elements) (ele : ℕ)
    → length es ≤ fuel
    → 0 < ele
    → has ele es ≡ false
    → Holds s es
    → (h' : Heap) × (attach fuel
          (set_cell s.heap ele (some (record { attr = w; next = 0 })))
          s.root
          ele
        ≡ some (head_of (es ++ ((ele, w) ∷ [])), h'))
      × ((c1 c2 x : ℕ)
          → Holds
              (record {
                root = head_of (es ++ ((ele, w) ∷ []));
                heap = h';
                cnt1 = c1;
                cnt2 = c2;
                x = x;
              })
              (es ++ ((ele, w) ∷ [])))
attached fuel w s es ele l p new h =
    let (h', e, c, kept) = attach_lem fuel s.heap es ele w l p (h.only ele new) h.linked new in
    (
      h',
      ap (λ r. attach fuel (set_cell s.heap ele (some (record { attr = w; next = 0 }))) r ele)
            h.at_root
          ∙ e,
      λ c1 c2 x. record {
        at_root = refl;
        linked = c;
        only = λ b m. ground (
          arith,
          m,
          has-append b es ((ele, w) ∷ []),
          kept b (ground (arith, m, has-append b es ((ele, w) ∷ []))),
          h.only b,
        );
      },
    )

-- The static variables after `n` calls of `alloc`.
pub record Counted (n : ℕ) (s : State) : Type 0 where
  pub turn : s.x ≡ n % 2
  pub first : s.cnt1 ≡ (n + 1) / 2
  pub second : s.cnt2 ≡ n / 2

zero_of : (c : ℕ) → (c == 0) ≡ true → c ≡ 0
zero_of c e = ground arith

nonzero_of : (c : ℕ) → (c == 0) ≡ false → 0 < c
nonzero_of c e = ground arith

-- `alloc` appends the new element, numbered by half the number of calls so far.
pub alloc-Holds :
    (fuel n : ℕ) (s : State) (es : Elements) (ele : ℕ)
    → length es ≤ fuel
    → 0 < ele
    → has ele es ≡ false
    → Counted n s
    → Holds s es
    → (s' : State) × (alloc fuel ele s ≡ some s')
      × Holds s' (es ++ ((ele, n / 2) ∷ []))
      × Counted (n + 1) s'
unfolding alloc alloc1 alloc2 new_element
alloc-Holds fuel n s es ele l p new t h = elim (Bool-cases (s.x == 0)) [
  | inl even ↦
      let (h', e, holds) = attached fuel s.cnt1 s es ele l p new h in
      let s' : State = record {
        root = head_of (es ++ ((ele, s.cnt1) ∷ []));
        heap = h';
        cnt1 = s.cnt1 + 1;
        cnt2 = s.cnt2;
        x = (s.x + 1) % 2;
      } in
      let same : s.cnt1 ≡ n / 2 = omega (arith, t.turn, t.first, t.second, zero_of s.x even) in
      (
        s',
        ground (arith, e, even, p),
        subst (λ w. Holds s' (es ++ ((ele, w) ∷ []))) same
            (holds (s.cnt1 + 1) (s.cnt2) ((s.x + 1) % 2)),
        record {
          turn = omega (arith, t.turn);
          first = omega (arith, t.turn, t.first, zero_of s.x even);
          second = omega (arith, t.turn, t.second, zero_of s.x even);
        },
      )
  | inr odd ↦
      let (h', e, holds) = attached fuel s.cnt2 s es ele l p new h in
      let s' : State = record {
        root = head_of (es ++ ((ele, s.cnt2) ∷ []));
        heap = h';
        cnt1 = s.cnt1;
        cnt2 = s.cnt2 + 1;
        x = (s.x + 1) % 2;
      } in
      let same : s.cnt2 ≡ n / 2 = omega (arith, t.turn, t.first, t.second, nonzero_of s.x odd) in
      (
        s',
        ground (arith, e, odd, p),
        subst (λ w. Holds s' (es ++ ((ele, w) ∷ []))) same
            (holds (s.cnt1) (s.cnt2 + 1) ((s.x + 1) % 2)),
        record {
          turn = omega (arith, t.turn);
          first = omega (arith, t.turn, t.first, nonzero_of s.x odd);
          second = omega (arith, t.turn, t.second, nonzero_of s.x odd);
        },
      )
]

pub dealloc-Holds :
    (s : State) (a v : ℕ) (es : Elements)
    → Holds s ((a, v) ∷ es)
    → (s' : State) × (dealloc s ≡ some s') × Holds s' es
unfolding dealloc
dealloc-Holds s a v es h = (
  record s { root = head_of es; heap = set_cell s.heap a none },
  ground (arith, h.at_root, h.linked.0, h.linked.1),
  record {
    at_root = refl;
    linked = Cells-set s.heap a none es h.linked.2 h.linked.3;
    only = λ b m. ground (arith, m, h.only b);
  },
)

pub dealloc-empty : (s : State) → Holds s [] → dealloc s ≡ some s
unfolding dealloc
dealloc-empty s h = ground (arith, h.at_root)
