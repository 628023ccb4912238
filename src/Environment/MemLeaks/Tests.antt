-- ===== src/Environment/MemLeaks/Tests.antt =====
-- A run of mem_leaks.c, and an example of its theorem.
use csel_workspace.Prelude.{
  ◌≡◌, refl, Option, none, some, List, [], ◌∷◌, ◌++◌, length, drop, arith, ℕ,
}
use csel_workspace.Environment.MemLeaks.{
  visit, walk, link, attach, State, new_element, alloc1, alloc2, alloc, dealloc, allocs, deallocs,
  main,
}
use csel_workspace.Environment.MemLeaks.Queue.{Holds}
use csel_workspace.Environment.MemLeaks.Run.{numbered, main-Holds}

-- The attributes that are on the heap at three addresses, and the root.
abbrev summary : Option (List ℕ × State) → List ℕ
summary none = []
summary (some (attrs, s)) = attrs ++ s.root ∷ attr 10 ++ attr 20 ++ attr 30
  where
    attr : ℕ → List ℕ
    attr a = elim (s.heap a) [ none ↦ [] | some cell ↦ cell.attr ∷ cell.next ∷ [] ]

test_main : summary (main 3 (10 ∷ 20 ∷ 30 ∷ []) 1) ≡ 0 ∷ 0 ∷ 1 ∷ 20 ∷ 0 ∷ 30 ∷ 1 ∷ 0 ∷ []
unfolding main allocs deallocs alloc alloc1 alloc2 new_element attach link walk dealloc visit
test_main = refl

main-Holds_example :
    (s : State) × (main 3 (10 ∷ 20 ∷ 30 ∷ []) 1 ≡ some (0 ∷ 0 ∷ 1 ∷ [], s))
    × Holds s (drop 1 (numbered 0 (10 ∷ 20 ∷ 30 ∷ [])))
    × (length (drop 1 (numbered 0 (10 ∷ 20 ∷ 30 ∷ []))) ≡ 2)
main-Holds_example =
    main-Holds 3 (10 ∷ 20 ∷ 30 ∷ []) 1 (omega (arith))
      (omega (arith), refl, (omega (arith), refl, (omega (arith), refl, tt)))
