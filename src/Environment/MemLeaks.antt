-- ===== src/Environment/MemLeaks.antt =====
-- src/01_environment/memory_leaks/mem_leaks.c: a linked list on the heap that grows at its tail and
-- shrinks at its head.
pub mod Chain
pub mod Queue
pub mod Run
mod Tests
use csel_workspace.Prelude.{
  ℕ, zero, suc, ◌+◌, ◌%◌, Bool, Option, none, some, List, [], ◌∷◌, ◌==◌, if◌then◌else◌,
}

-- `struct alpha`; the address 0 is NULL.
pub record Alpha : Type 0 where
  pub attr : ℕ
  pub next : ℕ

-- What is allocated at each address.
abbrev pub Heap : Type 0
Heap = ℕ → Option Alpha

abbrev pub set_cell : Heap → ℕ → Option Alpha → Heap
set_cell h a cell b = if b == a then cell else h b

-- How the walk to the last element ends: at it, at a read of memory that is not allocated, or not
-- within the fuel.
pub data Walk : Type 0 where
  found : ℕ → Walk
  fault spins : Walk

-- `while (n->next != 0) n = n->next;`
unfoldable pub walk : ℕ → Heap → ℕ → Walk
walk zero h n = spins
walk (suc fuel) h n = elim (h n) [
  | none ↦ fault
  | some cell ↦ let rest = walk fuel h cell.next in if cell.next == 0 then found n else rest
]

-- `n->next = ele;`
unfoldable pub link : Heap → ℕ → ℕ → Option Heap
link h n ele = elim (h n) [
  | none ↦ none
  | some cell ↦ some (set_cell h n (some (record cell { next = ele })))
]

-- The end of `alloc1` and `alloc2`: the new root and heap.
unfoldable pub attach : ℕ → Heap → ℕ → ℕ → Option (ℕ × Heap)
attach fuel h root ele = if root == 0 then some (ele, h) else elim (walk fuel h root) [
  | found n ↦ elim (link h n ele) [ none ↦ none | some h' ↦ some (root, h') ]
  | fault ↦ none
  | spins ↦ none
]

-- The static variables `cnt` of `alloc1` and `alloc2` and `x` of `alloc`, with the list.
pub record State : Type 0 where
  pub root : ℕ
  pub heap : Heap
  pub cnt1 : ℕ
  pub cnt2 : ℕ
  pub x : ℕ

-- The new element, at the address that `malloc` brings. NULL is a fault: the code writes through it.
unfoldable pub new_element : ℕ → ℕ → Heap → Option Heap
new_element ele cnt h =
    if ele == 0 then none else some (set_cell h ele (some (record { attr = cnt; next = 0 })))

unfoldable pub alloc1 : ℕ → ℕ → State → Option State
alloc1 fuel ele s = elim (new_element ele s.cnt1 s.heap) [
  | none ↦ none
  | some h ↦ elim (attach fuel h s.root ele) [
    | none ↦ none
    | some (root, heap) ↦ some (record s { root = root; heap = heap; cnt1 = s.cnt1 + 1 })
  ]
]

unfoldable pub alloc2 : ℕ → ℕ → State → Option State
alloc2 fuel ele s = elim (new_element ele s.cnt2 s.heap) [
  | none ↦ none
  | some h ↦ elim (attach fuel h s.root ele) [
    | none ↦ none
    | some (root, heap) ↦ some (record s { root = root; heap = heap; cnt2 = s.cnt2 + 1 })
  ]
]

unfoldable pub alloc : ℕ → ℕ → State → Option State
alloc fuel ele s = elim (if s.x == 0 then alloc1 fuel ele s else alloc2 fuel ele s) [
  | none ↦ none
  | some s' ↦ some (record s' { x = (s'.x + 1) % 2 })
]

-- `dealloc`: `free` of NULL does nothing, and of memory that is not allocated it is a fault.
unfoldable pub dealloc : State → Option State
dealloc s = if s.root == 0 then some s else elim (s.heap s.root) [
  | none ↦ none
  | some cell ↦ some (record s { root = cell.next; heap = set_cell s.heap s.root none })
]

-- The loops of `main`: one `alloc` for each address that `malloc` brings, and `k` times `dealloc`.
unfoldable pub allocs : ℕ → List ℕ → State → Option State
allocs fuel [] s = some s
allocs fuel (ele ∷ eles) s = elim (alloc fuel ele s) [ none ↦ none | some s' ↦ allocs fuel eles s' ]

unfoldable pub deallocs : ℕ → State → Option State
deallocs zero s = some s
deallocs (suc k) s = elim (dealloc s) [ none ↦ none | some s' ↦ deallocs k s' ]

-- The state in which `main` starts.
abbrev pub initial : State
initial = record { root = 0; heap = λ a. none; cnt1 = 0; cnt2 = 0; x = 0 }

-- The loop between them, which prints the attribute of each element.
unfoldable pub visit : ℕ → Heap → ℕ → Option (List ℕ)
visit zero h p = if p == 0 then some [] else none
visit (suc fuel) h p = if p == 0 then some [] else elim (h p) [
  | none ↦ none
  | some cell ↦ elim (visit fuel h cell.next) [
    | none ↦ none
    | some attrs ↦ some (cell.attr ∷ attrs)
  ]
]

-- `main`, with the addresses that its calls of `malloc` bring and the number of its calls of
-- `dealloc`, which are 4000 and 15 in the program: the attributes that are printed when tracing is on,
-- and the state at the end.
unfoldable pub main : ℕ → List ℕ → ℕ → Option (List ℕ × State)
main fuel eles k = elim (allocs fuel eles initial) [
  | none ↦ none
  | some s ↦ elim (visit fuel s.heap s.root) [
    | none ↦ none
    | some attrs ↦ elim (deallocs k s) [ none ↦ none | some s' ↦ some (attrs, s') ]
  ]
]
