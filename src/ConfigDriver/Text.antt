-- ===== src/ConfigDriver/Text.antt =====
-- What a read of the configuration driver brings after a write, whichever way the write ended.
use csel_workspace.Prelude.{
  ℕ, suc, ◌+◌, ◌-◌, ◌<◌, ◌≡◌, refl, ap, Bool, true, Option, none, some, List, [], ◌∷◌, ◌++◌, leb,
  min, min_if, length, take, drop, take-drop-append, set, Bool-cases, inl, inr, replicate,
  if◌then◌else◌, arith,
}
use csel_workspace.Prelude.Int.{pos, minus}
use csel_workspace.Prelude.Errno.{efault}
use csel_workspace.Prelude.Text.{no_nul, no_nul-take, strlen_text}
use csel_workspace.ConfigDriver.{ReadResult, read_at, chardev_read, chardev_write}

-- What a read of a text brings: nothing from its end on, and before that the bytes asked for as far
-- as the text goes, or -EFAULT when the copy fails.
unfoldable pub read_text : List ℕ → ℕ → ℕ → Bool → ReadResult
read_text text count off fails =
    let n = min count (length text - off) in
    if leb (length text) off
    then (pos 0, [], off)
    else if fails
    then (minus efault, [], off)
    else (pos n, take n (drop off text), off + n)

-- The text that a write leaves: none without memory, the bytes copied before a fault, or all.
unfoldable pub kept : Option (List ℕ) → Option ℕ → List ℕ → List ℕ
kept none fault buf = []
kept (some bytes) (some k) buf = take k buf
kept (some bytes) none buf = buf

read_at-read_text :
    (text rest : List ℕ) (count off : ℕ) (fails : Bool)
    → read_at (text ++ rest) (length text) count off fails ≡ read_text text count off fails
unfolding read_at read_text
read_at-read_text text rest count off fails = elim (Bool-cases (leb (length text) off)) [
  | inl past ↦ simp past refl
  | inr before ↦
      simp (before, min_if)
        (ap
          (λ bs.
            if fails
            then (minus efault, [], off)
            else (pos (min count (length text - off)), bs, off + min count (length text - off)))
          (take-drop-append (min count (length text - off)) off text rest (ground (arith, before))))
]

-- An allocation that starts with a text and a NUL reads as the text.
reads_text :
    (text rest : List ℕ) (count off : ℕ) (fails : Bool)
    → no_nul text ≡ true
    → chardev_read (some (text ++ (0 ∷ rest))) count off fails
      ≡ some (read_text text count off fails)
unfolding chardev_read read_text
reads_text text rest count off fails h =
    rw (chardev_read, strlen_text text rest h)
      (ap some (read_at-read_text text (0 ∷ rest) count off fails))

zeros : (n k : ℕ) → k < n → replicate {A = ℕ} (n - k) 0 ≡ 0 ∷ replicate (n - k - 1) 0
zeros n k h = ap (λ m. replicate m 0) (let e : n - k ≡ suc (n - k - 1) = omega arith in e)

set_end :
    (buf bytes : List ℕ)
    → length bytes ≡ suc (length buf)
    → (rest : List ℕ) × (set (buf ++ drop (length buf) bytes) (length buf) 0 ≡ buf ++ (0 ∷ rest))
set_end [] [] l = absurd (omega arith)
set_end [] (x ∷ bytes) l = (bytes, refl)
set_end (b ∷ buf) [] l = absurd (omega arith)
set_end (b ∷ buf) (x ∷ bytes) l =
    let (rest, e) = set_end buf bytes (omega arith) in (rest, ap (λ t. b ∷ t) e)

-- What `kmalloc` and `copy_from_user` do: the memory has the size asked for, and a copy that fails
-- leaves at least one byte uncopied.
abbrev pub Answers : List ℕ → Option (List ℕ) → Option ℕ → Type 0
Answers buf none fault = Unit
Answers buf (some bytes) none = length bytes ≡ suc (length buf)
Answers buf (some bytes) (some k) = k < length buf

-- After a write of a text without NUL, a read with any count and at any offset stays inside the
-- allocation and brings just what the text that was kept has there: all of it after a write that
-- succeeds, the part that was copied after one that faults, nothing after one without memory.
pub write-read :
    (old alloc : Option (List ℕ)) (buf : List ℕ) (fault : Option ℕ) (count off : ℕ) (fails : Bool)
    → no_nul buf ≡ true
    → Answers buf alloc fault
    → chardev_read (chardev_write old alloc buf fault).1 count off fails
      ≡ some (read_text (kept alloc fault buf) count off fails)
unfolding chardev_read chardev_write kept read_text
write-read old none buf fault count off fails h a = ground arith
write-read old (some bytes) buf none count off fails h a =
    let (rest, e) = set_end buf bytes a in rw e (reads_text buf rest count off fails h)
write-read old (some bytes) buf (some k) count off fails h a = rw (zeros (length buf) k a) (
    reads_text (take k buf) (replicate (length buf - k - 1) 0 ++ drop (length buf) bytes) count off
      fails (no_nul-take k buf h))
