-- ===== src/CharDriver/Transfer.antt =====
-- What is written is what is read, in pieces of any size.
use csel_workspace.Prelude.{
  ℕ, zero, suc, ◌+◌, ◌-◌, ◌≤◌, ◌<◌, ◌≡◌, refl, min, true, false, none, some, List, [], ◌∷◌, ◌++◌,
  ltb, leb, take, drop, set, length, length-set, length-append, length-take, length-drop, arith,
  Bool-cases, inl, inr, ap, ◌∙◌, sym, ap₂, take_all, drop_all, drop-drop, take-add, take-drop-take,
}
use csel_workspace.Prelude.Int.{ℤ, pos}
use csel_workspace.Prelude.Text.{no_nul, no_nul-take}
use csel_workspace.CharDriver.{
  skeleton_buffer_size, strnlen, skeleton_read, skeleton_write, overlay, bytes_to_copy,
}

-- The first `n` bytes of a buffer are the text, and a NUL follows.
record Holds (bytes text : List ℕ) : Type 0 where
  front : take (length text) bytes ≡ text
  length_read : strnlen bytes skeleton_buffer_size ≡ length text

strnlen-text :
    (text old : List ℕ) (size : ℕ)
    → no_nul text ≡ true
    → length text < size
    → 0 < length old
    → strnlen (set (text ++ old) (length text) 0) size ≡ length text
unfolding strnlen no_nul
strnlen-text text old zero h l k = absurd (omega arith)
strnlen-text [] [] (suc size) h l k = absurd (omega arith)
strnlen-text [] (x ∷ old) (suc size) h l k = refl
strnlen-text (b ∷ text) old (suc size) h l k = ground (arith, strnlen-text text old size)

front-text : (text old : List ℕ) → take (length text) (set (text ++ old) (length text) 0) ≡ text
front-text [] old = refl
front-text (b ∷ text) old = ap (λ t. b ∷ t) (front-text text old)

-- The text that a write leaves: what was given, cut to 255 bytes.
abbrev pub written : List ℕ → List ℕ
written buf = take (bytes_to_copy (length buf)) buf

length-written : (buf : List ℕ) → length (written buf) ≡ bytes_to_copy (length buf)
length-written buf = omega (arith, length-take (bytes_to_copy (length buf)) buf)

-- The buffer after a successful write.
abbrev pub stored : List ℕ → List ℕ → List ℕ
stored buf bytes =
    set (overlay (bytes_to_copy (length buf)) buf bytes) (bytes_to_copy (length buf)) 0

stored-Holds :
    (buf bytes : List ℕ)
    → length bytes ≡ skeleton_buffer_size
    → no_nul buf ≡ true
    → Holds (stored buf bytes) (written buf)
stored-Holds buf bytes l h = rw same_place (record {
  front = front-text (written buf) rest;
  length_read =
      strnlen-text (written buf) rest skeleton_buffer_size
        (no_nul-take (bytes_to_copy (length buf)) buf h) (omega (arith, length-written buf))
        (omega (arith, length-drop (bytes_to_copy (length buf)) bytes));
})
  where
    rest : List ℕ
    rest = drop (bytes_to_copy (length buf)) bytes

    same_place : stored buf bytes ≡ set (written buf ++ rest) (length (written buf)) 0
    same_place = ap (λ n. set (written buf ++ rest) n 0) (sym (length-written buf))

-- Successive reads of the given sizes, from offset `off` on: the bytes that arrive.
pub read_pieces : List ℕ → List ℕ → ℕ → List ℕ
read_pieces bytes [] off = []
read_pieces bytes (c ∷ counts) off =
    let (ret, got, next) = skeleton_read (some bytes) c off false in
    got ++ read_pieces bytes counts next

module _ {bytes text : List ℕ} (h : Holds bytes text) (c off : ℕ) where
  got_text : (n : ℕ) → off + n ≤ length text → take n (drop off bytes) ≡ take n (drop off text)
  got_text n l =
      sym (take-drop-take n off (length text) bytes l) ∙ ap (λ t. take n (drop off t)) h.front

  -- What one read is to bring: the piece of the text, and the rest for the next one.
  abbrev Piece : ℤ × List ℕ × ℕ → Type 0
  Piece (ret, got, next) =
      (ret ≡ pos (length got))
      × (got ≡ take c (drop off text))
      × (drop next text ≡ drop c (drop off text))

  Piece-past : length text ≤ off → Piece (pos 0, [], off)
  Piece-past l = (
    refl,
    sym (rw (drop_all off text l) (take_all c [] (omega arith))),
    rw (drop_all off text l) (sym (drop_all c [] (omega arith))),
  )

  Piece-long :
      off < length text
      → length text - off < c
      → Piece (
        pos (length text - off),
        take (length text - off) (drop off bytes),
        off + (length text - off),
      )
  Piece-long l k = (
    rw (got_text n (omega arith)) (ap pos (omega (arith, length-take n (drop off text), left))),
    got_text n (omega arith)
        ∙ (take_all n (drop off text) (omega (arith, left))
            ∙ sym (take_all c (drop off text) (omega (arith, left)))),
    drop_all (off + n) text (omega arith) ∙ sym (drop_all c (drop off text) (omega (arith, left))),
  )
    where
      n : ℕ
      n = length text - off

      left : length (drop off text) ≡ n
      left = length-drop off text

  Piece-short :
      off < length text → c ≤ length text - off → Piece (pos c, take c (drop off bytes), off + c)
  Piece-short l k = (
    rw (got_text c (omega arith))
        (ap pos (omega (arith, length-take c (drop off text), length-drop off text))),
    got_text c (omega arith),
    sym (drop-drop off c text),
  )

  read-Piece : Piece (skeleton_read (some bytes) c off false)
  unfolding skeleton_read
  read-Piece = elim (Bool-cases (leb (length text) off)) [
    | inl past ↦ rw (h.length_read, past) (Piece-past (ground arith))
    | inr inside ↦ elim (Bool-cases (ltb (length text - off) c)) [
      | inl long ↦ rw (h.length_read, inside, long) (Piece-long (ground arith) (ground arith))
      | inr short ↦ rw (h.length_read, inside, short) (Piece-short (ground arith) (ground arith))
    ]
  ]

pub sum : List ℕ → ℕ
sum [] = 0
sum (c ∷ cs) = c + sum cs

read_pieces_lem :
    {bytes text : List ℕ} (h : Holds bytes text) (counts : List ℕ) (off : ℕ)
    → read_pieces bytes counts off ≡ take (sum counts) (drop off text)
unfolding read_pieces sum
read_pieces_lem h [] off = refl
read_pieces_lem {bytes} {text} h (c ∷ counts) off =
    let (ret, got, next) = read-Piece h c off in
    ap₂ ◌++◌ got (read_pieces_lem h counts _ ∙ ap (take (sum counts)) next)
    ∙ sym (take-add c (sum counts) (drop off text))

-- What was written is what is read back, cut to 255 bytes, in pieces of any sizes: successive reads
-- of some counts bring the first bytes of the text, as many as the counts add up to. The text holds
-- no NUL, and the copies from and to the caller succeed.
pub read-write :
    (buf bytes : List ℕ) (off : ℕ) (counts : List ℕ)
    → length bytes ≡ skeleton_buffer_size
    → no_nul buf ≡ true
    → (skeleton_write (some bytes) buf off none
        ≡ (pos (min (length buf) 255), some (stored buf bytes), 0))
      × (read_pieces (stored buf bytes) counts 0
          ≡ take (sum counts) (take (min (length buf) 255) buf))
      × (length (stored buf bytes) ≡ skeleton_buffer_size)
unfolding skeleton_write
read-write buf bytes off counts l h = (
  refl,
  read_pieces_lem (stored-Holds buf bytes l h) counts 0,
  omega (
    arith,
    length-set (overlay n buf bytes) n 0,
    length-append (take n buf) (drop n bytes),
    length-take n buf,
    length-drop n bytes,
  ),
)
  where
    n : ℕ
    n = bytes_to_copy (length buf)
