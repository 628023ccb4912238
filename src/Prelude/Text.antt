-- ===== src/Prelude/Text.antt =====
-- The bytes of an ASCII literal, and what `snprintf` and `strcmp` make of texts.
use Prim.Native.String.{String}
use Prim.Native.Char.{code}
use csel_workspace.Prelude.{
  ◌++◌, Option, none, some, length, ℕ, zero, suc, ◌-◌, ◌≡◌, refl, Bool, true, false, ◌&&◌, List, [],
  ◌∷◌, take, ◌==◌, if◌then◌else◌, arith,
}

abbrev pub codes : String → List ℕ
codes String.[] = []
codes (String.◌∷◌ c s) = code c ∷ codes s

-- The text that `snprintf` leaves in a buffer of `size` bytes, less its NUL.
abbrev pub snprintf : ℕ → List ℕ → List ℕ
snprintf size text = take (size - 1) text

-- Whether `strcmp` answers 0.
unfoldable pub eq_text : List ℕ → List ℕ → Bool
eq_text [] [] = true
eq_text (c ∷ cs) (d ∷ ds) = c == d && eq_text cs ds
eq_text _ _ = false

-- A text with no NUL in it.
unfoldable pub no_nul : List ℕ → Bool
no_nul [] = true
no_nul (b ∷ bs) = let rest = no_nul bs in if b == 0 then false else rest

pub no_nul-take : (n : ℕ) (text : List ℕ) → no_nul text ≡ true → no_nul (take n text) ≡ true
unfolding no_nul
no_nul-take zero text h = refl
no_nul-take (suc n) [] h = refl
no_nul-take (suc n) (b ∷ text) h = ground (arith, no_nul-take n text)

-- `strlen` of an allocation: `none` when no NUL ends it, and the code reads on behind it.
unfoldable pub strlen : List ℕ → Option ℕ
strlen [] = none
strlen (b ∷ bs) =
    let rest = strlen bs in
    if b == 0 then some 0 else elim rest [ none ↦ none | some n ↦ some (suc n) ]

pub strlen_text :
    (text rest : List ℕ) → no_nul text ≡ true → strlen (text ++ (0 ∷ rest)) ≡ some (length text)
unfolding strlen no_nul
strlen_text [] rest h = refl
strlen_text (b ∷ text) rest h = ground (arith, strlen_text text rest)
