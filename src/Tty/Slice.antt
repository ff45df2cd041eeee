-- ===== src/Tty/Slice.antt =====
-- A part of the buffer, before and after a character is stored.
use yo_rha.Base.{
  ℕ, zero, suc, ◌≤◌, ◌<◌, ◌≡◌, refl, ap, arith, List, [], ◌∷◌, ◌++◌, some, get_elem?, set, length,
}
use yo_rha.Tty.{slice}

pub slice_head :
    (xs : List ℕ) (start stop : ℕ) {c : ℕ}
    → get_elem? xs start ≡ some c
    → start < stop
    → slice xs start stop ≡ c ∷ slice xs (suc start) stop
slice_head [] start stop h lt = ground arith
slice_head (x ∷ xs) zero zero h lt = absurd (omega arith)
slice_head (x ∷ xs) zero (suc stop) h lt = cc
slice_head (x ∷ xs) (suc start) zero h lt = absurd (omega arith)
slice_head (x ∷ xs) (suc start) (suc stop) h lt = slice_head xs start stop h (omega arith)

pub slice_empty : (xs : List ℕ) (start : ℕ) → slice xs start start ≡ []
slice_empty [] start = refl
slice_empty (x ∷ xs) zero = refl
slice_empty (x ∷ xs) (suc start) = slice_empty xs start

-- The part that ends with the stored character.
pub slice-set :
    (xs : List ℕ) (start i c : ℕ)
    → start ≤ i
    → i < length xs
    → slice (set xs i c) start (suc i) ≡ slice xs start i ++ c ∷ []
slice-set [] start i c le lt = absurd (omega arith)
slice-set (x ∷ xs) zero zero c le lt = ap (λ (l : List ℕ). c ∷ l) (slice_empty xs 0)
slice-set (x ∷ xs) zero (suc i) c le lt =
    ap (λ (l : List ℕ). x ∷ l) (slice-set xs zero i c (omega arith) (omega arith))
slice-set (x ∷ xs) (suc start) zero c le lt = absurd (omega arith)
slice-set (x ∷ xs) (suc start) (suc i) c le lt = slice-set xs start i c (omega arith) (omega arith)
