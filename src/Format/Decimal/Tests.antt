-- ===== src/Format/Decimal/Tests.antt =====
-- Two numbers.
use yo_rha.Base.{◌≡◌, refl, ℕ, suc, List, [], ◌∷◌, ◌++◌, arith, length, drop, replicate}
use yo_rha.Base.Int.{pos, negsuc}
use yo_rha.Base.Outcome.{ok}
use yo_rha.Format.Decimal.{intlen, intlen_from, store_digits, int_to_string}
use yo_rha.Format.Decimal.Digits.{decimal_value, int_to_string_lem}

int_to_string_lem_example :
    (cs : List ℕ) × (int_to_string (pos 1024) (replicate 12 7)
      ≡ ok (cs ++ 0 ∷ drop (suc (length cs)) (replicate 12 7)))
    × (intlen (pos 1024) ≡ ok (length cs))
    × (decimal_value 0 cs ≡ 1024)
int_to_string_lem_example = int_to_string_lem 1024 (replicate 12 7) (omega arith) (omega arith)

-- The number -5 is shown as the characters `-+`.
minus_five : int_to_string (negsuc 4) (replicate 4 7) ≡ ok (b'-' ∷ b'+' ∷ 0 ∷ 7 ∷ [])
unfolding int_to_string intlen intlen_from store_digits
minus_five = refl
