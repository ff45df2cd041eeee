-- ===== src/Cstring/Tests.antt =====
-- The string functions at concrete texts.
use yo_rha.Base.{ℕ, ◌≡◌, refl, List, [], ◌∷◌, arith}
use yo_rha.Base.Int.{negsuc}
use yo_rha.Base.Outcome.{ok}
use yo_rha.Cstring.{char_difference, strcmp}
use yo_rha.Cstring.Laws.{IsText, terminated}

abbrev ab : List ℕ
ab = b'a' ∷ b'b' ∷ []

abbrev ac : List ℕ
ac = b'a' ∷ b'c' ∷ []

ab-IsText : IsText ab
ab-IsText = (omega arith, omega arith, (omega arith, omega arith, tt))

ac-IsText : IsText ac
ac-IsText = (omega arith, omega arith, (omega arith, omega arith, tt))

strcmp-ab-ac : strcmp (terminated ab []) (terminated ac []) ≡ ok (negsuc 0)
unfolding strcmp char_difference
strcmp-ab-ac = refl
