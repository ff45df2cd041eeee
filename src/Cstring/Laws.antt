-- ===== src/Cstring/Laws.antt =====
-- The string functions on terminated texts.
use yo_rha.Base.{
  ℕ, suc, ◌+◌, ◌≤◌, ◌<◌, ◌≡◌, ◌≢◌, refl, ap, ◌∙◌, ◌↔◌, List, [], ◌∷◌, ◌++◌, arith, length, drop,
  get_or, ℕ_discrete,
}
use yo_rha.Base.Int.{ℤ, pos}
use yo_rha.Base.Outcome.{ok, fault}
use yo_rha.Cstring.{strlen_from, strlen, char_difference, strcmp, strcpy, strcat}

-- Nonzero bytes: the characters of a text.
abbrev pub IsText : List ℕ → Type 0
IsText [] = Unit {0}
IsText (c ∷ cs) = (c ≢ 0) × (c < 256) × IsText cs

-- A text in an array, with its terminating zero and what stands behind it.
abbrev pub terminated : List ℕ → List ℕ → List ℕ
terminated t rest = t ++ (0 ∷ rest)

strlen_from_lem :
    (n : ℕ) (t rest : List ℕ) → IsText t → strlen_from n (terminated t rest) ≡ ok (n + length t)
unfolding strlen_from
strlen_from_lem n [] rest h = ap (λ k. ok k) (omega arith)
strlen_from_lem n (c ∷ t) rest h =
    let more : n + 1 + length t ≡ n + suc (length t) = omega arith in
    ground (arith, strlen_from_lem (n + 1) t rest h.2, ap (λ (k : ℕ). ok k) more)

-- `strlen` is the number of characters before the terminating zero.
pub strlen_lem : (t rest : List ℕ) → IsText t → strlen (terminated t rest) ≡ ok (length t)
unfolding strlen
strlen_lem t rest h = strlen_from_lem 0 t rest h ∙ ap (λ k. ok k) (omega arith)

char_difference_zero : (a b : ℕ) → a < 256 → b < 256 → char_difference a b ≡ pos 0 → a ≡ b
unfolding char_difference
char_difference_zero a b ha hb h = ground arith

char_difference_self : (a : ℕ) → char_difference a a ≡ pos 0
unfolding char_difference
char_difference_self a = ground arith

strcmp_self : (t q r : List ℕ) → IsText t → strcmp (terminated t q) (terminated t r) ≡ ok (pos 0)
unfolding strcmp
strcmp_self [] q r h = ground (arith, char_difference_self 0)
strcmp_self (c ∷ t) q r h = ground (arith, strcmp_self t q r h.2)

-- A comparison of two texts returns, and it returns 0 exactly if they are equal.
pub strcmp_cases :
    (t u q r : List ℕ)
    → IsText t
    → IsText u
    → (z : ℤ) × (strcmp (terminated t q) (terminated u r) ≡ ok z) × ((z ≡ pos 0) ↔ (t ≡ u))
unfolding strcmp
strcmp_cases [] [] q r h k =
    (pos 0, ground (arith, char_difference_self 0), ((λ e. refl), (λ e. refl)))
strcmp_cases [] (d ∷ u) q r h k = (
  char_difference 0 d,
  ground arith,
  ((λ e. absurd (k.0 (omega (arith, char_difference_zero 0 d (omega arith) k.1 e)))), (λ e. cc)),
)
strcmp_cases (c ∷ t) [] q r h k = (
  char_difference c 0,
  ground arith,
  ((λ e. absurd (h.0 (omega (arith, char_difference_zero c 0 h.1 (omega arith) e)))), (λ e. cc)),
)
strcmp_cases (c ∷ t) (d ∷ u) q r h k = elim (ℕ_discrete c d) [
  | yes same ↦
      let rest = strcmp_cases t u q r h.2 k.2 in
      (
        rest.0,
        ground (arith, rest.1),
        ((λ e. cc (same, rest.2.0 e)), (λ e. rest.2.1 (ap (drop 1) e))),
      )
  | no ne ↦ (
    char_difference c d,
    ground arith,
    (
      (λ e. absurd (ne (char_difference_zero c d h.1 k.1 e))),
      (λ e. absurd (ne (ap (λ l. get_or l 0 0) e))),
    ),
  )
]

-- `strcpy` writes a text and its zero over the start of the destination if they fit, and leaves
-- the rest of the array.
pub strcpy_lem :
    (dst t rest : List ℕ)
    → IsText t
    → length t < length dst
    → strcpy dst (terminated t rest) ≡ ok (terminated t (drop (suc (length t)) dst))
unfolding strcpy
strcpy_lem [] t rest h lt = absurd (omega arith)
strcpy_lem (d ∷ ds) [] rest h lt = ground arith
strcpy_lem (d ∷ ds) (c ∷ t) rest h lt = ground (arith, strcpy_lem ds t rest h.2)

-- `strcpy` of a text that does not fit with its terminating zero writes past the destination.
pub strcpy_overflow :
    (dst t rest : List ℕ)
    → IsText t
    → length dst ≤ length t
    → strcpy dst (terminated t rest) ≡ fault
unfolding strcpy
strcpy_overflow [] t rest h le = refl
strcpy_overflow (d ∷ ds) [] rest h le = absurd (omega arith)
strcpy_overflow (d ∷ ds) (c ∷ t) rest h le = ground (arith, strcpy_overflow ds t rest h.2)

-- `strcat` writes a text that fits, and its zero, over the start of the destination, leaves the
-- rest, and returns the number of characters.
pub strcat_lem :
    (dst t rest : List ℕ)
    → IsText t
    → length t < length dst
    → strcat (terminated t rest) dst ≡ ok (length t, terminated t (drop (suc (length t)) dst))
unfolding strcat
strcat_lem [] t rest h lt = absurd (omega arith)
strcat_lem (d ∷ ds) [] rest h lt = ground arith
strcat_lem (d ∷ ds) (c ∷ t) rest h lt = ground (arith, strcat_lem ds t rest h.2)
