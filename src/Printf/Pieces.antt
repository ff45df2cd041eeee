-- ===== src/Printf/Pieces.antt =====
-- What a format with the arguments that it asks for is to show, piece by piece.
use yo_rha.Base.{
  ℕ, zero, suc, ◌+◌, ◌/◌, ◌%◌, ◌^◌, ◌<◌, ◌≡◌, ◌≢◌, refl, arith, false, List, [], ◌∷◌, ◌++◌, ◌==◌,
  dec_lt,
}
use yo_rha.Base.Outcome.{ok}
use yo_rha.Format.Decimal.Digits.{decimal, decimal_short, decimal_long, tens}
use yo_rha.Printf.{Argument, text, number, text_of}

-- A character, `%s`, `%c`, `%d`, `%u`, or `%` before any other character.
pub data Piece : Type 0 where
  plain : ℕ → Piece
  string : List ℕ → Piece
  character : ℕ → Piece
  signed : ℕ → Piece
  unsigned : ℕ → Piece
  other : ℕ → Piece

abbrev pub AreNonzero : List ℕ → Type 0
AreNonzero [] = Unit
AreNonzero (c ∷ cs) = (c ≢ 0) × AreNonzero cs

abbrev pub IsPiece : Piece → Type 0
IsPiece (plain c) = (c ≢ 0) × (c ≢ b'%')
IsPiece (string cs) = AreNonzero cs
IsPiece (character c) = c < 2 ^ 8
IsPiece (signed n) = n < 2 ^ 31
IsPiece (unsigned n) = n < 2 ^ 31
IsPiece (other c) =
    (c ≢ 0) × (c ≢ b's') × (c ≢ b'c') × (c ≢ b'd') × (c ≢ b'u') × (c ≢ b'x') × (c ≢ b'b')

abbrev pub ArePieces : List Piece → Type 0
ArePieces [] = Unit
ArePieces (p ∷ ps) = IsPiece p × ArePieces ps

abbrev pub format_of : List Piece → List ℕ
format_of [] = 0 ∷ []
format_of (plain c ∷ ps) = c ∷ format_of ps
format_of (string cs ∷ ps) = b'%' ∷ b's' ∷ format_of ps
format_of (character c ∷ ps) = b'%' ∷ b'c' ∷ format_of ps
format_of (signed n ∷ ps) = b'%' ∷ b'd' ∷ format_of ps
format_of (unsigned n ∷ ps) = b'%' ∷ b'u' ∷ format_of ps
format_of (other c ∷ ps) = b'%' ∷ c ∷ format_of ps

abbrev pub arguments : List Piece → List Argument
arguments [] = []
arguments (plain c ∷ ps) = arguments ps
arguments (string cs ∷ ps) = text (cs ++ 0 ∷ []) ∷ arguments ps
arguments (character c ∷ ps) = number c ∷ arguments ps
arguments (signed n ∷ ps) = number n ∷ arguments ps
arguments (unsigned n ∷ ps) = number n ∷ arguments ps
arguments (other c ∷ ps) = arguments ps

abbrev pub shown : Piece → List ℕ
shown (plain c) = c ∷ []
shown (string cs) = cs
shown (character c) = c ∷ []
shown (signed n) = decimal 10 n
shown (unsigned n) = decimal 10 n
shown (other c) = b'%' ∷ c ∷ []

abbrev pub output : List Piece → List ℕ
output [] = []
output (p ∷ ps) = shown p ++ output ps

pub text_of_lem : (cs rest : List ℕ) → AreNonzero cs → text_of (cs ++ 0 ∷ rest) ≡ ok cs
unfolding text_of
text_of_lem [] rest h = refl
text_of_lem (c ∷ cs) rest h =
    let test : (c == 0) ≡ false = ground (arith, h.0) in rw (test, text_of_lem cs rest h.1) (refl)

AreNonzero-snoc : (cs : List ℕ) (c : ℕ) → AreNonzero cs → c ≢ 0 → AreNonzero (cs ++ c ∷ [])
AreNonzero-snoc [] c h ne = (ne, tt)
AreNonzero-snoc (x ∷ xs) c h ne = (h.0, AreNonzero-snoc xs c h.1 ne)

-- No digit is the zero that ends a text.
pub decimal-AreNonzero : (fuel n : ℕ) → 0 < fuel → n < 10 ^ fuel → AreNonzero (decimal fuel n)
decimal-AreNonzero zero n po lt = absurd (omega arith)
decimal-AreNonzero (suc fuel) n po lt = elim (dec_lt n 10) [
  | yes small ↦ rw (decimal_short fuel n small) (λ e. omega arith, tt)
  | no ge ↦ rw (decimal_long fuel n (omega arith)) (
      AreNonzero-snoc (decimal fuel (n / 10)) (48 + n % 10)
        (let (lt', po') = tens fuel n lt (omega arith) in decimal-AreNonzero fuel (n / 10) po' lt')
        (λ e. omega arith))
]
