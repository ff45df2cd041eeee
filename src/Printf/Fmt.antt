-- ===== src/Printf/Fmt.antt =====
-- `fmt` shows a format piece by piece.
use yo_rha.Base.{
  ℕ, suc, ◌%◌, ◌^◌, ◌≤◌, ◌<◌, ◌≡◌, ◌≢◌, refl, sym, ap, ◌∙◌, arith, true, false, List, [], ◌∷◌, ◌++◌,
  ◌==◌, ltb, length, length-append, length-take, take, drop,
}
use yo_rha.Base.Outcome.{Outcome, ok, ◌>>=◌, bind_assoc}
use yo_rha.Format.Hex.{write_chars_lem}
use yo_rha.Format.Decimal.{int_to_string}
use yo_rha.Format.Decimal.Digits.{decimal, length-decimal, int_to_string-decimal}
use yo_rha.Printf.{Argument, text, number, to_int, text_of, convert, fmt_chars, fmt}
use yo_rha.Printf.Pieces.{
  Piece, plain, string, character, signed, unsigned, other, IsPiece, ArePieces, format_of,
  arguments, shown, output, text_of_lem, decimal-AreNonzero,
}

fmt_plain :
    (stack : List ℕ) (c : ℕ) (format : List ℕ) (args : List Argument)
    → c ≢ 0
    → c ≢ b'%'
    → fmt_chars stack (c ∷ format) args ≡ (fmt_chars stack format args >>= λ cs. ok (c ∷ cs))
unfolding fmt_chars
fmt_plain stack c [] args ne ne' =
    let test : (c == 0) ≡ false = ground (arith, ne) in rw test (refl)
fmt_plain stack c (next ∷ format) args ne ne' =
    let test : (c == 0) ≡ false = ground (arith, ne) in
    let test' : (c == b'%') ≡ false = ground (arith, ne') in rw (test, test') (refl)

fmt_converted :
    (stack : List ℕ) (next : ℕ) (format cs : List ℕ) (args args' : List Argument)
    → next ≢ 0
    → convert stack next args ≡ ok (cs, args')
    → fmt_chars stack (b'%' ∷ next ∷ format) args
      ≡ (fmt_chars stack format args' >>= λ cs'. ok (cs ++ cs'))
unfolding fmt_chars
fmt_converted stack next format cs args args' ne conv =
    let test : (next == 0) ≡ false = ground (arith, ne) in rw (test, conv) (refl)

-- No case of the `switch` is for the character.
pub other_tests :
    (c : ℕ)
    → IsPiece (other c)
    → ((c == b's') ≡ false)
      × ((c == b'c') ≡ false)
      × ((c == b'd') ≡ false)
      × ((c == b'u') ≡ false)
      × ((c == b'x') ≡ false)
      × ((c == b'b') ≡ false)
other_tests c (n0, ns, nc, nd, nu, nx, nb) = (
  ground (arith, ns),
  ground (arith, nc),
  ground (arith, nd),
  ground (arith, nu),
  ground (arith, nx),
  ground (arith, nb),
)

convert_other :
    (stack : List ℕ) (c : ℕ) (args : List Argument)
    → IsPiece (other c)
    → convert stack c args ≡ ok (b'%' ∷ c ∷ [], args)
unfolding convert
convert_other stack c [] h =
    let (ts, tc, td, tu, tx, tb) = other_tests c h in rw (ts, tc, td, tu, tx, tb) (refl)
convert_other stack c (text str ∷ args) h =
    let (ts, tc, td, tu, tx, tb) = other_tests c h in rw (ts, tc, td, tu, tx, tb) (refl)
convert_other stack c (number n ∷ args) h =
    let (ts, tc, td, tu, tx, tb) = other_tests c h in rw (ts, tc, td, tu, tx, tb) (refl)

-- The digits of a number, through the local array `temp`.
temp_digits :
    (stack : List ℕ) (n : ℕ)
    → 12 ≤ length stack
    → n < 2 ^ 31
    → (int_to_string (to_int n) (take 12 stack) >>= λ temp. text_of temp) ≡ ok (decimal 10 n)
temp_digits stack n room lt =
    let sign : ltb n (2 ^ 31) ≡ true = ground arith in
    rw
      (
        sign,
        int_to_string-decimal n (take 12 stack) lt
            (omega (arith, length-take 12 stack room, length-decimal 10 n)),
      )
      (text_of_lem (decimal 10 n) _ (decimal-AreNonzero 10 n (omega arith) (omega arith)))

convert_number :
    (stack : List ℕ) (n : ℕ) (args : List Argument)
    → 12 ≤ length stack
    → n < 2 ^ 31
    → (convert stack b'd' (number n ∷ args) ≡ ok (decimal 10 n, args))
      × (convert stack b'u' (number n ∷ args) ≡ ok (decimal 10 n, args))
unfolding convert
convert_number stack n args room lt =
    let text = int_to_string (to_int n) (take 12 stack) in
    let finish : List ℕ → Outcome (List ℕ × List Argument) = λ cs. ok (cs, args) in
    let both =
      sym (bind_assoc text (λ temp. text_of temp) finish)
      ∙ ap (λ (o : Outcome (List ℕ)). o >>= finish) (temp_digits stack n room lt) in
    (both, both)

-- What `fmt` stores for one piece, and what it goes on with.
fmt_piece :
    (stack : List ℕ) (p : Piece) (ps : List Piece)
    → 12 ≤ length stack
    → IsPiece p
    → fmt_chars stack (format_of (p ∷ ps)) (arguments (p ∷ ps))
      ≡ (fmt_chars stack (format_of ps) (arguments ps) >>= λ cs. ok (shown p ++ cs))
fmt_piece stack (plain c) ps room h = fmt_plain stack c (format_of ps) (arguments ps) h.0 h.1
fmt_piece stack (string cs) ps room h =
    fmt_converted stack b's' (format_of ps) cs (text (cs ++ 0 ∷ []) ∷ arguments ps) (arguments ps)
      (λ e. omega arith) (unfold convert in rw (text_of_lem cs [] h) (refl))
fmt_piece stack (character c) ps room h =
    let byte : c % 2 ^ 8 ≡ c = omega arith in
    fmt_converted stack b'c' (format_of ps) (c ∷ []) (number c ∷ arguments ps) (arguments ps)
      (λ e. omega arith) (unfold convert in rw byte (refl))
fmt_piece stack (signed n) ps room h =
    fmt_converted stack b'd' (format_of ps) (decimal 10 n) (number n ∷ arguments ps) (arguments ps)
      (λ e. omega arith) (convert_number stack n (arguments ps) room h).0
fmt_piece stack (unsigned n) ps room h =
    fmt_converted stack b'u' (format_of ps) (decimal 10 n) (number n ∷ arguments ps) (arguments ps)
      (λ e. omega arith) (convert_number stack n (arguments ps) room h).1
fmt_piece stack (other c) ps room h =
    fmt_converted stack c (format_of ps) (b'%' ∷ c ∷ []) (arguments ps) (arguments ps) h.0
      (convert_other stack c (arguments ps) h)

fmt_chars_lem :
    (stack : List ℕ) (ps : List Piece)
    → 12 ≤ length stack
    → ArePieces ps
    → fmt_chars stack (format_of ps) (arguments ps) ≡ ok (output ps)
fmt_chars_lem stack [] room h = unfold fmt_chars in refl
fmt_chars_lem stack (p ∷ ps) room h =
    fmt_piece stack p ps room h.0 ∙ rw (fmt_chars_lem stack ps room h.1) (refl)

-- `fmt` with a format of plain characters, `%s`, `%c`, `%d` and `%u` of numbers below 2 ^ 31 and
-- unknown conversions, and with the arguments that it asks for, returns if the output and a zero fit
-- in the buffer: it stores what the pieces show, one after the other, and the zero, and leaves the
-- rest of the buffer.
pub fmt_lem :
    (stack buffer : List ℕ) (ps : List Piece)
    → 12 ≤ length stack
    → ArePieces ps
    → length (output ps) < length buffer
    → fmt stack buffer (format_of ps) (arguments ps)
      ≡ ok ((output ps ++ 0 ∷ []) ++ drop (suc (length (output ps))) buffer)
unfolding fmt
fmt_lem stack buffer ps room h fits =
    let size : length (output ps ++ 0 ∷ []) ≡ suc (length (output ps)) =
      omega (arith, length-append (output ps) (0 ∷ [])) in
    rw
      (
        fmt_chars_lem stack ps room h,
        write_chars_lem (output ps ++ 0 ∷ []) buffer (omega (arith, size)),
        size,
      )
      (refl)
