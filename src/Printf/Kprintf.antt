-- ===== src/Printf/Kprintf.antt =====
-- `kprintf` puts on the screen what `kwrite` puts there of the output.
use yo_rha.Base.{
  ℕ, ◌%◌, ◌^◌, ◌<◌, ◌≡◌, ◌≢◌, refl, sym, ap, ◌∙◌, arith, true, false, List, [], ◌∷◌, ◌++◌, ◌==◌,
  ltb, length, length-replicate, replicate,
}
use yo_rha.Base.Int.{pos}
use yo_rha.Base.Outcome.{Outcome, ok, fault, ◌>>=◌, bind_assoc}
use yo_rha.Format.Decimal.Digits.{decimal, decimal_nonempty, intlen-decimal, int_to_string-fault}
use yo_rha.Vga.{Screen, kputc, kwrite, kprint}
use yo_rha.Printf.{Argument, text, number, kputint, print_conversion, kprintf}
use yo_rha.Printf.Pieces.{
  Piece, plain, string, character, signed, unsigned, other, IsPiece, format_of, arguments, shown,
  output, AreNonzero,
}
use yo_rha.Printf.Fmt.{other_tests}

-- A piece with no decimal number.
abbrev pub IsShown : Piece → Type 0
IsShown (plain c) = IsPiece (plain c)
IsShown (string cs) = IsPiece (string cs)
IsShown (character c) = IsPiece (character c)
IsShown (signed n) = ⊥
IsShown (unsigned n) = ⊥
IsShown (other c) = IsPiece (other c)

abbrev pub AreShown : List Piece → Type 0
AreShown [] = Unit
AreShown (p ∷ ps) = IsShown p × AreShown ps

kwrite-append :
    (s : Screen) (xs ys : List ℕ) → kwrite s (xs ++ ys) ≡ (kwrite s xs >>= λ s'. kwrite s' ys)
unfolding kwrite
kwrite-append s [] ys = refl
kwrite-append s (x ∷ xs) ys =
    ap (λ (f : Screen → Outcome Screen). kputc s x >>= f) (λ i s'. kwrite-append s' xs ys i)
    ∙ sym (bind_assoc (kputc s x) (λ s'. kwrite s' xs) (λ s'. kwrite s' ys))

kprint_lem :
    (s : Screen) (cs rest : List ℕ) → AreNonzero cs → kprint s (cs ++ 0 ∷ rest) ≡ kwrite s cs
unfolding kprint kwrite
kprint_lem s [] rest h = refl
kprint_lem s (c ∷ cs) rest h =
    let test : (c == 0) ≡ false = ground (arith, h.0) in
    rw test
      (ap (λ (f : Screen → Outcome Screen). kputc s c >>= f) (λ i s'. kprint_lem s' cs rest h.1 i))

kprintf_plain :
    (stack : List ℕ) (s : Screen) (c : ℕ) (format : List ℕ) (args : List Argument)
    → c ≢ 0
    → c ≢ b'%'
    → kprintf stack s (c ∷ format) args ≡ (kputc s c >>= λ s'. kprintf stack s' format args)
unfolding kprintf
kprintf_plain stack s c [] args ne ne' =
    let test : (c == 0) ≡ false = ground (arith, ne) in
    let test' : (c == b'%') ≡ false = ground (arith, ne') in rw (test, test') (refl)
kprintf_plain stack s c (next ∷ format) args ne ne' =
    let test : (c == 0) ≡ false = ground (arith, ne) in
    let test' : (c == b'%') ≡ false = ground (arith, ne') in rw (test, test') (refl)

kprintf_converted :
    (stack : List ℕ) (s : Screen) (next : ℕ) (format cs : List ℕ) (args args' : List Argument)
    → next ≢ 0
    → print_conversion stack s next args ≡ (kwrite s cs >>= λ s'. ok (s', args'))
    → kprintf stack s (b'%' ∷ next ∷ format) args
      ≡ (kwrite s cs >>= λ s'. kprintf stack s' format args')
unfolding kprintf
kprintf_converted stack s next format cs args args' ne conv =
    let test : (next == 0) ≡ false = ground (arith, ne) in
    rw (test, conv)
      (bind_assoc (kwrite s cs) (λ s'. ok (s', args'))
        (λ (r : Screen × List Argument). kprintf stack r.0 format r.1))

two_chars :
    {B : Type 0} (s : Screen) (c : ℕ) (f : Screen → Outcome B)
    → (kputc s b'%' >>= λ s'. kputc s' c >>= f) ≡ (kwrite s (b'%' ∷ c ∷ []) >>= f)
unfolding kwrite
two_chars s c f =
    ap (λ (g : Screen → Outcome _). kputc s b'%' >>= g)
      (λ i s'. sym (bind_assoc (kputc s' c) (λ s''. ok s'') f) i)
    ∙ sym (bind_assoc (kputc s b'%') (λ s'. kputc s' c >>= λ s''. ok s'') f)

print_other :
    (stack : List ℕ) (s : Screen) (c : ℕ) (args : List Argument)
    → IsPiece (other c)
    → print_conversion stack s c args ≡ (kwrite s (b'%' ∷ c ∷ []) >>= λ s'. ok (s', args))
unfolding print_conversion
print_other stack s c [] h =
    let (ts, tc, td, tu, tx, tb) = other_tests c h in
    rw (ts, tc, td, tu, tx, tb) (two_chars s c (λ s'. ok (s', [])))
print_other stack s c (text str ∷ args) h =
    let (ts, tc, td, tu, tx, tb) = other_tests c h in
    rw (ts, tc, td, tu, tx, tb) (two_chars s c (λ s'. ok (s', text str ∷ args)))
print_other stack s c (number n ∷ args) h =
    let (ts, tc, td, tu, tx, tb) = other_tests c h in
    rw (ts, tc, td, tu, tx, tb) (two_chars s c (λ s'. ok (s', number n ∷ args)))

-- What `kprintf` shows for one piece, and what it goes on with.
kprintf_piece :
    (stack : List ℕ) (s : Screen) (p : Piece) (ps : List Piece)
    → IsShown p
    → kprintf stack s (format_of (p ∷ ps)) (arguments (p ∷ ps))
      ≡ (kwrite s (shown p) >>= λ s'. kprintf stack s' (format_of ps) (arguments ps))
kprintf_piece stack s (plain c) ps h =
    kprintf_plain stack s c (format_of ps) (arguments ps) h.0 h.1
    ∙ unfold kwrite in
      sym (
        bind_assoc (kputc s c) (λ s'. ok s') (λ s'. kprintf stack s' (format_of ps) (arguments ps)))
kprintf_piece stack s (string cs) ps h =
    kprintf_converted stack s b's' (format_of ps) cs (text (cs ++ 0 ∷ []) ∷ arguments ps)
      (arguments ps) (λ e. omega arith)
      (unfold print_conversion in rw (kprint_lem s cs [] h) (refl))
kprintf_piece stack s (character c) ps h =
    let byte : c % 2 ^ 8 ≡ c = omega arith in
    kprintf_converted stack s b'c' (format_of ps) (c ∷ []) (number c ∷ arguments ps) (arguments ps)
      (λ e. omega arith)
      (unfold print_conversion kwrite in
        rw byte (sym (bind_assoc (kputc s c) (λ s'. ok s') (λ s'. ok (s', arguments ps)))))
kprintf_piece stack s (signed n) ps h = absurd h
kprintf_piece stack s (unsigned n) ps h = absurd h
kprintf_piece stack s (other c) ps h =
    kprintf_converted stack s c (format_of ps) (b'%' ∷ c ∷ []) (arguments ps) (arguments ps) h.0
      (print_other stack s c (arguments ps) h)

-- `kprintf` with a format of plain characters, `%s`, `%c` and unknown conversions (so without `%d`,
-- `%u`, `%x` and `%b`), and with the arguments that it asks for, does to the screen what `kwrite` does with what the pieces show, one
-- after the other.
pub kprintf_lem :
    (stack : List ℕ) (s : Screen) (ps : List Piece)
    → AreShown ps
    → kprintf stack s (format_of ps) (arguments ps) ≡ kwrite s (output ps)
kprintf_lem stack s [] h = unfold kprintf kwrite in refl
kprintf_lem stack s (p ∷ ps) h =
    kprintf_piece stack s p ps h.0
    ∙ ap (λ (f : Screen → Outcome Screen). kwrite s (shown p) >>= f)
        (λ i s'. kprintf_lem stack s' ps h.1 i)
    ∙ sym (kwrite-append s (shown p) (output ps))

-- `kputint` of a number below 2 ^ 31 stores a zero behind the end of its array, whatever the number.
pub kputint-fault : (s : Screen) (n : ℕ) → n < 2 ^ 31 → kputint s (pos n) ≡ fault
unfolding kputint
kputint-fault s n lt =
    let size = length-replicate {A = ℕ} (length (decimal 10 n)) 0 in
    let some_digit : ltb 0 (length (decimal 10 n)) ≡ true = ground (arith, decimal_nonempty 9 n) in
    rw (intlen-decimal n lt, some_digit)
      (rw (int_to_string-fault n (replicate (length (decimal 10 n)) 0) lt (omega (arith, size)))
        (refl))
