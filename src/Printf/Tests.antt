-- ===== src/Printf/Tests.antt =====
-- `n=%d %s%c%%`
use yo_rha.Base.{ℕ, ◌+◌, ◌≡◌, refl, arith, List, [], ◌∷◌, ◌++◌, length, drop, replicate}
use yo_rha.Base.Outcome.{ok}
use yo_rha.Vga.{Screen, kwrite}
use yo_rha.Format.Decimal.Digits.{decimal}
use yo_rha.Printf.{fmt, kprintf}
use yo_rha.Printf.Pieces.{
  Piece, plain, string, character, signed, unsigned, other, IsPiece, format_of, arguments, output,
}
use yo_rha.Printf.Fmt.{fmt_lem}
use yo_rha.Printf.Kprintf.{AreShown, kprintf_lem}

abbrev greeting : List Piece
greeting = plain b'n' ∷ plain b'=' ∷ string (b'o' ∷ b'k' ∷ []) ∷ character b'!' ∷ other b'%' ∷ []

abbrev pieces : List Piece
pieces = signed 42 ∷ unsigned 7 ∷ greeting

abbrev stack : List ℕ
stack = replicate 33 7

abbrev buffer : List ℕ
buffer = replicate 20 5

greeting-AreShown : AreShown greeting
greeting-AreShown =
    let percent : IsPiece (other b'%') = (
      λ e. omega arith,
      λ e. omega arith,
      λ e. omega arith,
      λ e. omega arith,
      λ e. omega arith,
      λ e. omega arith,
      λ e. omega arith,
    ) in
    let text : IsPiece (string (b'o' ∷ b'k' ∷ [])) = (λ e. omega arith, (λ e. omega arith, tt)) in
    (
      (λ e. omega arith, λ e. omega arith),
      ((λ e. omega arith, λ e. omega arith), (text, (omega arith, (percent, tt)))),
    )

fmt_lem_example :
    fmt stack buffer (format_of pieces) (arguments pieces)
    ≡ ok ((output pieces ++ 0 ∷ []) ++ drop (length (output pieces) + 1) buffer)
unfolding decimal
fmt_lem_example =
    fmt_lem stack buffer pieces (omega arith) (omega arith, (omega arith, (greeting-AreShown)))
      (omega arith)

-- The text of the example, character by character.
shown_text :
    output pieces ≡ b'4' ∷ b'2' ∷ b'7' ∷ b'n' ∷ b'=' ∷ b'o' ∷ b'k' ∷ b'!' ∷ b'%' ∷ b'%' ∷ []
unfolding decimal
shown_text = refl

abbrev screen : Screen
screen = record {
  terminal_row = 0;
  terminal_column = 0;
  terminal_color = 7;
  terminal_buffer = replicate 2000 0;
  ports = [];
}

kprintf_lem_example :
    kprintf stack screen (format_of greeting) (arguments greeting) ≡ kwrite screen (output greeting)
kprintf_lem_example = kprintf_lem stack screen greeting greeting-AreShown
