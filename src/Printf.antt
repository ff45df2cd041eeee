-- ===== src/Printf.antt =====
-- The formatted output of src/vga.c: `kputint`, `kprintf` and `fmt`. The variable arguments are a
-- list, and a format string the bytes from it to the end of its array. `stack` is what the local
-- arrays hold before they are written.
pub mod Pieces
pub mod Fmt
pub mod Kprintf
mod Tests
use yo_rha.Base.{
  ℕ, zero, suc, ◌+◌, ◌-◌, ◌^◌, List, [], ◌∷◌, ◌++◌, ◌==◌, ltb, if◌then◌else◌, take, replicate,
}
use yo_rha.Base.Int.{ℤ, pos, negsuc}
use yo_rha.Base.Outcome.{Outcome, ok, fault, ◌>>=◌}
use yo_rha.Base.Word.{u8}
use yo_rha.Format.{write_chars, buff_to_hexstring, buff_to_binstring}
use yo_rha.Format.Decimal.{intlen, int_to_string}
use yo_rha.Vga.{Screen, kputc, kwrite, kprint}

-- An argument behind the format: a pointer to a text, or 32 bits.
pub data Argument : Type 0 where
  text : List ℕ → Argument
  number : ℕ → Argument

-- The `int` with these 32 bits.
abbrev pub to_int : ℕ → ℤ
to_int n = if ltb n (2 ^ 31) then pos n else negsuc (2 ^ 32 - n - 1)

-- The array has no room for the zero that `int_to_string` stores.
pub kputint : Screen → ℤ → Outcome Screen
kputint s value = intlen value >>= λ len.
    (let room = if ltb 0 len then len else 1 in
      int_to_string value (replicate room 0) >>= λ buffer. kwrite s (take room buffer))

-- The cases of the `switch` of `kprintf`, with the arguments that are left.
pub print_conversion : List ℕ → Screen → ℕ → List Argument → Outcome (Screen × List Argument)
print_conversion stack s next [] =
    if next == b's'
    then fault
    else if next == b'c'
    then fault
    else if next == b'd'
    then fault
    else if next == b'u'
    then fault
    else if next == b'x'
    then fault
    else if next == b'b'
    then fault
    else (kputc s b'%' >>= λ s'. kputc s' next >>= λ s''. ok (s'', []))
print_conversion stack s next (text str ∷ args) =
    let unknown = kputc s b'%' >>= λ s'. kputc s' next >>= λ s''. ok (s'', text str ∷ args) in
    if next == b's'
    then (kprint s str >>= λ s'. ok (s', args))
    else if next == b'c'
    then fault
    else if next == b'd'
    then fault
    else if next == b'u'
    then fault
    else if next == b'x'
    then fault
    else if next == b'b'
    then fault
    else unknown
print_conversion stack s next (number n ∷ args) =
    let unknown = kputc s b'%' >>= λ s'. kputc s' next >>= λ s''. ok (s'', number n ∷ args) in
    if next == b's'
    then fault
    else if next == b'c'
    then (kputc s (u8 n) >>= λ s'. ok (s', args))
    else if next == b'd'
    then (kputint s (to_int n) >>= λ s'. ok (s', args))
    else if next == b'u'
    then (kputint s (to_int n) >>= λ s'. ok (s', args))
    else if next == b'x'
    then (buff_to_hexstring (n ∷ []) (take 9 stack) >>= λ hex_num.
        kwrite s (take 8 hex_num) >>= λ s'. ok (s', args))
    else if next == b'b'
    then (buff_to_binstring (n ∷ []) (take 32 stack) >>= λ bin_string.
        kwrite s bin_string >>= λ s'. ok (s', args))
    else unknown

unfoldable pub kprintf : List ℕ → Screen → List ℕ → List Argument → Outcome Screen
kprintf stack s [] args = fault
kprintf stack s (c ∷ []) args =
    if c == 0 then ok s else if c == b'%' then fault else (kputc s c >>= λ s'. fault)
kprintf stack s (c ∷ next ∷ format) args =
    let plain = kputc s c >>= λ s'. kprintf stack s' (next ∷ format) args in
    let converted = print_conversion stack s next args >>= λ (r : Screen × List Argument).
    kprintf stack r.0 format r.1 in
    if c == 0 then ok s else if c == b'%' then (if next == 0 then ok s else converted) else plain

-- The characters before the first zero.
pub text_of : List ℕ → Outcome (List ℕ)
text_of [] = fault
text_of (c ∷ cs) = let rest = text_of cs >>= λ cs'. ok (c ∷ cs') in if c == 0 then ok [] else rest

-- The cases of the `switch` of `fmt`: the characters that go to the buffer.
pub convert : List ℕ → ℕ → List Argument → Outcome (List ℕ × List Argument)
convert stack next [] =
    if next == b's'
    then fault
    else if next == b'c'
    then fault
    else if next == b'd'
    then fault
    else if next == b'u'
    then fault
    else if next == b'x'
    then fault
    else if next == b'b'
    then fault
    else ok (b'%' ∷ next ∷ [], [])
convert stack next (text str ∷ args) =
    if next == b's'
    then (text_of str >>= λ cs. ok (cs, args))
    else if next == b'c'
    then fault
    else if next == b'd'
    then fault
    else if next == b'u'
    then fault
    else if next == b'x'
    then fault
    else if next == b'b'
    then fault
    else ok (b'%' ∷ next ∷ [], text str ∷ args)
convert stack next (number n ∷ args) =
    let decimal =
      int_to_string (to_int n) (take 12 stack) >>= λ temp. text_of temp >>= λ cs. ok (cs, args) in
    if next == b's'
    then fault
    else if next == b'c'
    then ok (u8 n ∷ [], args)
    else if next == b'd'
    then decimal
    else if next == b'u'
    then decimal
    else if next == b'x'
    then (buff_to_hexstring (n ∷ []) (take 9 stack) >>= λ hex_num.
        text_of hex_num >>= λ cs. ok (cs, args))
    else if next == b'b'
    then (buff_to_binstring (n ∷ []) (take 33 stack) >>= λ bin_string.
        text_of bin_string >>= λ cs. ok (cs, args))
    else ok (b'%' ∷ next ∷ [], number n ∷ args)

-- The characters that `fmt` stores, without the zero at the end.
pub fmt_chars : List ℕ → List ℕ → List Argument → Outcome (List ℕ)
fmt_chars stack [] args = fault
fmt_chars stack (c ∷ []) args = if c == 0 then ok [] else fault
fmt_chars stack (c ∷ next ∷ format) args =
    let plain = fmt_chars stack (next ∷ format) args >>= λ cs. ok (c ∷ cs) in
    let converted = convert stack next args >>= λ (r : List ℕ × List Argument).
    fmt_chars stack format r.1 >>= λ cs. ok (r.0 ++ cs) in
    if c == 0 then ok [] else if c == b'%' then (if next == 0 then ok [] else converted) else plain

pub fmt : List ℕ → List ℕ → List ℕ → List Argument → Outcome (List ℕ)
fmt stack buffer format args =
    fmt_chars stack format args >>= λ cs. write_chars (cs ++ 0 ∷ []) buffer
