-- ===== src/Format/Hex.antt =====
-- The digits of a word read back.
use Prim.Native.Nat.{bit_and}
use yo_rha.Base.{
  ℕ, ◌+◌, ◌-◌, ◌*◌, ◌/◌, ◌%◌, ◌^◌, ◌≤◌, ◌<◌, ◌≡◌, refl, ap, ◌∙◌, List, [], ◌∷◌, ◌++◌, arith, true,
  leb, ◌==◌, ==_iff, if◌then◌else◌, length, get_or, drop,
}
use yo_rha.Base.Outcome.{ok}
use yo_rha.Base.Bits.{bit_and-low_mask, all_below, all_below_sound}
use yo_rha.Format.{nib_to_hex, write_chars, hex_bytes, hex_words, buff_to_hexstring}

-- The value of a hexadecimal digit, and of digits after those that gave `n`.
abbrev digit_value : ℕ → ℕ
digit_value c = if leb b'A' c then c - 55 else c - 48

abbrev pub hex_value : ℕ → List ℕ → ℕ
hex_value n [] = n
hex_value n (c ∷ cs) = hex_value (n * 16 + digit_value c) cs

digit_table : all_below 16 (λ n. digit_value (get_or nib_to_hex n 0) == n) ≡ true
unfolding all_below
digit_table = refl

nibble : (x : ℕ) → digit_value (get_or nib_to_hex (bit_and x 0xf % 2 ^ 8) 0) ≡ x % 16
nibble x =
    let low : bit_and x 0xf % 2 ^ 8 ≡ x % 16 = omega (arith, bit_and-low_mask 4 x) in
    rw low (
      (==_iff _ _).0 (
        all_below_sound 16 (λ n. digit_value (get_or nib_to_hex n 0) == n) (x % 16) digit_table
          (omega arith)))

pub write_chars_lem :
    (cs dst : List ℕ)
    → length cs ≤ length dst
    → write_chars cs dst ≡ ok (cs ++ drop (length cs) dst)
unfolding write_chars
write_chars_lem [] dst h = refl
write_chars_lem (c ∷ cs) [] h = absurd (omega arith)
write_chars_lem (c ∷ cs) (d ∷ ds) h = rw (write_chars_lem cs ds (omega arith)) (refl)

bytes_value : (word : ℕ) → word < 2 ^ 32 → hex_value 0 (hex_bytes word 4) ≡ word
unfolding hex_bytes
bytes_value word h =
    rw
      (
        nibble (word / 2 ^ 28),
        nibble (word / 2 ^ 24),
        nibble (word / 2 ^ 20),
        nibble (word / 2 ^ 16),
        nibble (word / 2 ^ 12),
        nibble (word / 2 ^ 8),
        nibble (word / 2 ^ 4),
        nibble (word / 2 ^ 0),
      )
      (omega arith)

append_nil : (xs : List ℕ) → xs ++ [] ≡ xs
append_nil [] = refl
append_nil (x ∷ xs) = ap (λ (l : List ℕ). x ∷ l) (append_nil xs)

-- `buff_to_hexstring` of one 32-bit word, to at least eight characters, writes eight hexadecimal
-- digits that read back as the word, and leaves the rest of the array.
pub buff_to_hexstring_lem :
    (word : ℕ) (dst : List ℕ)
    → word < 2 ^ 32
    → 8 ≤ length dst
    → (cs : List ℕ) × (buff_to_hexstring (word ∷ []) dst ≡ ok (cs ++ drop 8 dst))
      × (length cs ≡ 8)
      × (hex_value 0 cs ≡ word)
unfolding buff_to_hexstring hex_words
buff_to_hexstring_lem word dst h room =
    let eight : length (hex_bytes word 4) ≡ 8 = unfold hex_bytes in refl in
    (
      hex_bytes word 4,
      rw (append_nil (hex_bytes word 4)) (
          write_chars_lem (hex_bytes word 4) dst (omega (arith, eight))
          ∙ ap (λ (n : ℕ). ok (hex_bytes word 4 ++ drop n dst)) eight),
      eight,
      bytes_value word h,
    )
