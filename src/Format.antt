-- ===== src/Format.antt =====
-- `buff_to_hexstring` and `buff_to_binstring` of src/string.c. The source is the list of the words
-- that are formatted, the destination an array of bytes.
pub mod Hex
pub mod Decimal
mod Tests
use Prim.Native.Nat.{bit_and}
use yo_rha.Base.{
  ℕ, zero, suc, ◌+◌, ◌-◌, ◌*◌, ◌/◌, ◌^◌, List, [], ◌∷◌, ◌++◌, ◌==◌, if◌then◌else◌, get_or,
}
use yo_rha.Base.Outcome.{Outcome, ok, fault, ◌>>=◌}
use yo_rha.Base.Word.{u8, shr, shl32}

abbrev pub nib_to_hex : List ℕ
nib_to_hex =
    b'0' ∷ b'1' ∷ b'2' ∷ b'3' ∷ b'4' ∷ b'5' ∷ b'6' ∷ b'7' ∷ b'8' ∷ b'9' ∷ b'A' ∷ b'B' ∷ b'C' ∷ b'D'
    ∷ b'E' ∷ b'F' ∷ []

-- `*(dst++) = c` for each of the characters.
pub write_chars : List ℕ → List ℕ → Outcome (List ℕ)
write_chars [] dst = ok dst
write_chars (c ∷ cs) [] = fault
write_chars (c ∷ cs) (d ∷ ds) = write_chars cs ds >>= λ ds'. ok (c ∷ ds')

-- The loop over the bytes of one word, the highest first: byte `left - 1` comes next.
pub hex_bytes : ℕ → ℕ → List ℕ
hex_bytes word zero = []
hex_bytes word (suc byte) =
    let top = u8 (bit_and (shr word (byte * 8 + 4)) 0xf) in
    let bottom = u8 (bit_and (shr word (byte * 8)) 0xf) in
    get_or nib_to_hex top 0 ∷ get_or nib_to_hex bottom 0 ∷ hex_bytes word byte

pub hex_words : List ℕ → List ℕ
hex_words [] = []
hex_words (word ∷ words) = hex_bytes word 4 ++ hex_words words

pub buff_to_hexstring : List ℕ → List ℕ → Outcome (List ℕ)
buff_to_hexstring src dst = write_chars (hex_words src) dst

-- The loop over the bits of one word, with `left` bits to go.
pub bin_bits : ℕ → ℕ → List ℕ
bin_bits copy zero = []
bin_bits copy (suc left) =
    (if bit_and copy (shl32 1 left) == 0 then b'0' else b'1') ∷ bin_bits copy left

-- Each word is written to the start of the destination.
pub buff_to_binstring : List ℕ → List ℕ → Outcome (List ℕ)
buff_to_binstring [] dst = ok dst
buff_to_binstring (word ∷ words) dst =
    write_chars (bin_bits word 32) dst >>= buff_to_binstring words
