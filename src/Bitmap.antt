-- ===== src/Bitmap.antt =====
-- The bitmap allocator of src/util.c: `apply_bitrange`, `alloc_bitrange`, `dealloc_bitrange`.
-- A bitmap is the list of its 32-bit words; bit 31 of a word is its first position. An access
-- past the last word is `fault`. `dealloc_bitrange` and `alloc_bitrange` write the new words
-- through the pointer that they are given, so they return the list beside their result.
mod Mask
pub mod Words
pub mod Apply
pub mod Passed
pub mod Scan
pub mod Alloc
pub mod Free
mod Tests
use Prim.Native.Nat.{bit_and, bit_or, bit_xor}
use yo_rha.Base.{
  ℕ, zero, suc, ◌+◌, ◌-◌, ◌*◌, ◌/◌, ◌%◌, ◌^◌, Bool, true, false, not, ◌&&◌, List, Option, none,
  some, ltb, ◌==◌, if◌then◌else◌, get_elem?, set, get_or,
}
use yo_rha.Base.Outcome.{Outcome, ok, fault, diverges, ◌>>=◌, in_bounds}
use yo_rha.Base.Word.{u16, u32, add32, sub32, shl32, not32}
use yo_rha.Base.Bits.{test_bit}

pub record BitRange : Type 0 where
  pub start : ℕ
  pub length : ℕ

-- The state of a position: 1 is taken. Positions past the end read as free.
abbrev pub bit_at : List ℕ → ℕ → ℕ
bit_at bitmap p = test_bit (get_or bitmap (p / 32) 0) (31 - p % 32)

-- `(1 << n) - 1`, computed in 32 bits.
pub ones_below : ℕ → ℕ
ones_below n = sub32 (shl32 1 n) 1

-- The word that `bitmap[word]` is combined with, when the range ends in the word where it starts.
pub inner_coeff : ℕ → ℕ → ℕ
inner_coeff start_bit end_bit =
    bit_xor (if start_bit == 0 then not32 0 else ones_below (32 - start_bit))
      (ones_below (32 - end_bit))

-- The same for a range over several words.
pub coeff : ℕ → ℕ → ℕ → ℕ → ℕ → ℕ
coeff start_word start_bit end_word end_bit word =
    if word == start_word
    then (if start_bit == 0 then not32 0 else ones_below (32 - start_bit))
    else (if word == end_word
        then (if end_bit == 0 then 0 else not32 (ones_below (32 - end_bit)))
        else not32 0)

-- `bitmap[word] |= c` or `bitmap[word] &= ~c`.
pub combine : Bool → ℕ → ℕ → ℕ
combine true w c = bit_or w c
combine false w c = bit_and w (not32 c)

pub write_word : List ℕ → ℕ → ℕ → Bool → Outcome (List ℕ)
write_word bitmap word c set? =
    in_bounds (get_elem? bitmap word) >>= λ w. ok (set bitmap word (combine set? w c))

-- The loop of `apply_bitrange`; `word` is a `uint16_t`.
module _ (start_word start_bit end_word end_bit : ℕ) (set? : Bool) where
  pub apply_words : ℕ → ℕ → List ℕ → Outcome (List ℕ)
  apply_words zero word bitmap = diverges
  apply_words (suc fuel) word bitmap = elim (ltb end_word word) [
    | true ↦ ok bitmap
    | false ↦ elim (start_word == end_word) [
      | true ↦ write_word bitmap word (inner_coeff start_bit end_bit) set?
      | false ↦
          write_word bitmap word (coeff start_word start_bit end_word end_bit word) set?
          >>= λ bitmap'. apply_words fuel (u16 (word + 1)) bitmap'
    ]
  ]

-- `word` counts up to `end_word + 1`, or for ever if it wraps below that.
unfoldable pub apply_bitrange : List ℕ → BitRange → Bool → Outcome (List ℕ)
unfolding apply_words write_word coeff inner_coeff ones_below combine
apply_bitrange bitmap range set? =
    let start_word = range.start / 32 in
    let end = add32 range.start range.length in
    let end_word = end / 32 in
    if range.length == 0 && range.start == 0
    then ok bitmap
    else apply_words start_word (range.start % 32) end_word (end % 32) set? (end_word + 2)
        (u16 start_word) bitmap

unfoldable pub dealloc_bitrange : List ℕ → BitRange → Outcome (List ℕ)
unfolding apply_bitrange
dealloc_bitrange bitmap range = apply_bitrange bitmap range false

-- `curr_start` and `curr_length` of `alloc_bitrange`.
pub record Cursor : Type 0 where
  pub start : ℕ
  pub length : ℕ

-- Whether the scan reached `count` free positions or goes on.
pub data ScanResult : Type 0 where
  found : Cursor → ScanResult
  next : Cursor → ScanResult

-- One pass of the inner loop's body before its test: the `bit` that it leaves and the cursor.
pub visit : Bool → ℕ → ℕ → ℕ → Cursor → ℕ × Cursor
visit word_align w i bit c =
    if bit_and w (shl32 1 bit) == 0
    then (bit, record { start = c.start; length = c.length + 1 })
    else (let bit' = if word_align then bit_and bit 0xfc else bit in
        (
          bit',
          record {
            start = if bit' == 0 then (i + 1) * 32 else i * 32 + (31 - (bit' - 1));
            length = 0;
          },
        ))

-- The inner loop over one word: `left` is `bit + 1`, and 0 ends it.
pub scan_bits : Bool → ℕ → ℕ → ℕ → ℕ → ℕ → Cursor → Outcome ScanResult
scan_bits word_align count w i fuel zero c = ok (next c)
scan_bits word_align count w i zero (suc bit) c = diverges
scan_bits word_align count w i (suc fuel) (suc bit) c =
    let step = visit word_align w i bit c in
    let rest = scan_bits word_align count w i fuel step.0 step.1 in
    if step.1.length == count then ok (found step.1) else rest

-- The outer loop, with `left` words to go from word `i`.
pub scan_words : List ℕ → Bool → ℕ → ℕ → ℕ → Cursor → Outcome ScanResult
scan_words bitmap word_align count zero i c = ok (next c)
scan_words bitmap word_align count (suc left) i c = in_bounds (get_elem? bitmap i) >>= λ w.
    scan_bits word_align count w i 32 32 c >>= λ s. elim s [
      | found c' ↦ ok (found c')
      | next c' ↦ scan_words bitmap word_align count left (i + 1) c'
    ]

abbrev pub no_range : BitRange
no_range = record { start = 0; length = 0 }

abbrev pub cursor_zero : Cursor
cursor_zero = record { start = 0; length = 0 }

abbrev finish : List ℕ → ScanResult → Outcome (BitRange × List ℕ)
finish bitmap (found c) =
    let range : BitRange = record { start = c.start; length = c.length } in
    apply_bitrange bitmap range true >>= λ bitmap'. ok (range, bitmap')
finish bitmap (next c) = ok (no_range, bitmap)

-- `capacity / sizeof(uint32_t)` words are looked at.
unfoldable pub alloc_bitrange : List ℕ → ℕ → ℕ → Bool → Outcome (BitRange × List ℕ)
unfolding scan_words scan_bits visit apply_bitrange
alloc_bitrange bitmap capacity count word_align =
    scan_words bitmap word_align count (capacity / 4) 0 cursor_zero >>= finish bitmap
