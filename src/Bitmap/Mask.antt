-- ===== src/Bitmap/Mask.antt =====
-- The bits of the words that `apply_bitrange` combines.
use yo_rha.Base.{
  ℕ, ◌-◌, ◌/◌, ◌%◌, ◌≤◌, ◌<◌, ◌≡◌, refl, ◌∙◌, Bool, true, false, ◌&&◌, arith, ltb, leb, ◌==◌,
  ==_iff, if◌then◌else◌,
}
use yo_rha.Base.Word.{low_mask, not32}
use yo_rha.Base.Bits.{
  test_bit, test_bit-lt, test_bit_zero, test_bit-bit_or, test_bit-bit_and, test_bit-bit_xor,
  test_bit-low_mask, test_bit-not32, all_below, all_below_sound,
}
use yo_rha.Bitmap.{ones_below, inner_coeff, coeff, combine}

-- What `set` makes of a position.
abbrev pub flag : Bool → ℕ
flag true = 1
flag false = 0

ones_below_table : all_below 32 (λ n. ones_below n == low_mask n) ≡ true
unfolding all_below ones_below
ones_below_table = refl

ones_below-eq : (n : ℕ) → n < 32 → ones_below n ≡ low_mask n
ones_below-eq n h =
    (==_iff (ones_below n) (low_mask n)).0
      (all_below_sound 32 (λ n. ones_below n == low_mask n) n ones_below_table h)

-- The mask of the positions from `start_bit` on.
left_bits :
    (start_bit j : ℕ)
    → start_bit < 32
    → j < 32
    → test_bit (if start_bit == 0 then not32 0 else ones_below (32 - start_bit)) (31 - j)
      ≡ (if leb start_bit j then 1 else 0)
left_bits s j hs hj = ground (
  arith,
  ones_below-eq (32 - s),
  test_bit-low_mask (32 - s) (31 - j),
  test_bit-not32 0 (31 - j),
  test_bit_zero (31 - j),
)

right_bits :
    (end_bit j : ℕ)
    → 0 < end_bit
    → end_bit < 32
    → j < 32
    → test_bit (ones_below (32 - end_bit)) (31 - j) ≡ (if leb end_bit j then 1 else 0)
right_bits e j pos he hj =
    ground (arith, ones_below-eq (32 - e), test_bit-low_mask (32 - e) (31 - j))

inner_bits :
    (start_bit end_bit j : ℕ)
    → start_bit < end_bit
    → end_bit < 32
    → j < 32
    → test_bit (inner_coeff start_bit end_bit) (31 - j)
      ≡ (if leb start_bit j && ltb j end_bit then 1 else 0)
unfolding inner_coeff
inner_bits s e j hse he hj =
    test_bit-bit_xor (if s == 0 then not32 0 else ones_below (32 - s)) (ones_below (32 - e))
      (31 - j)
    ∙ ground (arith, left_bits s j, right_bits e j)

last_bits :
    (end_bit j : ℕ)
    → end_bit < 32
    → j < 32
    → test_bit (if end_bit == 0 then 0 else not32 (ones_below (32 - end_bit))) (31 - j)
      ≡ (if ltb j end_bit then 1 else 0)
last_bits e j he hj =
    ground
      (arith, test_bit-not32 (ones_below (32 - e)) (31 - j), right_bits e j, test_bit_zero (31 - j))

all_bits : (j : ℕ) → j < 32 → test_bit (not32 0) (31 - j) ≡ 1
all_bits j h = ground (arith, test_bit-not32 0 (31 - j), test_bit_zero (31 - j))

-- The coefficients select the positions of the range that lie in the word.
module _ (start end p : ℕ) where
  pub coeff_bits :
      start / 32 < end / 32
      → start / 32 ≤ p / 32
      → p / 32 ≤ end / 32
      → test_bit (coeff (start / 32) (start % 32) (end / 32) (end % 32) (p / 32)) (31 - p % 32)
        ≡ (if leb start p && ltb p end then 1 else 0)
  unfolding coeff
  coeff_bits h lo hi =
      ground
        (arith, left_bits (start % 32) (p % 32), last_bits (end % 32) (p % 32), all_bits (p % 32))

  pub inner_coeff_bits :
      start < end
      → start / 32 ≡ end / 32
      → p / 32 ≡ end / 32
      → test_bit (inner_coeff (start % 32) (end % 32)) (31 - p % 32)
        ≡ (if leb start p && ltb p end then 1 else 0)
  inner_coeff_bits h same here = ground (arith, inner_bits (start % 32) (end % 32) (p % 32))

pub test_bit-combine :
    (b : Bool) (w c k : ℕ)
    → k < 32
    → test_bit (combine b w c) k ≡ (if test_bit c k == 1 then flag b else test_bit w k)
unfolding combine
test_bit-combine true w c k h =
    ground (arith, test_bit-bit_or w c k, test_bit-lt w k, test_bit-lt c k)
test_bit-combine false w c k h =
    ground
      (arith, test_bit-bit_and w (not32 c) k, test_bit-not32 c k, test_bit-lt w k, test_bit-lt c k)
