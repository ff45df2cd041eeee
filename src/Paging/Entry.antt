-- ===== src/Paging/Entry.antt =====
-- The entries of the page tables as frame number and flags.
use Prim.Native.Nat.{bit_and, bit_or}
use yo_rha.Base.{
  ℕ, ◌+◌, ◌-◌, ◌*◌, ◌/◌, ◌%◌, ◌^◌, ◌<◌, ◌≡◌, refl, ap, ◌∙◌, true, arith, ◌==◌, ltb, ◌&&◌,
}
use yo_rha.Base.Word.{low_mask}
use yo_rha.Base.Bits.{
  test_bit, test_bit-lt, test_bit_zero, test_bit-bit_or, test_bit-bit_and, test_bit-low_mask,
  test_bit-mod, test_bit-fields, bits_ext, bit_or-fields, bit_and-low_mask, all_below,
  all_below_sound,
}

-- `x & PAGE_PRESENT` is tested.
pub present_test : (x : ℕ) → (bit_and x 1 == 0) ≡ (x % 2 == 0)
present_test x = ap (λ (n : ℕ). n == 0) (bit_and-low_mask 1 x)

pub page_offset : (x : ℕ) → bit_and x 0xfff ≡ x % 4096
page_offset x = bit_and-low_mask 12 x

pub table_index : (x : ℕ) → bit_and x 0x3ff ≡ x % 1024
table_index x = bit_and-low_mask 10 x

-- The bits of a 32-bit word above the lowest twelve.
pub page_mask : (x : ℕ) → x < 2 ^ 32 → bit_and x 0xffff_f000 ≡ x / 4096 * 4096
page_mask x h = bits_ext _ _ λ k.
    let frame = x / 4096 in
    let whole : frame * 2 ^ 12 + x % 4096 ≡ x = omega arith in
    let short : frame % 2 ^ 20 ≡ frame = omega arith in
    let bare : frame * 2 ^ 12 + 0 ≡ frame * 4096 = omega arith in
    ground (
      arith,
      test_bit-bit_and x 0xffff_f000 k,
      test_bit-fields 12 frame (x % 4096) k,
      ap (λ (n : ℕ). test_bit n k) whole,
      test_bit-fields 12 frame 0 k,
      ap (λ (n : ℕ). test_bit n k) bare,
      test_bit-fields 12 (low_mask 20) 0 k,
      test_bit-low_mask 20 (k - 12),
      test_bit-mod 20 frame (k - 12),
      ap (λ (n : ℕ). test_bit n (k - 12)) short,
      test_bit_zero k,
      test_bit-lt frame (k - 12),
    )

bit_or_assoc : (a b c : ℕ) → bit_or (bit_or a b) c ≡ bit_or a (bit_or b c)
bit_or_assoc a b c = bits_ext _ _ λ k. ground (
  arith,
  test_bit-bit_or (bit_or a b) c k,
  test_bit-bit_or a b k,
  test_bit-bit_or a (bit_or b c) k,
  test_bit-bit_or b c k,
)

present_table : all_below 4096 (λ f. ltb (bit_or f 1) 4096 && (bit_or f 1 % 2 == 1)) ≡ true
unfolding all_below
present_table = refl

-- An entry that is made from a frame and flags names that frame and is present.
pub made_entry :
    (base flags : ℕ)
    → base % 4096 ≡ 0
    → base < 2 ^ 32
    → flags < 4096
    → (bit_or (bit_or base flags) 1 / 4096 ≡ base / 4096)
      × (bit_or (bit_or base flags) 1 % 2 ≡ 1)
      × (bit_or (bit_or base flags) 1 < 2 ^ 32)
made_entry base flags aligned small hf =
    let row =
      all_below_sound 4096 (λ f. ltb (bit_or f 1) 4096 && (bit_or f 1 % 2 == 1)) flags present_table
        hf in
    let low : (bit_or flags 1 < 4096) × (bit_or flags 1 % 2 ≡ 1) = ground (arith, row) in
    let split : bit_or (bit_or base flags) 1 ≡ base / 4096 * 4096 + bit_or flags 1 =
      bit_or_assoc base flags 1
      ∙ ap (λ (b : ℕ). bit_or b (bit_or flags 1)) (omega arith)
      ∙ bit_or-fields 12 (base / 4096) (bit_or flags 1) low.0 in
    (omega (arith, split, low.0), omega (arith, split, low.1), omega (arith, split, low.0))
