-- ===== src/Bitmap/Tests.antt =====
-- Runs of the allocator on small bitmaps, and the theorems at concrete inputs.
use yo_rha.Base.{ℕ, ◌≡◌, refl, ◌⊎◌, List, [], ◌∷◌, true, false, arith, inl, inr}
use yo_rha.Base.Outcome.{ok, fault}
use yo_rha.Bitmap.{BitRange, apply_bitrange, alloc_bitrange, no_range}
use yo_rha.Bitmap.Apply.{IsApplied, apply_bitrange-IsApplied, apply_bitrange-fault}
use yo_rha.Bitmap.Alloc.{IsAllocated, IsFull, alloc_bitrange_cases}

abbrev three_words : List ℕ
three_words = 0xf800_0000 ∷ 0 ∷ 0 ∷ []

abbrev over_two_words : BitRange
over_two_words = record { start = 4; length = 32 }

apply_over_two_words :
    apply_bitrange (0 ∷ 0 ∷ 0 ∷ []) over_two_words true ≡ ok (0x0fff_ffff ∷ 0xf000_0000 ∷ 0 ∷ [])
unfolding apply_bitrange
apply_over_two_words = refl

-- The next range of whole words starts behind the nibble of the last taken position.
alloc_aligned :
    alloc_bitrange three_words 8 5 true
    ≡ ok (record { start = 8; length = 5 }, 0xf8f8_0000 ∷ 0 ∷ 0 ∷ [])
unfolding alloc_bitrange
alloc_aligned = refl

alloc_unaligned :
    alloc_bitrange three_words 8 5 false
    ≡ ok (record { start = 5; length = 5 }, 0xffc0_0000 ∷ 0 ∷ 0 ∷ [])
unfolding alloc_bitrange
alloc_unaligned = refl

alloc_full : alloc_bitrange (0xffff_ffff ∷ []) 4 5 true ≡ ok (no_range, 0xffff_ffff ∷ [])
unfolding alloc_bitrange
alloc_full = refl

-- A capacity in bits makes the scan leave the bitmap.
alloc_past_the_end : alloc_bitrange (0xffff_ffff ∷ []) 32 1 false ≡ fault
unfolding alloc_bitrange
alloc_past_the_end = refl

apply_bitrange-IsApplied_example :
    IsApplied 4 36 true three_words (apply_bitrange three_words over_two_words true)
apply_bitrange-IsApplied_example =
    apply_bitrange-IsApplied three_words over_two_words true (omega arith) (omega arith)
      (omega arith)

apply_bitrange-fault_example :
    apply_bitrange (0 ∷ []) (record { start = 31; length = 1 }) true ≡ fault
apply_bitrange-fault_example =
    apply_bitrange-fault (0 ∷ []) (record { start = 31; length = 1 }) true (omega arith) refl
      (omega arith)

alloc_bitrange_cases_example :
    IsAllocated three_words true 5 2 (alloc_bitrange three_words 8 5 true)
    ⊎ (alloc_bitrange three_words 8 5 true ≡ ok (no_range, three_words))
      × IsFull three_words true 5 2
alloc_bitrange_cases_example =
    alloc_bitrange_cases three_words true 5 8 (omega arith) (omega arith)
      (λ s h first. (omega arith, omega arith))

five_at_eight : IsAllocated three_words true 5 2 (alloc_bitrange three_words 8 5 true)
unfolding alloc_bitrange
five_at_eight = elim alloc_bitrange_cases_example [ inl a ↦ a | inr none_left ↦ ground arith ]

start_of_five : five_at_eight.range.start ≡ 8
start_of_five = ground (arith, five_at_eight.returns, alloc_aligned)
