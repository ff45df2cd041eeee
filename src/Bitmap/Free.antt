-- ===== src/Bitmap/Free.antt =====
-- `dealloc_bitrange` against `alloc_bitrange`.
use yo_rha.Base.{ℕ, ◌+◌, ◌-◌, ◌*◌, ◌^◌, ◌<◌, ◌≡◌, Bool, false, List, arith, length}
use yo_rha.Base.Outcome.{Outcome, ok}
use yo_rha.Bitmap.{BitRange, bit_at, dealloc_bitrange}
use yo_rha.Bitmap.Apply.{IsApplied, apply_bitrange-IsApplied}
use yo_rha.Bitmap.Alloc.{IsAllocated}

-- Freeing the range that was just allocated returns, and frees exactly that range again: every
-- position is as it was before the allocation.
pub dealloc-alloc :
    (bitmap : List ℕ) (align : Bool) (count words : ℕ) {result : Outcome (BitRange × List ℕ)}
    → 0 < count
    → (a : IsAllocated bitmap align count words result) → a.range.start + count < 32 * length bitmap
    → a.range.start + count < 2 ^ 21 - 32
    → (freed : List ℕ) × (dealloc_bitrange a.out a.range ≡ ok freed)
      × (length freed ≡ length bitmap)
      × ((p : ℕ) → bit_at freed p ≡ bit_at bitmap p)
dealloc-alloc bitmap align count words pos a inside small = (
  done.out,
  unfold dealloc_bitrange in done.returns,
  omega (arith, done.same_length, a.same_length),
  λ p. ground (arith, done.bits p, a.bits p, a.was_free p, a.full_length),
)
  where
    done :
        IsApplied a.range.start
          (a.range.start + a.range.length)
          false
          a.out
          (dealloc_bitrange a.out a.range)
    done =
        unfold dealloc_bitrange in
        apply_bitrange-IsApplied a.out a.range false (omega (arith, a.full_length))
          (omega (arith, a.full_length, a.same_length)) (omega (arith, a.full_length))
