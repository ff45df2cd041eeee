-- ===== src/Bitmap/Alloc.antt =====
-- `alloc_bitrange`: first fit, and what it does to the bitmap.
use yo_rha.Base.{
  ℕ, ◌+◌, ◌-◌, ◌*◌, ◌/◌, ◌%◌, ◌^◌, ◌≤◌, ◌<◌, ◌≡◌, refl, ◌⊎◌, inl, inr, Bool, true, ◌&&◌, List,
  arith, ltb, leb, if◌then◌else◌, length,
}
use yo_rha.Base.Outcome.{Outcome, ok, panicked, fault, diverges, ◌>>=◌}
use yo_rha.Bitmap.{
  BitRange, bit_at, Cursor, ScanResult, found, next, scan_words, cursor_zero, no_range, finish,
  apply_bitrange, alloc_bitrange,
}
use yo_rha.Bitmap.Apply.{IsApplied, apply_bitrange-IsApplied}
use yo_rha.Bitmap.Passed.{IsFirstFit, grain, Blocked, NoneBelow, ScanPost}
use yo_rha.Bitmap.Scan.{scan-ScanPost}

-- `result` is the lowest free range of `count` positions (at a multiple of the grain) in the
-- first `words` words, which was free before and is taken now, while every other position is as it was.
pub record IsAllocated (bitmap : List ℕ) (align : Bool) (count words : ℕ)
    (result : Outcome (BitRange × List ℕ)) : Type 0 where
  pub range : BitRange
  pub out : List ℕ
  pub returns : result ≡ ok (range, out)
  pub full_length : range.length ≡ count
  pub inside : range.start + count ≤ words * 32
  pub aligned : range.start % grain align ≡ 0
  pub was_free : (q : ℕ) → range.start ≤ q → q < range.start + count → bit_at bitmap q ≡ 0
  pub first : NoneBelow bitmap align count range.start
  pub same_length : length out ≡ length bitmap
  pub bits :
      (p : ℕ)
      → bit_at out p
        ≡ (if leb range.start p && ltb p (range.start + count) then 1 else bit_at bitmap p)

-- No range of the kind that is asked for is free in the first `words` words.
abbrev pub IsFull : List ℕ → Bool → ℕ → ℕ → Type 0
IsFull bitmap align count words =
    (s : ℕ) → s % grain align ≡ 0 → s + count ≤ words * 32 → Blocked bitmap align count s count

module _ (bitmap : List ℕ) (align : Bool) (count : ℕ) where
  finish-IsAllocated :
      (c : Cursor) (words : ℕ)
      → 0 < count
      → IsFirstFit bitmap align count c
      → c.start + count ≤ words * 32
      → c.start + count < 32 * length bitmap
      → c.start + count < 2 ^ 21 - 32
      → IsAllocated bitmap align count words (finish bitmap (found c))
  finish-IsAllocated c words pos fit within inside small =
      let e : c.length ≡ count = fit.full_length in
      let range : BitRange = record { start = c.start; length = c.length } in
      let done : IsApplied c.start (c.start + c.length) true bitmap
          (apply_bitrange bitmap range true) =
        apply_bitrange-IsApplied bitmap range true (rw e pos) (rw e inside) (rw e small) in
      record {
        range = range;
        out = done.out;
        returns = rw done.returns;
        full_length = e;
        inside = within;
        aligned = fit.aligned;
        was_free = fit.free;
        first = fit.first;
        same_length = done.same_length;
        bits = λ p. ground (arith, done.bits p);
      }

  -- `alloc_bitrange` for a positive count either returns the empty range and the bitmap as it was,
  -- and then no such range is free in the words that it looks at, or takes the lowest one. It looks
  -- at `capacity / 4` words, all in the bitmap; a range that it finds ends before the last position
  -- of the bitmap and below the limit of the word counter.
  pub alloc_bitrange_cases :
      (capacity : ℕ)
      → 0 < count
      → capacity / 4 ≤ length bitmap
      → ((s : ℕ)
          → s + count ≤ capacity / 4 * 32
          → NoneBelow bitmap align count s
          → (s + count < 32 * length bitmap) × (s + count < 2 ^ 21 - 32))
      → IsAllocated bitmap align count (capacity / 4) (alloc_bitrange bitmap capacity count align)
        ⊎ (alloc_bitrange bitmap capacity count align ≡ ok (no_range, bitmap))
          × IsFull bitmap align count (capacity / 4)
  alloc_bitrange_cases capacity pos words ends =
      unfold alloc_bitrange in
      go (scan_words bitmap align count (capacity / 4) 0 cursor_zero)
        (scan-ScanPost bitmap align count pos (capacity / 4) words)
    where
      go :
          (r : Outcome ScanResult)
          → ScanPost bitmap align count (capacity / 4 * 32) r
          → IsAllocated bitmap align count (capacity / 4) (r >>= finish bitmap)
            ⊎ ((r >>= finish bitmap) ≡ ok (no_range, bitmap))
              × IsFull bitmap align count (capacity / 4)
      go (ok (found c)) p =
          let inside : c.start + count ≤ capacity / 4 * 32 = omega (arith, p.0.full_length) in
          let fits : (c.start + count < 32 * length bitmap) × (c.start + count < 2 ^ 21 - 32) =
            ends c.start inside p.0.first in
          inl (finish-IsAllocated c (capacity / 4) pos p.0 inside fits.0 fits.1)
      go (ok (next c)) p = inr (refl, p.none_before)
      go panicked p = absurd p
      go fault p = absurd p
      go diverges p = absurd p
