-- ===== src/Heap/Sample.antt =====
-- A heap with one block.
use yo_rha.Base.{
  ℕ, zero, suc, ◌+◌, ◌-◌, ◌/◌, ◌≡◌, refl, ap, inl, inr, List, [], ◌∷◌, true, false, arith, ◌==◌,
  ==_iff, length, length-replicate, replicate,
}
use yo_rha.Base.Bits.{all_below, all_below_sound}
use yo_rha.Bitmap.{bit_at}
use yo_rha.Bitmap.Alloc.{IsFull}
use yo_rha.Heap.{AllocEntry, AllocArray, kernel_bitmap_capacity, kmalloc}
use yo_rha.Heap.Invariant.{Live, IsBlock}
use yo_rha.Heap.Malloc.{heap_limit, IsHeap, IsMalloced, kmalloc_cases}

abbrev pub unused : AllocEntry
unused = record { base_ptr = 0; range = record { start = 0; length = 0 }; utilized = false }

abbrev pub unused_slots : ℕ → List AllocEntry
unused_slots zero = []
unused_slots (suc n) = unused ∷ unused_slots n

-- The first eight bytes.
abbrev pub first_block : AllocEntry
first_block = record {
  base_ptr = 0x40_0000;
  range = record { start = 0; length = 8 };
  utilized = true;
}

unfoldable pub zeros : List ℕ
zeros = replicate 1023 0

length-zeros : length zeros ≡ 1023
unfolding zeros
length-zeros = length-replicate {A = ℕ} 1023 0

abbrev pub heap : AllocArray
heap = record {
  bottom = 0x40_0000;
  entries = first_block ∷ unused_slots 8;
  bitmap = 0xff00_0000 ∷ zeros;
  active = true;
}

none_used : (n i : ℕ) (e : AllocEntry) → ¬ Live (unused_slots n) i e
none_used zero i e l = ground arith
none_used (suc n) zero e l = ground arith
none_used (suc n) (suc i) e l = none_used n i e l

only_block : (i : ℕ) (e : AllocEntry) → Live heap.entries i e → (i ≡ 0) × (e ≡ first_block)
only_block zero e l = (refl, ground arith)
only_block (suc i) e l = absurd (none_used 8 i e l)

first_bits : all_below 8 (λ p. bit_at heap.bitmap p == 1) ≡ true
unfolding all_below
first_bits = refl

first-IsBlock : IsBlock 1 heap_limit heap first_block
first-IsBlock = record {
  nonempty = omega arith;
  inside = omega arith;
  based = refl;
  taken = λ q lo hi.
      (==_iff (bit_at heap.bitmap q) 1).0
        (all_below_sound 8 (λ p. bit_at heap.bitmap p == 1) q first_bits hi);
}

pub heap-IsHeap : IsHeap heap
heap-IsHeap = record {
  active = refl;
  words = omega (arith, length-zeros);
  room = omega arith;
  consistent = record {
    block = λ i e l. rw ((only_block i e l).1) first-IsBlock;
    apart = λ i j e f ne l k. absurd (omega (arith, (only_block i e l).0, (only_block j f k).0));
    fresh = λ i j e f lt h k. absurd (omega (arith, (only_block j f k).0));
  };
}

-- 65 bytes fit behind the block.
free_bits : all_below 65 (λ p. bit_at heap.bitmap (8 + p) == 0) ≡ true
unfolding all_below zeros
free_bits = refl

not-IsFull : ¬ IsFull heap.bitmap true 65 (kernel_bitmap_capacity / 4)
not-IsFull full =
    let taken = full 8 (omega arith) (omega arith) in
    let clear = (==_iff (bit_at heap.bitmap (8 + (taken.0 - 8))) 0).0 (
      all_below_sound 65 (λ p. bit_at heap.bitmap (8 + p) == 0) (taken.0 - 8) free_bits
        (omega (arith, taken.1, taken.2))) in
    let place : 8 + (taken.0 - 8) ≡ taken.0 = omega (arith, taken.1) in
    omega (arith, clear, ap (λ (p : ℕ). bit_at heap.bitmap p) place, taken.3)

pub new_block : IsMalloced heap 65 (kmalloc heap 65)
new_block = elim (kmalloc_cases heap 65 heap-IsHeap (omega arith)) [
  | inl m ↦ m
  | inr (_, inl full) ↦ absurd (not-IsFull full)
  | inr (_, inr all) ↦ ground (arith, all 1 unused refl)
]
