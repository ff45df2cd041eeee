-- ===== src/Heap/Tests.antt =====
-- The theorems about the heap, at the heap with one block.
use yo_rha.Base.{
  ℕ, ◌+◌, ◌-◌, ◌/◌, ◌%◌, ◌≡◌, refl, ap, ◌⊎◌, inl, inr, [], ◌∷◌, true, arith, ◌&&◌, ◌==◌, ==_iff,
  ltb, leb, if◌then◌else◌,
}
use yo_rha.Base.Outcome.{ok, panicked}
use yo_rha.Base.Bits.{all_below, all_below_sound}
use yo_rha.Bitmap.{bit_at}
use yo_rha.Bitmap.Alloc.{IsFull}
use yo_rha.Memory.{Memory}
use yo_rha.Heap.{AllocArray, kernel_bitmap_capacity, kmalloc, kfree, kcalloc, krealloc}
use yo_rha.Heap.Slots.{AllUsed}
use yo_rha.Heap.Malloc.{IsHeap, IsMalloced, kmalloc_cases}
use yo_rha.Heap.Free.{IsFreed, kfree-IsFreed, kfree-kmalloc}
use yo_rha.Heap.Client.{Reachable, starts, steps, allocates, here}
use yo_rha.Heap.Safety.{IsSafe, Reachable-IsSafe, Reachable-kfree}
use yo_rha.Heap.Contents.{NoRoom, IsRealloced, krealloc_cases, kcalloc_cases}
use yo_rha.Heap.Sample.{unused, first_block, heap, heap-IsHeap}

kmalloc_cases_example :
    IsMalloced heap 16 (kmalloc heap 16)
    ⊎ (kmalloc heap 16 ≡ panicked)
      × (IsFull heap.bitmap true 16 (kernel_bitmap_capacity / 4) ⊎ AllUsed heap.entries)
kmalloc_cases_example = kmalloc_cases heap 16 heap-IsHeap (omega arith)

kfree-IsFreed_example : IsFreed heap 0 first_block (kfree heap 0x40_0000)
kfree-IsFreed_example = kfree-IsFreed heap heap-IsHeap 0 first_block (refl, refl)

abbrev memory : Memory
memory = λ p. p % 256

krealloc_cases_example :
    IsRealloced heap memory 0 first_block 16 (krealloc heap memory 0x40_0000 16)
    ⊎ (krealloc heap memory 0x40_0000 16 ≡ panicked) × NoRoom heap 16
krealloc_cases_example =
    krealloc_cases heap memory 0 first_block 16 heap-IsHeap (refl, refl) (omega arith)

kcalloc_cases_example :
    ((b : IsMalloced heap 16 (kmalloc heap 16)) × (m' : Memory) × (kcalloc heap memory 4 4
        ≡ ok (b.entry.base_ptr, b.out, m'))
      × ((p : ℕ)
          → m' p
            ≡ (if leb b.entry.base_ptr p && ltb p (b.entry.base_ptr + 16) then 0 else memory p)))
    ⊎ (kcalloc heap memory 4 4 ≡ panicked) × NoRoom heap 16
kcalloc_cases_example = kcalloc_cases heap memory 4 4 heap-IsHeap (omega arith)

free_bits : all_below 16 (λ p. bit_at heap.bitmap (8 + p) == 0) ≡ true
unfolding all_below
free_bits = refl

not-IsFull : ¬ IsFull heap.bitmap true 16 (kernel_bitmap_capacity / 4)
not-IsFull full =
    let taken = full 8 (omega arith) (omega arith) in
    let clear = (==_iff (bit_at heap.bitmap (8 + (taken.0 - 8))) 0).0 (
      all_below_sound 16 (λ p. bit_at heap.bitmap (8 + p) == 0) (taken.0 - 8) free_bits
        (omega (arith, taken.1, taken.2))) in
    let place : 8 + (taken.0 - 8) ≡ taken.0 = omega (arith, taken.1) in
    omega (arith, clear, ap (λ (p : ℕ). bit_at heap.bitmap p) place, taken.3)

sixteen_bytes : IsMalloced heap 16 (kmalloc heap 16)
sixteen_bytes = elim kmalloc_cases_example [
  | inl m ↦ m
  | inr (_, inl full) ↦ absurd (not-IsFull full)
  | inr (_, inr all) ↦ ground (arith, all 1 unused refl)
]

kfree-kmalloc_example :
    (freed : AllocArray) × (kfree sixteen_bytes.out sixteen_bytes.entry.base_ptr ≡ ok freed)
    × IsHeap freed
    × ((p : ℕ) → bit_at freed.bitmap p ≡ bit_at heap.bitmap p)
kfree-kmalloc_example =
    kfree-kmalloc heap 16 sixteen_bytes.entry.base_ptr sixteen_bytes.out heap-IsHeap (omega arith)
      sixteen_bytes.returns

sixteen_Reachable : Reachable heap sixteen_bytes.out ((sixteen_bytes.entry.base_ptr, 16) ∷ [])
sixteen_Reachable = steps starts (allocates (omega arith) sixteen_bytes.returns)

Reachable-IsSafe_example : IsSafe sixteen_bytes.out ((sixteen_bytes.entry.base_ptr, 16) ∷ [])
Reachable-IsSafe_example =
    Reachable-IsSafe heap sixteen_bytes.out ((sixteen_bytes.entry.base_ptr, 16) ∷ []) heap-IsHeap
      sixteen_Reachable

Reachable-kfree_example :
    (out : AllocArray) × (kfree sixteen_bytes.out sixteen_bytes.entry.base_ptr ≡ ok out)
    × IsSafe out []
Reachable-kfree_example =
    Reachable-kfree heap sixteen_bytes.out ((sixteen_bytes.entry.base_ptr, 16) ∷ []) []
      (sixteen_bytes.entry.base_ptr, 16) heap-IsHeap sixteen_Reachable here
