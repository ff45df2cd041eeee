-- ===== src/Heap/Contents.antt =====
-- `krealloc` and `kcalloc`: the block and the bytes in it.
use yo_rha.Base.{
  ℕ, ◌+◌, ◌-◌, ◌*◌, ◌/◌, ◌%◌, ◌^◌, ◌<◌, ◌≡◌, ◌≢◌, ap, ◌∙◌, ◌⊎◌, inl, inr, true, ◌&&◌, List, some,
  arith, ltb, leb, if◌then◌else◌, get_elem?, get_elem?-set_ne, set,
}
use yo_rha.Base.Outcome.{Outcome, ok, panicked}
use yo_rha.Base.Word.{u32}
use yo_rha.Bitmap.{BitRange, dealloc_bitrange}
use yo_rha.Bitmap.Alloc.{IsFull}
use yo_rha.Memory.{Memory, memset, memmove}
use yo_rha.Memory.Laws.{memmove_lem, memset_lem}
use yo_rha.Heap.{
  AllocEntry, AllocArray, kernel_bitmap_capacity, kmalloc, kfree, krealloc, kcalloc, release_slot,
}
use yo_rha.Heap.Slots.{AllUsed, retire}
use yo_rha.Heap.Invariant.{Live}
use yo_rha.Heap.Malloc.{IsHeap, IsMalloced, kmalloc_cases}
use yo_rha.Heap.Free.{IsFreed, kfree-IsFreed}

-- What `kmalloc` could not serve.
abbrev pub NoRoom : AllocArray → ℕ → Type 0
NoRoom a size = IsFull a.bitmap true size (kernel_bitmap_capacity / 4) ⊎ AllUsed a.entries

-- `result` is a new block of `new_size` bytes in place of the block of entry `f`, and a memory in
-- which the new block starts with all the bytes of the old one.
pub record IsRealloced (a : AllocArray) (m : Memory) (j : ℕ) (f : AllocEntry) (new_size : ℕ)
    (result : Outcome (ℕ × AllocArray × Memory)) : Type 0 where
  pub block : IsMalloced a new_size (kmalloc a new_size)
  pub out : AllocArray
  pub memory : Memory
  pub returns : result ≡ ok (block.entry.base_ptr, out, memory)
  pub heap : IsHeap out
  pub entries : out.entries ≡ set block.out.entries j (retire f)
  pub bytes :
      (p : ℕ)
      → memory p ≡ (
          if leb block.entry.base_ptr p && ltb p (block.entry.base_ptr + f.range.length)
          then m (f.base_ptr + (p - block.entry.base_ptr))
          else m p)

krealloc_returns :
    (a : AllocArray) (m : Memory) (ptr new_size new_ptr : ℕ) (b : AllocArray) (range : BitRange)
    (es : List AllocEntry) (bitmap : List ℕ)
    → a.active ≡ true
    → kmalloc a new_size ≡ ok (new_ptr, b)
    → release_slot ptr b.entries ≡ some (range, es)
    → dealloc_bitrange b.bitmap range ≡ ok bitmap
    → krealloc a m ptr new_size
      ≡ ok (new_ptr, record b { entries = es; bitmap = bitmap }, memmove new_ptr ptr range.length m)
unfolding krealloc
krealloc_returns a m ptr new_size new_ptr b range es bitmap active got found cleared = ground arith

pub kept-Live :
    (a : AllocArray) (j : ℕ) (f : AllocEntry) {size : ℕ} {result : Outcome (ℕ × AllocArray)}
    → Live a.entries j f
    → (b : IsMalloced a size result) → Live b.out.entries j f
kept-Live a j f live b =
    let ne : b.slot ≢ j = λ same. b.unused f (rw same live) in
    (
      ap (λ t. get_elem? t j) b.entries ∙ get_elem?-set_ne a.entries b.slot j b.entry ne ∙ live.0,
      live.1,
    )

module _ (a : AllocArray) (m : Memory) (j : ℕ) (f : AllocEntry) (new_size : ℕ) (v : IsHeap a)
    (live : Live a.entries j f) (pos : 0 < new_size) where
  moved-IsRealloced :
      IsMalloced a new_size (kmalloc a new_size)
      → IsRealloced a m j f new_size (krealloc a m f.base_ptr new_size)
  moved-IsRealloced b = record {
    block = b;
    out = freed.out;
    memory = memmove b.entry.base_ptr f.base_ptr f.range.length m;
    returns =
        krealloc_returns a m f.base_ptr new_size b.entry.base_ptr b.out f.range freed.out.entries
          freed.out.bitmap v.active b.returns freed.released freed.cleared
        ∙ ap (λ o. ok (b.entry.base_ptr, o, memmove b.entry.base_ptr f.base_ptr f.range.length m))
            whole;
    heap = freed.heap;
    entries = freed.entries;
    bytes = memmove_lem b.entry.base_ptr f.base_ptr f.range.length m;
  }
    where
      freed : IsFreed b.out j f (kfree b.out f.base_ptr)
      freed = kfree-IsFreed b.out b.heap j f (kept-Live a j f live b)

      whole :
          ◌≡◌ {A = AllocArray}
            (record b.out { entries = freed.out.entries; bitmap = freed.out.bitmap })
            freed.out
      whole = ground (arith, freed.same_bottom, freed.same_active)

  -- On a heap that `IsHeap` describes, `krealloc` of a block in use, to a positive size, returns
  -- a new block that starts with all the bytes of the old one, and frees the old block; or it
  -- panics, and then there is no room for the new block while the old one stands. All the old
  -- bytes are copied, also to a smaller block.
  pub krealloc_cases :
      IsRealloced a m j f new_size (krealloc a m f.base_ptr new_size)
      ⊎ (krealloc a m f.base_ptr new_size ≡ panicked) × NoRoom a new_size
  krealloc_cases = elim (kmalloc_cases a new_size v pos) [
    | inl b ↦ inl (moved-IsRealloced b)
    | inr (stops, why) ↦ inr (unfold krealloc in simp (v.active, stops), why)
  ]

-- On a heap that `IsHeap` describes, `kcalloc` of a positive number of bytes (the product in 32
-- bits) returns a new block, all zero, and no byte outside it changes; or it panics for want of
-- room.
pub kcalloc_cases :
    (a : AllocArray) (m : Memory) (num size : ℕ)
    → IsHeap a
    → 0 < num * size % 2 ^ 32
    → let n = num * size % 2 ^ 32 in
      ((b : IsMalloced a n (kmalloc a n)) × (m' : Memory) × (kcalloc a m num size
          ≡ ok (b.entry.base_ptr, b.out, m'))
        × ((p : ℕ)
            → m' p ≡ (if leb b.entry.base_ptr p && ltb p (b.entry.base_ptr + n) then 0 else m p)))
      ⊎ (kcalloc a m num size ≡ panicked) × NoRoom a n
kcalloc_cases a m num size v pos = elim (kmalloc_cases a (u32 (num * size)) v pos) [
  | inl b ↦ inl (
    b,
    memset b.entry.base_ptr 0 (u32 (num * size)) m,
    (unfold kcalloc in simp (v.active, b.returns)),
    memset_lem b.entry.base_ptr 0 (u32 (num * size)) m,
  )
  | inr (stops, why) ↦ inr (unfold kcalloc in simp (v.active, stops), why)
]
