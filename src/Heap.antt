-- ===== src/Heap.antt =====
-- The two allocators of src/alloc.c: the kernel heap (`kmalloc`, `kfree`, `kcalloc`, `krealloc`)
-- and the pages (`allocate_page`, `free_page`). Both keep a bitmap, in bytes and in pages, and a
-- table of entries. An operation takes the `AllocArray` that the C code holds in a static variable
-- and returns it beside its result; a block's contents are in `Memory`.
pub mod Slots
pub mod Invariant
pub mod Claim
pub mod Release
pub mod Malloc
pub mod Free
pub mod Page
pub mod Contents
pub mod Client
pub mod Safety
pub mod Sample
pub mod Others
mod Tests
use mathlib.Core.Option
use yo_rha.Base.{
  ℕ, zero, suc, ◌+◌, ◌*◌, ◌/◌, ◌%◌, ◌^◌, Bool, true, false, List, [], ◌∷◌, Option, none, some, ltb,
  ◌==◌, if◌then◌else◌,
}
use yo_rha.Base.Outcome.{Outcome, ok, panicked, ◌>>=◌, ◌>>◌, assert}
use yo_rha.Base.Word.{add32, u32}
use yo_rha.Bitmap.{BitRange, alloc_bitrange, dealloc_bitrange}
use yo_rha.Memory.{Memory, memset, memmove}

abbrev pub page_size : ℕ
page_size = 4096

abbrev kernel_heap_size : ℕ
kernel_heap_size = 0x1000

abbrev pub kernel_bitmap_capacity : ℕ
kernel_bitmap_capacity = kernel_heap_size / 4

abbrev pub page_bitmap_capacity : ℕ
page_bitmap_capacity = 2 ^ 30 / page_size

pub record AllocEntry : Type 0 where
  pub base_ptr : ℕ
  pub range : BitRange
  pub utilized : Bool

-- `AllocArray` and `page_alloc_array_t`, which differ in the length of the bitmap alone.
pub record AllocArray : Type 0 where
  pub bottom : ℕ
  pub entries : List AllocEntry
  pub bitmap : List ℕ
  pub active : Bool

-- The loop that stores `new_entry` in the first slot that is not in use.
unfoldable pub claim_slot : AllocEntry → List AllocEntry → Option (List AllocEntry)
claim_slot new_entry [] = none
claim_slot new_entry (e ∷ es) =
    let rest = Option.map (λ es'. e ∷ es') (claim_slot new_entry es) in
    if e.utilized then rest else some (new_entry ∷ es)

-- The loop that looks for `ptr` and marks its entry as free. It does not ask whether the entry is
-- in use.
unfoldable pub release_slot : ℕ → List AllocEntry → Option (BitRange × List AllocEntry)
release_slot ptr [] = none
release_slot ptr (e ∷ es) =
    let rest =
      Option.map (λ (found : BitRange × List AllocEntry). (found.0, e ∷ found.1))
        (release_slot ptr es) in
    if e.base_ptr == ptr then some (e.range, record e { utilized = false } ∷ es) else rest

-- What follows a successful `alloc_bitrange`: the entry is stored and its pointer returned.
unfoldable pub place : AllocArray → ℕ → BitRange × List ℕ → Outcome (ℕ × AllocArray)
place a base_ptr (allocation, bitmap) =
    if allocation.length == 0
    then panicked
    else elim (claim_slot (record { base_ptr = base_ptr; range = allocation; utilized = true })
        a.entries) [
          | none ↦ panicked
          | some entries ↦ ok (base_ptr, record a { entries = entries; bitmap = bitmap })
        ]

unfoldable pub kmalloc : AllocArray → ℕ → Outcome (ℕ × AllocArray)
kmalloc a size = do
  assert a.active
  allocated ← alloc_bitrange a.bitmap kernel_bitmap_capacity size true
  place a (add32 a.bottom allocated.0.start) allocated

unfoldable pub kfree : AllocArray → ℕ → Outcome AllocArray
kfree a ptr = do
  assert a.active
  elim (release_slot ptr a.entries) [
    | none ↦ panicked
    | some (range, entries) ↦ dealloc_bitrange a.bitmap range >>= λ bitmap.
        ok (record a { entries = entries; bitmap = bitmap })
  ]

unfoldable pub kcalloc : AllocArray → Memory → ℕ → ℕ → Outcome (ℕ × AllocArray × Memory)
kcalloc a m num size = do
  assert a.active
  block ← kmalloc a (u32 (num * size))
  ok (block.0, block.1, memset block.0 0 (u32 (num * size)) m)

-- As many bytes are copied as the old block had.
unfoldable pub krealloc : AllocArray → Memory → ℕ → ℕ → Outcome (ℕ × AllocArray × Memory)
krealloc a m ptr new_size = do
  assert a.active
  block ← kmalloc a new_size
  elim (release_slot ptr block.1.entries) [
    | none ↦ panicked
    | some (range, entries) ↦ dealloc_bitrange block.1.bitmap range >>= λ bitmap. ok (
      block.0,
      record block.1 { entries = entries; bitmap = bitmap },
      memmove block.0 ptr range.length m,
    )
  ]

unfoldable pub allocate_page : AllocArray → Outcome (ℕ × AllocArray)
unfolding place claim_slot alloc_bitrange
allocate_page a = do
  assert a.active
  allocated ← alloc_bitrange a.bitmap page_bitmap_capacity 1 false
  place a (add32 a.bottom (u32 (allocated.0.start * page_size))) allocated

pub free_page : AllocArray → ℕ → Outcome AllocArray
free_page a ptr = do
  assert a.active
  elim (release_slot ptr a.entries) [
    | none ↦ panicked
    | some (range, entries) ↦ dealloc_bitrange a.bitmap range >>= λ bitmap.
        ok (record a { entries = entries; bitmap = bitmap })
  ]
