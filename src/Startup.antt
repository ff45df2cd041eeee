-- ===== src/Startup.antt =====
-- `initialize_allocator` of src/alloc.c, which takes the kernel's pages, allocates the page of the
-- kernel heap and maps it at its own address.
pub mod Pages
pub mod Ready
mod Tests
use yo_rha.Base.{
  ℕ, Bool, true, false, not, ◌&&◌, List, none, some, ◌==◌, if◌then◌else◌, get_elem?, set, Option,
}
use yo_rha.Base.Outcome.{Outcome, ok, panicked, ◌>>=◌, ◌>>◌, assert, in_bounds}
use yo_rha.Bitmap.{BitRange, alloc_bitrange}
use yo_rha.Heap.{AllocEntry, AllocArray, page_bitmap_capacity, allocate_page}
use yo_rha.Paging.{Mmu, Space, map_page}

-- `PAGE_WRITE | PAGE_USER`
abbrev pub write_user : ℕ
write_user = 6

-- The page allocator with the kernel's pages in its first entry.
abbrev pub with_kernel : AllocArray → BitRange → List ℕ → AllocArray
with_kernel pages range bitmap = record {
  bottom = 0;
  entries = set pages.entries 0 (record { base_ptr = 0; range = range; utilized = true });
  bitmap = bitmap;
  active = true;
}

module _ (mmu : Mmu) where
  -- The page allocator, the kernel heap and the address space, in this order.
  pub initialize_allocator :
      AllocArray → AllocArray → Space → Outcome (AllocArray × AllocArray × Space)
  initialize_allocator pages kernel s =
      alloc_bitrange pages.bitmap page_bitmap_capacity 1024 false
      >>= λ (kernel_range : BitRange × List ℕ).
          assert ((kernel_range.0.length == 1024) && (kernel_range.0.start == 0))
          >> (in_bounds (get_elem? pages.entries 0) >>= λ first.
              assert (not first.utilized)
              >> (allocate_page (with_kernel pages kernel_range.0 kernel_range.1)
                  >>= λ (heap : ℕ × AllocArray).
                      map_page mmu s heap.1 heap.0 heap.0 write_user
                      >>= λ (mapped : Option Space × AllocArray). elim mapped.0 [
                        | none ↦ panicked
                        | some s' ↦
                            ok (mapped.1, record kernel { bottom = heap.0; active = true }, s')
                      ]))
