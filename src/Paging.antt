-- ===== src/Paging.antt =====
-- The page tables of src/paging.c, which the kernel reaches through the tables themselves: the last
-- entry of the page directory leads back to it. Physical memory is 1024 words for each frame. The
-- translation of the processor is a parameter; a virtual address that it does not translate is
-- `fault`.
pub mod Entry
pub mod Window
pub mod Walk
pub mod Tables
pub mod Invariant
pub mod Enter
pub mod Extend
pub mod Map
mod Tests
use Prim.Native.Nat.{bit_and, bit_or}
use yo_rha.Base.{
  ℕ, zero, suc, ◌+◌, ◌-◌, ◌*◌, ◌/◌, ◌%◌, ◌^◌, List, Bool, true, false, ◌&&◌, Option, none, some,
  ◌==◌, if◌then◌else◌,
}
use yo_rha.Base.Outcome.{Outcome, ok, panicked, fault, ◌>>=◌, in_bounds}
use yo_rha.Base.Word.{u32, add32, shr}
use yo_rha.Heap.{AllocArray, allocate_page}

abbrev pub page_present : ℕ
page_present = 1

-- The addresses `pd` and `pt`, the second for each entry of the directory.
abbrev pub page_directory : ℕ
page_directory = 0xffff_f000

abbrev pub table_window : ℕ → ℕ
table_window pdindex = 0xffc0_0000 + 4 * (0x400 * pdindex)

-- The words of each frame.
abbrev pub Frames : Type 0
Frames = ℕ → ℕ → ℕ

-- The physical address of a virtual one, for the frames and the frame of the page directory.
abbrev pub Mmu : Type 0
Mmu = Frames → ℕ → ℕ → Option ℕ

-- `cr3` is the frame that the register of that name points to.
pub record Space : Type 0 where
  pub frames : Frames
  pub cr3 : ℕ

abbrev pub put : Frames → ℕ → ℕ → ℕ → Frames
put frames f i v = λ g j. if (g == f) && (j == i) then v else frames g j

module _ (mmu : Mmu) where
  -- A read and a write of a word at a virtual address.
  pub load : Space → ℕ → Outcome ℕ
  load s va = in_bounds (mmu s.frames s.cr3 va) >>= λ pa. ok (s.frames (pa / 4096) (pa % 4096 / 4))

  pub store_word : Space → ℕ → ℕ → Outcome Space
  store_word s va v = in_bounds (mmu s.frames s.cr3 va) >>= λ pa.
      ok (record s { frames = put s.frames (pa / 4096) (pa % 4096 / 4) v })

  -- `cr3` is loaded with the last entry of the directory.
  pub flush_tlb : Space → Outcome Space
  flush_tlb s =
      load s (page_directory + 4 * 0x3ff) >>= λ entry. ok (record s { cr3 = entry / 4096 })

  -- `memset(pt, 0, sizeof(page_table_t))`, a word at a time, with `left` words to go.
  pub clear_table : ℕ → ℕ → Space → Outcome Space
  clear_table pt zero s = ok s
  clear_table pt (suc left) s =
      store_word s (pt + 4 * (1023 - left)) 0 >>= λ s'. clear_table pt left s'

  -- A new table for the entry `pdindex` of the directory. -1, of type `int`, is `none`.
  pub add_table : Space → AllocArray → ℕ → ℕ → Outcome (Option Space × AllocArray)
  add_table s pages pdindex flags = allocate_page pages >>= λ (table : ℕ × AllocArray).
      (let entered =
          store_word s (page_directory + 4 * pdindex)
            (bit_or (bit_or (bit_and table.0 0xffff_f000) flags) page_present)
          >>= λ s1. flush_tlb s1 >>= λ s2.
              clear_table (table_window pdindex) 1024 s2 >>= λ s3. ok (some s3, table.1) in
        if table.0 == 0 then ok (none, table.1) else entered)

  -- The part behind the table's presence: the entry of the page.
  pub enter_page : Space → ℕ → ℕ → ℕ → ℕ → Outcome Space
  enter_page s pt ptindex physaddr flags = load s (pt + 4 * ptindex) >>= λ pte.
      (let entered =
          store_word s (pt + 4 * ptindex)
            (bit_or (bit_or physaddr (bit_and flags 0xfff)) page_present)
          >>= flush_tlb in
        if bit_and pte page_present == 0 then entered else panicked)

  -- `none` is the result -1, and `some` the result 0.
  pub map_page : Space → AllocArray → ℕ → ℕ → ℕ → Outcome (Option Space × AllocArray)
  map_page s pages physaddr virtualaddr flags =
      let pdindex = shr virtualaddr 22 in
      let ptindex = bit_and (shr virtualaddr 12) 0x3ff in
      let pt = table_window pdindex in
      let enter : Option Space × AllocArray → Outcome (Option Space × AllocArray) =
        λ (t : Option Space × AllocArray). elim t.0 [
          | none ↦ ok (none, t.1)
          | some s' ↦ enter_page s' pt ptindex physaddr flags >>= λ s2. ok (some s2, t.1)
        ] in
      load s (page_directory + 4 * pdindex) >>= λ pde.
      (if bit_and pde page_present == 0
        then (add_table s pages pdindex flags >>= enter)
        else enter (some s, pages))

  pub get_physaddr : Space → ℕ → Outcome ℕ
  get_physaddr s virtualaddr =
      let pdindex = shr virtualaddr 22 in
      let ptindex = bit_and (shr virtualaddr 12) 0x3ff in
      let pt = table_window pdindex in
      load s (page_directory + 4 * pdindex) >>= λ pde.
      (let found = load s (pt + 4 * ptindex) >>= λ pte.
      (if bit_and pte page_present == 0
        then panicked
        else ok (add32 (bit_and pte 0xffff_f000) (bit_and virtualaddr 0xfff))) in
        if bit_and pde page_present == 0 then panicked else found)
