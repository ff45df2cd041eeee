-- ===== src/Paging/Window.antt =====
-- The directory and the tables as the kernel sees them.
use yo_rha.Base.{
  ℕ, ◌+◌, ◌*◌, ◌/◌, ◌%◌, ◌^◌, ◌<◌, ◌≡◌, refl, ◌∙◌, none, some, arith, false, ◌==◌, if◌then◌else◌,
}
use yo_rha.Base.Outcome.{ok}
use yo_rha.Paging.{
  Mmu, Frames, Space, put, page_directory, table_window, load, store_word, flush_tlb,
}

-- The walk through two levels of tables, for pages of 4096 bytes.
abbrev pub two_level : Mmu
two_level w dir va =
    if w dir (va / 2 ^ 22) % 2 == 0
    then none
    else (if w (w dir (va / 2 ^ 22) / 4096) (va / 4096 % 1024) % 2 == 0
        then none
        else some (w (w dir (va / 2 ^ 22) / 4096) (va / 4096 % 1024) / 4096 * 4096 + va % 4096))

-- What the processor's manual says of 32-bit paging without large pages.
abbrev pub IsTwoLevel : Mmu → Type 0
IsTwoLevel mmu = (w : Frames) (dir va : ℕ) → va < 2 ^ 32 → mmu w dir va ≡ two_level w dir va

-- The last entry of the directory leads to the directory.
pub record IsRecursive (s : Space) : Type 0 where
  pub loop_present : s.frames s.cr3 1023 % 2 ≡ 1
  pub loop_frame : s.frames s.cr3 1023 / 4096 ≡ s.cr3

module _ (mmu : Mmu) (h : IsTwoLevel mmu) (s : Space) (v : IsRecursive s) where
  directory_address :
      (i : ℕ) → i < 1024 → mmu s.frames s.cr3 (page_directory + 4 * i) ≡ some (s.cr3 * 4096 + 4 * i)
  directory_address i lt =
      let top : (page_directory + 4 * i) / 2 ^ 22 ≡ 1023 = omega arith in
      let mid : (page_directory + 4 * i) / 4096 % 1024 ≡ 1023 = omega arith in
      let low : (page_directory + 4 * i) % 4096 ≡ 4 * i = omega arith in
      let odd : (s.frames s.cr3 1023 % 2 == 0) ≡ false = ground (arith, v.loop_present) in
      h s.frames s.cr3 (page_directory + 4 * i) (omega arith)
      ∙ rw (top, mid, low, v.loop_frame, odd, v.loop_frame) (refl)

  table_address :
      (p t : ℕ)
      → p < 1024
      → t < 1024
      → s.frames s.cr3 p % 2 ≡ 1
      → mmu s.frames s.cr3 (table_window p + 4 * t) ≡ some (s.frames s.cr3 p / 4096 * 4096 + 4 * t)
  table_address p t lp lt here =
      let top : (table_window p + 4 * t) / 2 ^ 22 ≡ 1023 = omega arith in
      let mid : (table_window p + 4 * t) / 4096 % 1024 ≡ p = omega arith in
      let low : (table_window p + 4 * t) % 4096 ≡ 4 * t = omega arith in
      let odd : (s.frames s.cr3 1023 % 2 == 0) ≡ false = ground (arith, v.loop_present) in
      let odd_p : (s.frames s.cr3 p % 2 == 0) ≡ false = ground (arith, here) in
      h s.frames s.cr3 (table_window p + 4 * t) (omega arith)
      ∙ rw (top, mid, low, v.loop_frame, odd, odd_p) (refl)

  -- A word that the tables place in word `i` of frame `f`.
  module _ (va f i : ℕ) (there : mmu s.frames s.cr3 va ≡ some (f * 4096 + 4 * i))
      (lt : i < 1024) where
    load_at : load mmu s va ≡ ok (s.frames f i)
    load_at =
        let frame : (f * 4096 + 4 * i) / 4096 ≡ f = omega arith in
        let index : (f * 4096 + 4 * i) % 4096 / 4 ≡ i = omega arith in
        unfold load in rw (there, frame, index) (refl)

    store_at : (x : ℕ) → store_word mmu s va x ≡ ok (record s { frames = put s.frames f i x })
    store_at x =
        let frame : (f * 4096 + 4 * i) / 4096 ≡ f = omega arith in
        let index : (f * 4096 + 4 * i) % 4096 / 4 ≡ i = omega arith in
        unfold store_word in rw (there, frame, index) (refl)

  pub load-directory :
      (i : ℕ) → i < 1024 → load mmu s (page_directory + 4 * i) ≡ ok (s.frames s.cr3 i)
  load-directory i lt = load_at (page_directory + 4 * i) s.cr3 i (directory_address i lt) lt

  pub store-directory :
      (i x : ℕ)
      → i < 1024
      → store_word mmu s (page_directory + 4 * i) x
        ≡ ok (record s { frames = put s.frames s.cr3 i x })
  store-directory i x lt = store_at (page_directory + 4 * i) s.cr3 i (directory_address i lt) lt x

  pub flush_tlb_lem : flush_tlb mmu s ≡ ok s
  flush_tlb_lem = unfold flush_tlb in rw (load-directory 1023 (omega arith), v.loop_frame) (refl)

  module _ (p t : ℕ) (lp : p < 1024) (lt : t < 1024) (here : s.frames s.cr3 p % 2 ≡ 1) where
    pub load-table : load mmu s (table_window p + 4 * t) ≡ ok (s.frames (s.frames s.cr3 p / 4096) t)
    load-table =
        load_at (table_window p + 4 * t) (s.frames s.cr3 p / 4096) t (table_address p t lp lt here)
          lt

    pub store-table :
        (x : ℕ)
        → store_word mmu s (table_window p + 4 * t) x
          ≡ ok (record s { frames = put s.frames (s.frames s.cr3 p / 4096) t x })
    store-table x =
        store_at (table_window p + 4 * t) (s.frames s.cr3 p / 4096) t (table_address p t lp lt here)
          lt x
