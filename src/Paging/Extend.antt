-- ===== src/Paging/Extend.antt =====
-- `add_table`: a directory entry for a new, empty table.
use Prim.Native.Nat.{bit_and, bit_or}
use yo_rha.Base.{
  ℕ, ◌/◌, ◌%◌, ◌^◌, ◌<◌, ◌≡◌, ◌≢◌, ◌⊎◌, inl, inr, refl, sym, ap, ◌∙◌, some, arith, false, ◌==◌,
  ℕ_discrete,
}
use yo_rha.Base.Outcome.{ok}
use yo_rha.Heap.{AllocArray, allocate_page}
use yo_rha.Paging.{Mmu, Space, put, table_window, clear_table, add_table}
use yo_rha.Paging.Entry.{page_mask, made_entry}
use yo_rha.Paging.Window.{IsTwoLevel, IsRecursive, store-directory, flush_tlb_lem}
use yo_rha.Paging.Invariant.{IsPaged}
use yo_rha.Paging.Walk.{
  translate, table_of, entry_of, translate_no_table, translate_no_page, translate_same,
}
use yo_rha.Paging.Tables.{IsCleared, clear_table-IsCleared}

-- `table` is a frame that no entry of the directory leads to.
pub record IsFresh (s : Space) (table : ℕ) : Type 0 where
  pub nonzero : table ≢ 0
  pub table_aligned : table % 4096 ≡ 0
  pub table_small : table < 2 ^ 32
  pub unused :
      (q : ℕ) → q < 1024 → s.frames s.cr3 q % 2 ≡ 1 → s.frames s.cr3 q / 4096 ≢ table / 4096

-- `out` is `s` with an empty table for the pages around `va`.
pub record IsExtended (s : Space) (va : ℕ) (out : Space) : Type 0 where
  pub paged : IsPaged out
  pub same_cr3 : out.cr3 ≡ s.cr3
  pub here : out.frames out.cr3 (va / 2 ^ 22) % 2 ≡ 1
  pub empty : entry_of out va % 2 ≡ 0
  pub others : (a : ℕ) → a < 2 ^ 32 → a / 2 ^ 22 ≢ 1023 → translate out a ≡ translate s a

module _ (mmu : Mmu) (h : IsTwoLevel mmu) (va flags : ℕ) (in_range : va < 2 ^ 32)
    (low : va / 2 ^ 22 ≢ 1023) (flags_small : flags < 4096) (s : Space) (v : IsPaged s)
    (gone : s.frames s.cr3 (va / 2 ^ 22) % 2 ≡ 0) (pages pages' : AllocArray) (table : ℕ)
    (allocated : allocate_page pages ≡ ok (table, pages')) (fresh : IsFresh s table) where
  abbrev p : ℕ
  p = va / 2 ^ 22

  abbrev made : ℕ
  made = bit_or (bit_or (bit_and table 0xffff_f000) flags) 1

  made_lem : (made / 4096 ≡ table / 4096) × (made % 2 ≡ 1) × (made < 2 ^ 32)
  made_lem =
      let whole : bit_and table 0xffff_f000 ≡ table =
        page_mask table fresh.table_small ∙ omega (arith, fresh.table_aligned) in
      rw whole (made_entry table flags fresh.table_aligned fresh.table_small flags_small)

  abbrev s1 : Space
  s1 = record s { frames = put s.frames s.cr3 p made }

  kept : (j : ℕ) → p ≢ j → s1.frames s.cr3 j ≡ s.frames s.cr3 j
  kept j ne = ground arith

  at_p : s1.frames s.cr3 p ≡ made
  at_p = ground arith

  s1-IsRecursive : IsRecursive s1
  s1-IsRecursive = record {
    loop_present = ap (λ (n : ℕ). n % 2) (kept 1023 low) ∙ v.recursive.loop_present;
    loop_frame = ap (λ (n : ℕ). n / 4096) (kept 1023 low) ∙ v.recursive.loop_frame;
  }

  not_directory : table / 4096 ≢ s.cr3
  not_directory e =
      fresh.unused 1023 (omega arith) v.recursive.loop_present (v.recursive.loop_frame ∙ sym e)

  cleared : IsCleared (s1.frames s.cr3 p / 4096) 0 s1 (clear_table mmu (table_window p) 1024 s1)
  cleared =
      clear_table-IsCleared mmu h p (omega arith) 1024 s1 s1-IsRecursive (omega arith)
        (ap (λ (n : ℕ). n % 2) at_p ∙ made_lem.1)
        (λ e. not_directory (sym made_lem.0 ∙ ap (λ (n : ℕ). n / 4096) (sym at_p) ∙ e))

  abbrev extended : Space
  extended = cleared.out

  frame_lem : s1.frames s.cr3 p / 4096 ≡ table / 4096
  frame_lem = ap (λ (n : ℕ). n / 4096) at_p ∙ made_lem.0

  directory : (j : ℕ) → extended.frames extended.cr3 j ≡ s1.frames s.cr3 j
  directory j =
      ap (λ (c : ℕ). extended.frames c j) cleared.same_cr3
      ∙ ground (arith, cleared.words s.cr3 j, frame_lem, not_directory)

  new_table : (j : ℕ) → j < 1024 → extended.frames (table / 4096) j ≡ 0
  new_table j lt = ground (arith, cleared.words (table / 4096) j, frame_lem)

  elsewhere : (g j : ℕ) → g ≢ table / 4096 → g ≢ s.cr3 → extended.frames g j ≡ s.frames g j
  elsewhere g j ne_table ne_directory = ground (arith, cleared.words g j, frame_lem)

  -- A present entry of the new directory is the new one or an old one.
  entries :
      (q : ℕ)
      → extended.frames extended.cr3 q % 2 ≡ 1
      → (q ≡ p) × (extended.frames extended.cr3 q / 4096 ≡ table / 4096)
        ⊎ (q ≢ p) × (s.frames s.cr3 q % 2 ≡ 1) × (extended.frames extended.cr3 q ≡ s.frames s.cr3 q)
  entries q here = elim (ℕ_discrete q p) [
    | yes same ↦ inl (
      same,
      ap (λ (i : ℕ). extended.frames extended.cr3 i / 4096) same
          ∙ ap (λ (n : ℕ). n / 4096) (directory p)
          ∙ frame_lem,
    )
    | no ne ↦
        let old : extended.frames extended.cr3 q ≡ s.frames s.cr3 q =
          directory q ∙ kept q (λ e. ne (sym e)) in
        inr (ne, ap (λ (n : ℕ). n % 2) (sym old) ∙ here, old)
  ]

  extended_distinct :
      (q r : ℕ)
      → q < 1024
      → r < 1024
      → q ≢ r
      → extended.frames extended.cr3 q % 2 ≡ 1
      → extended.frames extended.cr3 r % 2 ≡ 1
      → extended.frames extended.cr3 q / 4096 ≢ extended.frames extended.cr3 r / 4096
  extended_distinct q r lq lr ne hq hr e = elim (entries q hq) [
    | inl (q_new, q_frame) ↦ elim (entries r hr) [
      | inl (r_new, _) ↦ ne (q_new ∙ sym r_new)
      | inr (_, r_here, r_old) ↦
          fresh.unused r lr r_here (ap (λ (n : ℕ). n / 4096) (sym r_old) ∙ sym e ∙ q_frame)
    ]
    | inr (_, q_here, q_old) ↦ elim (entries r hr) [
      | inl (_, r_frame) ↦
          fresh.unused q lq q_here (ap (λ (n : ℕ). n / 4096) (sym q_old) ∙ e ∙ r_frame)
      | inr (_, r_here, r_old) ↦
          v.distinct q r lq lr ne q_here r_here
            (ap (λ (n : ℕ). n / 4096) (sym q_old) ∙ e ∙ ap (λ (n : ℕ). n / 4096) r_old)
    ]
  ]

  extended-IsPaged : IsPaged extended
  extended-IsPaged = record {
    recursive = record {
      loop_present = ap (λ (n : ℕ). n % 2) (directory 1023) ∙ s1-IsRecursive.loop_present;
      loop_frame =
          ap (λ (n : ℕ). n / 4096) (directory 1023)
          ∙ s1-IsRecursive.loop_frame
          ∙ sym cleared.same_cr3;
    };
    distinct = extended_distinct;
    small = λ f i. ground (arith, cleared.words f i, v.small f i, made_lem.2);
  }

  -- The addresses of the new table.
  module _ (a : ℕ) (same : a / 2 ^ 22 ≡ p) where
    extended_here : extended.frames extended.cr3 (a / 2 ^ 22) % 2 ≡ 1
    extended_here =
        ap (λ (i : ℕ). extended.frames extended.cr3 i % 2) same
        ∙ ap (λ (n : ℕ). n % 2) (directory p ∙ at_p)
        ∙ made_lem.1

    extended_empty : entry_of extended a % 2 ≡ 0
    extended_empty =
        let frame : table_of extended a ≡ table / 4096 =
          ap (λ (i : ℕ). extended.frames extended.cr3 i / 4096) same
          ∙ ap (λ (n : ℕ). n / 4096) (directory p)
          ∙ frame_lem in
        ap (λ (f : ℕ). extended.frames f (a / 4096 % 1024) % 2) frame
        ∙ ap (λ (n : ℕ). n % 2) (new_table (a / 4096 % 1024) (omega arith))

  extended_others : (a : ℕ) → a < 2 ^ 32 → a / 2 ^ 22 ≢ 1023 → translate extended a ≡ translate s a
  extended_others a la ne_window = elim (ℕ_discrete (a / 2 ^ 22) p) [
    | yes same ↦
        translate_no_page extended a (extended_here a same) (extended_empty a same)
        ∙ sym (translate_no_table s a (ap (λ (i : ℕ). s.frames s.cr3 i % 2) same ∙ gone))
    | no ne ↦
        let old : extended.frames extended.cr3 (a / 2 ^ 22) ≡ s.frames s.cr3 (a / 2 ^ 22) =
          directory (a / 2 ^ 22) ∙ kept (a / 2 ^ 22) (λ e. ne (sym e)) in
        translate_same s extended a old (λ there.
          elsewhere (table_of s a) (a / 4096 % 1024) (fresh.unused (a / 2 ^ 22) (omega arith) there)
            (λ e.
              v.distinct (a / 2 ^ 22) 1023 (omega arith) (omega arith) ne_window there
                v.recursive.loop_present (e ∙ sym v.recursive.loop_frame)))
  ]

  extended_returns : add_table mmu s pages p flags ≡ ok (some extended, pages')
  extended_returns =
      let nonzero : (table == 0) ≡ false = ground (arith, fresh.nonzero) in
      unfold add_table in
      rw
        (
          allocated,
          nonzero,
          store-directory mmu h s v.recursive p made (omega arith),
          flush_tlb_lem mmu h s1 s1-IsRecursive,
          cleared.returns,
        )
        (refl)

  pub add_table-IsExtended :
      (out : Space) × (add_table mmu s pages p flags ≡ ok (some out, pages')) × IsExtended s va out
  add_table-IsExtended = (
    extended,
    extended_returns,
    record {
      paged = extended-IsPaged;
      same_cr3 = cleared.same_cr3;
      here = extended_here va refl;
      empty = extended_empty va refl;
      others = extended_others;
    },
  )
