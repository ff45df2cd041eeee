-- ===== src/Paging/Map.antt =====
-- `map_page` and `get_physaddr` against the translation of the processor.
use Prim.Native.Nat.{bit_and}
use yo_rha.Base.{
  ℕ, ◌+◌, ◌*◌, ◌/◌, ◌%◌, ◌^◌, ◌<◌, ◌≡◌, ◌≢◌, refl, sym, ap, ◌∙◌, Option, none, some, arith, true,
  false, ◌==◌, ℕ_discrete,
}
use yo_rha.Base.Outcome.{Outcome, ok, panicked}
use yo_rha.Heap.{AllocArray, allocate_page}
use yo_rha.Paging.{
  Mmu, Space, page_directory, table_window, load, enter_page, map_page, get_physaddr,
}
use yo_rha.Paging.Entry.{present_test, page_offset, table_index, page_mask}
use yo_rha.Paging.Window.{IsTwoLevel, load-directory, load-table}
use yo_rha.Paging.Invariant.{IsPaged, IsMapped}
use yo_rha.Paging.Walk.{
  translate, table_of, entry_of, translate_present, translate_no_table, translate_no_page,
}
use yo_rha.Paging.Extend.{IsFresh, IsExtended, add_table-IsExtended}
use yo_rha.Paging.Enter.{entered, entered_returns, entered-IsMapped}

-- `result` is a mapped page, in a space that `IsMapped` describes.
pub record IsPageMapped (s : Space) (va phys : ℕ) (result : Outcome (Option Space × AllocArray))
    : Type 0 where
  pub out : Space
  pub pages : AllocArray
  pub returns : result ≡ ok (some out, pages)
  pub mapped : IsMapped s va phys out

-- A page that is not there is a panic.
abbrev pub or_panic : Option ℕ → Outcome ℕ
or_panic none = panicked
or_panic (some pa) = ok pa

module _ (mmu : Mmu) (h : IsTwoLevel mmu) (s : Space) (v : IsPaged s) (va : ℕ)
    (in_range : va < 2 ^ 32) where
  index_lem : bit_and (va / 2 ^ 12) 0x3ff ≡ va / 4096 % 1024
  index_lem = table_index (va / 2 ^ 12)

  directory_entry :
      load mmu s (page_directory + 4 * (va / 2 ^ 22)) ≡ ok (s.frames s.cr3 (va / 2 ^ 22))
  directory_entry = load-directory mmu h s v.recursive (va / 2 ^ 22) (omega arith)

  table_entry :
      s.frames s.cr3 (va / 2 ^ 22) % 2 ≡ 1
      → load mmu s (table_window (va / 2 ^ 22) + 4 * (va / 4096 % 1024)) ≡ ok (entry_of s va)
  table_entry here =
      load-table mmu h s v.recursive (va / 2 ^ 22) (va / 4096 % 1024) (omega arith) (omega arith)
        here

  present : (x : ℕ) → x % 2 ≡ 1 → (bit_and x 1 == 0) ≡ false
  present x odd = ground (arith, present_test x)

  not_present : (x : ℕ) → x % 2 ≡ 0 → (bit_and x 1 == 0) ≡ true
  not_present x even = ground (arith, present_test x)

  -- `get_physaddr` is the processor's translation, and panics where there is none.
  pub get_physaddr-translate : get_physaddr mmu s va ≡ or_panic (translate s va)
  get_physaddr-translate = elim (ℕ_discrete (s.frames s.cr3 (va / 2 ^ 22) % 2) 1) [
    | no gone ↦
        let even : s.frames s.cr3 (va / 2 ^ 22) % 2 ≡ 0 = omega (arith, gone) in
        let stops : get_physaddr mmu s va ≡ panicked =
          unfold get_physaddr in rw (directory_entry, not_present _ even) (refl) in
        stops ∙ ap or_panic (sym (translate_no_table s va even))
    | yes here ↦ elim (ℕ_discrete (entry_of s va % 2) 1) [
      | no gone ↦
          let even : entry_of s va % 2 ≡ 0 = omega (arith, gone) in
          let stops : get_physaddr mmu s va ≡ panicked =
            unfold get_physaddr in
            rw (directory_entry, present _ here, index_lem, table_entry here, not_present _ even)
              (refl) in
          stops ∙ ap or_panic (sym (translate_no_page s va here even))
      | yes there ↦
          let high = page_mask (entry_of s va) (v.small (table_of s va) (va / 4096 % 1024)) in
          let sum : (entry_of s va / 4096 * 4096 + va % 4096) % 2 ^ 32
              ≡ entry_of s va / 4096 * 4096 + va % 4096 =
            omega (arith, v.small (table_of s va) (va / 4096 % 1024)) in
          let returns : get_physaddr mmu s va ≡ ok (entry_of s va / 4096 * 4096 + va % 4096) =
            unfold get_physaddr in
            rw
              (
                directory_entry,
                present _ here,
                index_lem,
                table_entry here,
                present _ there,
                high,
                page_offset va,
                sum,
              )
              (refl) in
          returns ∙ ap or_panic (sym (translate_present s va here there))
    ]
  ]

  -- `map_page` of a page that is mapped already panics.
  pub map_page_mapped :
      (pages : AllocArray) (phys flags pa : ℕ)
      → translate s va ≡ some pa
      → map_page mmu s pages phys va flags ≡ panicked
  map_page_mapped pages phys flags pa found =
      elim (ℕ_discrete (s.frames s.cr3 (va / 2 ^ 22) % 2) 1) [
        | no gone ↦ absurd (cc (found, translate_no_table s va (omega (arith, gone))))
        | yes here ↦ elim (ℕ_discrete (entry_of s va % 2) 1) [
          | no gone ↦ absurd (cc (found, translate_no_page s va here (omega (arith, gone))))
          | yes there ↦
              unfold map_page enter_page in
              rw (directory_entry, present _ here, index_lem, table_entry here, present _ there)
                (refl)
        ]
      ]

  module _ (low : va / 2 ^ 22 ≢ 1023) (phys flags : ℕ) (aligned : phys % 4096 ≡ 0)
      (phys_small : phys < 2 ^ 32) (flags_small : flags < 4096) (free : translate s va ≡ none)
      (pages pages' : AllocArray) (table : ℕ) (allocated : allocate_page pages ≡ ok (table, pages'))
      (fresh : IsFresh s table) where
    -- The table of the page is there already.
    in_table :
        s.frames s.cr3 (va / 2 ^ 22) % 2 ≡ 1
        → entry_of s va % 2 ≡ 0
        → IsPageMapped s va phys (map_page mmu s pages phys va flags)
    in_table here empty = record {
      out = entered mmu h va phys flags in_range low aligned phys_small s v here empty;
      pages = pages;
      returns =
          unfold map_page in
          rw
            (
              directory_entry,
              present _ here,
              index_lem,
              entered_returns mmu h va phys flags in_range low aligned phys_small s v here empty,
            )
            (refl);
      mapped = entered-IsMapped mmu h va phys flags in_range low aligned phys_small s v here empty;
    }

    -- The table is made first.
    beyond_tables :
        s.frames s.cr3 (va / 2 ^ 22) % 2 ≡ 0
        → IsPageMapped s va phys (map_page mmu s pages phys va flags)
    beyond_tables gone =
        let e =
          add_table-IsExtended mmu h va flags in_range low flags_small s v gone pages pages' table
            allocated fresh in
        let x : IsExtended s va e.0 = e.2 in
        let mapped =
          entered-IsMapped mmu h va phys flags in_range low aligned phys_small e.0 x.paged x.here
            x.empty in
        record {
          out =
              entered mmu h va phys flags in_range low aligned phys_small e.0 x.paged x.here
                x.empty;
          pages = pages';
          returns =
              unfold map_page in
              rw
                (
                  directory_entry,
                  not_present _ gone,
                  e.1,
                  index_lem,
                  entered_returns mmu h va phys flags in_range low aligned phys_small e.0 x.paged
                      x.here x.empty,
                )
                (refl);
          mapped = record {
            paged = mapped.paged;
            same_cr3 = mapped.same_cr3 ∙ x.same_cr3;
            page = mapped.page;
            others = λ a la ne_page ne_window.
                mapped.others a la ne_page ne_window ∙ x.others a la ne_window;
          };
        }

    -- In a space that `IsPaged` describes, with a processor that walks two levels of tables,
    -- `map_page` of an aligned frame, with flags below 4096, at an address that is not mapped and
    -- lies below the window of the tables returns 0, if a page can be allocated for a table and
    -- that page holds no table yet. All the
    -- page then leads to the frame, every other page below the window leads where it did, and
    -- `IsPaged` holds again.
    pub map_page-IsPageMapped : IsPageMapped s va phys (map_page mmu s pages phys va flags)
    map_page-IsPageMapped = elim (ℕ_discrete (s.frames s.cr3 (va / 2 ^ 22) % 2) 1) [
      | no gone ↦ beyond_tables (omega (arith, gone))
      | yes here ↦ elim (ℕ_discrete (entry_of s va % 2) 1) [
        | no gone ↦ in_table here (omega (arith, gone))
        | yes there ↦ absurd (cc (free, translate_present s va here there))
      ]
    ]

-- In a space that `IsPaged` describes, with a processor that walks two levels of tables, for an
-- aligned frame, flags below 4096, and an address that is not mapped and lies below the window of
-- the tables, and with a page that can be allocated for a table and holds none yet: `map_page`
-- returns 0, and `get_physaddr` then returns the mapped address for every address of the page.
pub get_physaddr-map_page :
    (mmu : Mmu) (s : Space) (va phys flags off : ℕ) (pages pages' : AllocArray) (table : ℕ)
    → IsTwoLevel mmu
    → IsPaged s
    → va < 2 ^ 32
    → va / 2 ^ 22 ≢ 1023
    → phys % 4096 ≡ 0
    → phys < 2 ^ 32
    → flags < 4096
    → translate s va ≡ none
    → allocate_page pages ≡ ok (table, pages')
    → IsFresh s table
    → off < 4096
    → (out : Space) × (pages1 : AllocArray) × (map_page mmu s pages phys va flags
        ≡ ok (some out, pages1))
      × (get_physaddr mmu out (va / 4096 * 4096 + off) ≡ ok (phys + off))
get_physaddr-map_page mmu s va phys flags off pages pages' table h v in_range low aligned small
      flags_small free allocated fresh lt =
    let m =
      map_page-IsPageMapped mmu h s v va in_range low phys flags aligned small flags_small free
        pages pages' table allocated fresh in
    (
      m.out,
      m.pages,
      m.returns,
      get_physaddr-translate mmu h m.out m.mapped.paged (va / 4096 * 4096 + off) (omega arith)
          ∙ ap or_panic (m.mapped.page off lt),
    )
