-- ===== src/Paging/Tests.antt =====
-- A directory in frame 1 with nothing but the entry that leads to itself.
use yo_rha.Base.{◌≡◌, refl, [], ◌∷◌, arith, true, false, ◌==◌, ◌&&◌, if◌then◌else◌, some}
use yo_rha.Base.Outcome.{ok}
use yo_rha.Heap.{AllocEntry, AllocArray, allocate_page}
use yo_rha.Paging.{Space, map_page, get_physaddr}
use yo_rha.Paging.Window.{IsTwoLevel, two_level}
use yo_rha.Paging.Walk.{translate}
use yo_rha.Paging.Invariant.{IsPaged}
use yo_rha.Paging.Extend.{IsFresh}
use yo_rha.Paging.Map.{
  IsPageMapped, or_panic, get_physaddr-translate, map_page-IsPageMapped, get_physaddr-map_page,
}

abbrev only_directory : Space
only_directory = record { frames = λ f i. if (f == 1) && (i == 1023) then 0x1003 else 0; cr3 = 1 }

only_directory-IsPaged : IsPaged only_directory
only_directory-IsPaged = record {
  recursive = record { loop_present = refl; loop_frame = refl };
  distinct = λ q r lq lr ne hq hr e. ground arith;
  small = λ f i. ground arith;
}

walk-IsTwoLevel : IsTwoLevel two_level
walk-IsTwoLevel w dir va lt = refl

abbrev unused : AllocEntry
unused = record { base_ptr = 0; range = record { start = 0; length = 0 }; utilized = false }

-- The first sixteen pages are taken.
abbrev pages : AllocArray
pages = record { bottom = 0; entries = unused ∷ []; bitmap = 0xffff_0000 ∷ 0 ∷ []; active = true }

abbrev page_16 : AllocEntry
page_16 = record { base_ptr = 0x1_0000; range = record { start = 16; length = 1 }; utilized = true }

abbrev pages_after : AllocArray
pages_after = record pages { entries = page_16 ∷ []; bitmap = 0xffff_8000 ∷ 0 ∷ [] }

allocates : allocate_page pages ≡ ok (0x1_0000, pages_after)
unfolding allocate_page
allocates = refl

IsFresh-16 : IsFresh only_directory 0x1_0000
IsFresh-16 = record {
  nonzero = omega arith;
  table_aligned = refl;
  table_small = omega arith;
  unused = λ q lq here e. ground arith;
}

get_physaddr-translate_example :
    get_physaddr two_level only_directory 0xffff_f004
    ≡ or_panic (translate only_directory 0xffff_f004)
get_physaddr-translate_example =
    get_physaddr-translate two_level walk-IsTwoLevel only_directory only_directory-IsPaged
      0xffff_f004 (omega arith)

map_page-IsPageMapped_example :
    IsPageMapped only_directory 0x40_5000 0x3000
      (map_page two_level only_directory pages 0x3000 0x40_5000 6)
map_page-IsPageMapped_example =
    map_page-IsPageMapped two_level walk-IsTwoLevel only_directory only_directory-IsPaged 0x40_5000
      (omega arith) (omega arith) 0x3000 6 refl (omega arith) (omega arith) refl pages pages_after
      0x1_0000 allocates IsFresh-16

get_physaddr-map_page_example :
    (out : Space) × (pages1 : AllocArray) × (map_page two_level only_directory pages 0x3000
        0x40_5000 6
      ≡ ok (some out, pages1))
    × (get_physaddr two_level out 0x40_5123 ≡ ok 0x3123)
get_physaddr-map_page_example =
    get_physaddr-map_page two_level only_directory 0x40_5000 0x3000 6 0x123 pages pages_after
      0x1_0000 walk-IsTwoLevel only_directory-IsPaged (omega arith) (omega arith) refl (omega arith)
      (omega arith) refl allocates IsFresh-16 (omega arith)
