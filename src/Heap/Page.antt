-- ===== src/Heap/Page.antt =====
-- `allocate_page` where there is a page and a slot for it.
use yo_rha.Base.{ℕ, ◌*◌, ◌≡◌, refl, ap, ◌∙◌, List, true, false, some, ◌==◌}
use yo_rha.Base.Outcome.{ok, assert}
use yo_rha.Base.Word.{add32, u32}
use yo_rha.Bitmap.{BitRange, alloc_bitrange}
use yo_rha.Heap.{
  AllocEntry, AllocArray, page_size, page_bitmap_capacity, claim_slot, place, allocate_page,
}

pub allocate_page_returns :
    (a : AllocArray) (range : BitRange) (bitmap : List ℕ) (es : List AllocEntry) (base : ℕ)
    → a.active ≡ true
    → alloc_bitrange a.bitmap page_bitmap_capacity 1 false ≡ ok (range, bitmap)
    → (range.length == 0) ≡ false
    → add32 a.bottom (u32 (range.start * page_size)) ≡ base
    → claim_slot (record { base_ptr = base; range = range; utilized = true }) a.entries ≡ some es
    → allocate_page a ≡ ok (base, record a { entries = es; bitmap = bitmap })
unfolding allocate_page place
allocate_page_returns a range bitmap es base active got one_page at claimed =
    let started : assert a.active ≡ ok tt = ap assert active in
    rw (started, got) (ap (λ (b : ℕ). place a b (range, bitmap)) at ∙ rw (one_page, claimed) (refl))
