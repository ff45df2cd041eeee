-- ===== src/Startup/Pages.antt =====
-- A page allocator of which the first pages are taken.
use yo_rha.Base.{
  ℕ, ◌+◌, ◌-◌, ◌*◌, ◌/◌, ◌%◌, ◌^◌, ◌≤◌, ◌<◌, ◌≡◌, sym, ◌∙◌, inl, inr, true, false, List, some,
  arith, ltb, ◌==◌, if◌then◌else◌, length, length-set, get_elem?, get_or, get_elem?-eq-get_or,
  get_elem?-set_ne, set, dec_lt,
}
use yo_rha.Base.Outcome.{ok}
use yo_rha.Bitmap.{bit_at, alloc_bitrange}
use yo_rha.Bitmap.Passed.{NoneBelow, Blocked}
use yo_rha.Bitmap.Alloc.{IsAllocated, alloc_bitrange_cases}
use yo_rha.Heap.{AllocEntry, AllocArray, page_bitmap_capacity, allocate_page}
use yo_rha.Heap.Page.{allocate_page_returns}
use yo_rha.Heap.Slots.{claim_slot_cases}

-- Exactly the pages below `n` are taken, and the entries from `k` on are not in use.
pub record IsPrefix (n k : ℕ) (a : AllocArray) : Type 0 where
  pub active : a.active ≡ true
  pub bottom : a.bottom ≡ 0
  pub words : length a.bitmap ≡ page_bitmap_capacity
  pub bits : (p : ℕ) → bit_at a.bitmap p ≡ (if ltb p n then 1 else 0)
  pub slots : length a.entries ≡ 256
  pub unused :
      (i : ℕ) (e : AllocEntry) → k ≤ i → get_elem? a.entries i ≡ some e → e.utilized ≡ false

module _ (n count : ℕ) (bitmap : List ℕ)
    (bits : (p : ℕ) → bit_at bitmap p ≡ (if ltb p n then 1 else 0)) where
  not-Blocked : ¬ Blocked bitmap false count n count
  not-Blocked b = ground (arith, bits b.0, b.1, b.3)

  NoneBelow-le : (s : ℕ) → NoneBelow bitmap false count s → s ≤ n
  NoneBelow-le s first = elim (dec_lt n s) [
    | yes lt ↦ absurd (not-Blocked (first n (omega arith) lt))
    | no ge ↦ omega (arith, ge)
  ]

  -- The lowest free range starts behind the taken pages.
  pub first_free :
      0 < count
      → length bitmap ≡ page_bitmap_capacity
      → n + count < 65536
      → (al : IsAllocated bitmap false count
          (page_bitmap_capacity / 4)
          (alloc_bitrange bitmap page_bitmap_capacity count false))
        × (al.range.start ≡ n)
  first_free pos words small =
      let ends : (s : ℕ)
          → s + count ≤ page_bitmap_capacity / 4 * 32
          → NoneBelow bitmap false count s
          → (s + count < 32 * length bitmap) × (s + count < 2 ^ 21 - 32) =
        λ s h first.
          (omega (arith, NoneBelow-le s first, words), omega (arith, NoneBelow-le s first)) in
      elim (alloc_bitrange_cases bitmap false count page_bitmap_capacity pos (omega (arith, words))
        ends) [
          | inl al ↦ (
            al,
            elim (dec_lt al.range.start n) [
              | yes lt ↦ absurd (
                  ground (
                    arith,
                    bits al.range.start,
                    al.was_free al.range.start (omega arith) (omega arith),
                    lt,
                  ))
              | no ge ↦ omega (arith, ge, NoneBelow-le al.range.start al.first)
            ],
          )
          | inr (_, full) ↦ absurd (not-Blocked (full n (omega arith) (omega arith)))
        ]

module _ (n k : ℕ) (a : AllocArray) (v : IsPrefix n k a) (some_slots : k < 256)
    (small : n + 1 < 65536) where
  -- The next page is allocated, and the one behind it is then the first that is free.
  pub allocate_page_lem :
      (out : AllocArray) × (allocate_page a ≡ ok (n * 4096, out)) × IsPrefix (n + 1) (k + 1) out
  allocate_page_lem =
      let (al, start) = first_free n 1 a.bitmap v.bits (omega arith) v.words small in
      let base : (a.bottom + al.range.start * 4096 % 2 ^ 32) % 2 ^ 32 ≡ n * 4096 =
        omega (arith, v.bottom, start) in
      let new_entry : AllocEntry = record {
        base_ptr = n * 4096;
        range = al.range;
        utilized = true;
      } in
      let free : get_elem? a.entries k ≡ some (get_or a.entries k new_entry) =
        get_elem?-eq-get_or a.entries k new_entry (omega (arith, v.slots)) in
      let idle = v.unused k (get_or a.entries k new_entry) (omega arith) free in
      let one_page : (al.range.length == 0) ≡ false = ground (arith, al.full_length) in
      elim (claim_slot_cases new_entry a.entries) [
        | inl c ↦
            let out : AllocArray = record a {
              entries = set a.entries c.slot new_entry;
              bitmap = al.out;
            } in
            let low : c.slot ≤ k = elim (dec_lt k c.slot) [
              | yes lt ↦
                  let used = c.earlier k (get_or a.entries k new_entry) lt free in absurd (cc)
              | no ge ↦ omega (arith, ge)
            ] in
            (
              out,
              allocate_page_returns a al.range al.out (set a.entries c.slot new_entry) (n * 4096)
                  v.active al.returns one_page base c.returns,
              record {
                active = v.active;
                bottom = v.bottom;
                words = al.same_length ∙ v.words;
                bits = λ p. ground (arith, al.bits p, v.bits p, start);
                slots = length-set a.entries c.slot new_entry ∙ v.slots;
                unused = λ i e le h.
                    v.unused i e (omega arith) (
                      sym (get_elem?-set_ne a.entries c.slot i new_entry (λ same. omega arith))
                      ∙ h);
              },
            )
        | inr (_, all) ↦ let used = all k (get_or a.entries k new_entry) free in absurd (cc)
      ]
