-- ===== src/Heap/Malloc.antt =====
-- `kmalloc` on every branch.
use yo_rha.Base.{
  ℕ, ◌+◌, ◌*◌, ◌/◌, ◌%◌, ◌^◌, ◌≤◌, ◌<◌, ◌≡◌, refl, ◌∙◌, ◌⊎◌, inl, inr, true, false, ◌&&◌, arith,
  ltb, leb, ◌==◌, if◌then◌else◌, length, get_elem?-lt, get_elem?-set_self, set,
}
use yo_rha.Base.Outcome.{Outcome, ok, panicked, ◌>>=◌}
use yo_rha.Base.Word.{add32}
use yo_rha.Bitmap.{bit_at, alloc_bitrange}
use yo_rha.Bitmap.Passed.{NoneBelow}
use yo_rha.Bitmap.Alloc.{IsAllocated, IsFull, alloc_bitrange_cases}
use yo_rha.Heap.{AllocEntry, AllocArray, kernel_bitmap_capacity, kmalloc, place, claim_slot}
use yo_rha.Heap.Slots.{IsClaimed, AllUsed, claim_slot_cases}
use yo_rha.Heap.Invariant.{Live, Apart, IsConsistent}
use yo_rha.Heap.Claim.{IsConsistent-claim, new-Apart}

-- The bytes that the scan of `kmalloc` covers: twice `kernel_heap_size`.
abbrev pub heap_limit : ℕ
heap_limit = kernel_bitmap_capacity / 4 * 32

-- A heap that `initialize_allocator` set up and that its operations have worked on.
pub record IsHeap (a : AllocArray) : Type 0 where
  pub active : a.active ≡ true
  pub words : length a.bitmap ≡ kernel_bitmap_capacity
  pub room : a.bottom + heap_limit < 2 ^ 32
  pub consistent : IsConsistent 1 heap_limit a

-- `result` is a new block: the lowest free bytes, aligned to words, in the first unused slot.
pub record IsMalloced (a : AllocArray) (size : ℕ) (result : Outcome (ℕ × AllocArray)) : Type 0 where
  pub out : AllocArray
  pub slot : ℕ
  pub entry : AllocEntry
  pub returns : result ≡ ok (entry.base_ptr, out)
  pub heap : IsHeap out
  pub live : Live out.entries slot entry
  pub unused : (e : AllocEntry) → ¬ Live a.entries slot e
  pub entries : out.entries ≡ set a.entries slot entry
  pub same_bottom : out.bottom ≡ a.bottom
  pub based : entry.base_ptr ≡ a.bottom + entry.range.start
  pub full_length : entry.range.length ≡ size
  pub aligned : entry.range.start % 4 ≡ 0
  pub first : NoneBelow a.bitmap true size entry.range.start
  pub was_free :
      (q : ℕ) → entry.range.start ≤ q → q < entry.range.start + size → bit_at a.bitmap q ≡ 0
  pub apart : (i : ℕ) (e : AllocEntry) → Live a.entries i e → Apart e.range entry.range
  pub bits :
      (p : ℕ)
      → bit_at out.bitmap p ≡ (
          if leb entry.range.start p && ltb p (entry.range.start + size)
          then 1
          else bit_at a.bitmap p)

module _ (a : AllocArray) (size : ℕ) (v : IsHeap a) (pos : 0 < size) where
  enters : kmalloc a size ≡ (
      alloc_bitrange a.bitmap kernel_bitmap_capacity size true >>= λ allocated.
      place a (add32 a.bottom allocated.0.start) allocated)
  enters = unfold kmalloc in rw v.active

  module _
      (al : IsAllocated a.bitmap true size
        (kernel_bitmap_capacity / 4)
        (alloc_bitrange a.bitmap kernel_bitmap_capacity size true)) where
    abbrev new_entry : AllocEntry
    new_entry = record {
      base_ptr = add32 a.bottom al.range.start;
      range = al.range;
      utilized = true;
    }

    based_lem : add32 a.bottom al.range.start ≡ a.bottom + al.range.start
    based_lem = omega (arith, v.room, al.inside)

    claimed-IsMalloced :
        IsClaimed new_entry a.entries (claim_slot new_entry a.entries)
        → IsMalloced a size (place a new_entry.base_ptr (al.range, al.out))
    claimed-IsMalloced c = record {
      out = record a { entries = set a.entries c.slot new_entry; bitmap = al.out };
      slot = c.slot;
      entry = new_entry;
      returns =
          let some_length : (al.range.length == 0) ≡ false = ground (arith, al.full_length) in
          unfold place in rw (some_length, c.returns);
      heap = record {
        active = v.active;
        words = al.same_length ∙ v.words;
        room = v.room;
        consistent =
            IsConsistent-claim 1 heap_limit (omega arith) a new_entry al.out v.consistent c refl
              (omega (arith, al.full_length)) (omega (arith, al.full_length, al.inside))
              (omega (arith, based_lem))
              (λ q lo hi. al.was_free q lo (omega (arith, al.full_length)))
              (λ p. al.bits p ∙ ground (arith, al.full_length));
      };
      live = (
        get_elem?-set_self a.entries c.slot new_entry (get_elem?-lt a.entries c.slot c.was),
        refl,
      );
      unused = λ e l. cc (l.0, l.1, c.was, c.unused);
      entries = refl;
      same_bottom = refl;
      based = based_lem;
      full_length = al.full_length;
      aligned = al.aligned;
      first = al.first;
      was_free = al.was_free;
      apart = λ i e l.
          new-Apart 1 heap_limit (omega arith) a new_entry al.out v.consistent c refl
            (omega (arith, al.full_length)) (omega (arith, al.full_length, al.inside))
            (omega (arith, based_lem)) (λ q lo hi. al.was_free q lo (omega (arith, al.full_length)))
            (λ p. al.bits p ∙ ground (arith, al.full_length)) i e l;
      bits = al.bits;
    }

    placed :
        IsMalloced a size (place a new_entry.base_ptr (al.range, al.out))
        ⊎ (place a new_entry.base_ptr (al.range, al.out) ≡ panicked) × AllUsed a.entries
    placed = elim (claim_slot_cases new_entry a.entries) [
      | inl c ↦ inl (claimed-IsMalloced c)
      | inr (gone, all) ↦
          let some_length : (al.range.length == 0) ≡ false = ground (arith, al.full_length) in
          inr (unfold place in rw (some_length, gone), all)
    ]

  -- On a heap that `IsHeap` describes, `kmalloc` of a positive size never faults and never loops.
  -- It returns a new block, and then the heap is consistent again; or it panics, and then no
  -- aligned run of free bytes is as long, or all slots are in use.
  pub kmalloc_cases :
      IsMalloced a size (kmalloc a size)
      ⊎ (kmalloc a size ≡ panicked)
        × (IsFull a.bitmap true size (kernel_bitmap_capacity / 4) ⊎ AllUsed a.entries)
  kmalloc_cases =
      rw enters
        (elim (alloc_bitrange_cases a.bitmap true size kernel_bitmap_capacity pos
          (omega (arith, v.words)) (λ s h first. (omega (arith, v.words), omega arith))) [
            | inl al ↦
                rw al.returns
                  (elim (placed al) [ inl m ↦ inl m | inr (stops, all) ↦ inr (stops, inr all) ])
            | inr (none_left, full) ↦ inr (rw none_left (unfold place in refl), inl full)
          ])
