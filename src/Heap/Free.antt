-- ===== src/Heap/Free.antt =====
-- `kfree` of a block in use, and after the `kmalloc` that returned it.
use yo_rha.Base.{
  ℕ, ◌+◌, ◌≡◌, refl, ◌∙◌, inl, inr, true, false, ◌&&◌, List, some, arith, ltb, leb, if◌then◌else◌,
  set, ◌<◌,
}
use yo_rha.Base.Outcome.{Outcome, ok, panicked}
use yo_rha.Bitmap.{BitRange, bit_at, dealloc_bitrange}
use yo_rha.Bitmap.Apply.{IsApplied, apply_bitrange-IsApplied}
use yo_rha.Heap.{AllocEntry, AllocArray, kfree, release_slot, kmalloc}
use yo_rha.Heap.Slots.{IsReleased, NoEntry, retire, release_slot_cases}
use yo_rha.Heap.Invariant.{Live}
use yo_rha.Heap.Release.{found_slot, found_entry, IsConsistent-release}
use yo_rha.Heap.Malloc.{heap_limit, IsHeap, kmalloc_cases}

-- `result` is the heap without the block of entry `f` in slot `j`: its bytes are free, and every
-- other slot and byte is as it was.
pub record IsFreed (a : AllocArray) (j : ℕ) (f : AllocEntry) (result : Outcome AllocArray)
    : Type 0 where
  pub out : AllocArray
  pub returns : result ≡ ok out
  pub heap : IsHeap out
  pub entries : out.entries ≡ set a.entries j (retire f)
  pub same_bottom : out.bottom ≡ a.bottom
  pub same_active : out.active ≡ a.active
  pub released : release_slot f.base_ptr a.entries ≡ some (f.range, out.entries)
  pub cleared : dealloc_bitrange a.bitmap f.range ≡ ok out.bitmap
  pub bits :
      (p : ℕ)
      → bit_at out.bitmap p ≡ (
          if leb f.range.start p && ltb p (f.range.start + f.range.length)
          then 0
          else bit_at a.bitmap p)

kfree_returns :
    (a : AllocArray) (ptr : ℕ) (range : BitRange) (es : List AllocEntry) (bitmap : List ℕ)
    → a.active ≡ true
    → release_slot ptr a.entries ≡ some (range, es)
    → dealloc_bitrange a.bitmap range ≡ ok bitmap
    → kfree a ptr ≡ ok (record a { entries = es; bitmap = bitmap })
unfolding kfree
kfree_returns a ptr range es bitmap active found cleared = ground arith

module _ (a : AllocArray) (v : IsHeap a) (j : ℕ) (f : AllocEntry) (live : Live a.entries j f) where
  cleared :
      IsApplied f.range.start
        (f.range.start + f.range.length)
        false
        a.bitmap
        (dealloc_bitrange a.bitmap f.range)
  cleared =
      let b = v.consistent.block j f live in
      unfold dealloc_bitrange in
      apply_bitrange-IsApplied a.bitmap f.range false b.nonempty (omega (arith, v.words, b.inside))
        (omega (arith, b.inside))

  found :
      IsReleased f.base_ptr a.entries (release_slot f.base_ptr a.entries)
      → release_slot f.base_ptr a.entries ≡ some (f.range, set a.entries j (retire f))
  found c =
      let slot =
        found_slot 1 heap_limit (omega arith) a cleared.out v.consistent f.base_ptr j f live refl
          c in
      let entry =
        found_entry 1 heap_limit (omega arith) a cleared.out v.consistent f.base_ptr j f live refl
          c in
      c.returns ∙ cc (slot, entry)

  found-IsFreed :
      IsReleased f.base_ptr a.entries (release_slot f.base_ptr a.entries)
      → IsFreed a j f (kfree a f.base_ptr)
  found-IsFreed c = record {
    out = record a { entries = set a.entries j (retire f); bitmap = cleared.out };
    returns =
        kfree_returns a f.base_ptr f.range (set a.entries j (retire f)) cleared.out v.active
          (found c) cleared.returns;
    heap = record {
      active = v.active;
      words = cleared.same_length ∙ v.words;
      room = v.room;
      consistent =
          IsConsistent-release 1 heap_limit (omega arith) a cleared.out v.consistent f.base_ptr j f
            live refl c cleared.bits;
    };
    entries = refl;
    same_bottom = refl;
    same_active = refl;
    released = found c;
    cleared = cleared.returns;
    bits = cleared.bits;
  }

  -- On a heap that `IsHeap` describes, `kfree` of the pointer of a block in use returns, frees
  -- the bytes of that block and no others, and leaves the heap consistent; slots that were freed
  -- before are not mistaken for it.
  pub kfree-IsFreed : IsFreed a j f (kfree a f.base_ptr)
  kfree-IsFreed = elim (release_slot_cases f.base_ptr a.entries) [
    | inl c ↦ found-IsFreed c
    | inr (_, all) ↦ absurd (all j f live.0 refl)
  ]

-- On an active heap, a pointer that no slot holds makes `kfree` panic.
pub kfree_unknown :
    (a : AllocArray) (ptr : ℕ) → a.active ≡ true → NoEntry ptr a.entries → kfree a ptr ≡ panicked
kfree_unknown a ptr active all = elim (release_slot_cases ptr a.entries) [
  | inl c ↦ absurd (all c.slot c.old c.was c.here)
  | inr (gone, _) ↦ unfold kfree in rw (active, gone)
]

-- On a consistent heap, freeing what a `kmalloc` of a positive size just returned, in the heap that
-- it left, returns, and gives back exactly the free bytes that there were before, in a consistent
-- heap.
pub kfree-kmalloc :
    (a : AllocArray) (size ptr : ℕ) (out : AllocArray)
    → IsHeap a
    → 0 < size
    → kmalloc a size ≡ ok (ptr, out)
    → (freed : AllocArray) × (kfree out ptr ≡ ok freed)
      × IsHeap freed
      × ((p : ℕ) → bit_at freed.bitmap p ≡ bit_at a.bitmap p)
kfree-kmalloc a size ptr out v pos e = elim (kmalloc_cases a size v pos) [
  | inr (stops, _) ↦ absurd (cc (e, stops))
  | inl m ↦
      let f : IsFreed m.out m.slot m.entry (kfree m.out m.entry.base_ptr) =
        kfree-IsFreed m.out m.heap m.slot m.entry m.live in
      let same_ptr : ptr ≡ m.entry.base_ptr = cc (e, m.returns) in
      let same_out : out ≡ m.out = cc (e, m.returns) in
      (
        f.out,
        rw (same_ptr, same_out) (f.returns),
        f.heap,
        λ p. ground (arith, f.bits p, m.bits p, m.full_length, m.was_free p),
      )
]
