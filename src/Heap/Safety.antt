-- ===== src/Heap/Safety.antt =====
-- The heap is safe for every client.
use yo_rha.Base.{
  ℕ, ◌+◌, ◌<◌, ◌≡◌, ◌≢◌, refl, sym, ap, ◌∙◌, inl, inr, List, [], ◌∷◌, arith, set, get_elem?,
  get_elem?-set_ne,
}
use yo_rha.Base.Outcome.{Outcome, ok}
use yo_rha.Memory.{Memory}
use yo_rha.Heap.{AllocEntry, AllocArray, kmalloc, kfree, krealloc}
use yo_rha.Heap.Slots.{retire}
use yo_rha.Heap.Invariant.{Live}
use yo_rha.Heap.Malloc.{IsHeap, IsMalloced, kmalloc_cases}
use yo_rha.Heap.Free.{kfree-IsFreed}
use yo_rha.Heap.Contents.{kept-Live, krealloc_cases}
use yo_rha.Heap.Client.{
  Block, BlocksApart, Removed, there, ClientStep, allocates, frees, reallocates, Reachable, starts,
  steps, HasBlock, AllApart, AreOwned, AreOwned-Removed,
}

-- `kmalloc` keeps the client's blocks, and the new block does not meet them.
module _ (a : AllocArray) (v : IsHeap a) {size : ℕ} {result : Outcome (ℕ × AllocArray)}
    (m : IsMalloced a size result) where
  BlocksApart-new : (b : Block) → HasBlock a b → BlocksApart (m.entry.base_ptr, size) b
  BlocksApart-new b h =
      let block = v.consistent.block h.slot h.entry h.live in
      let based : h.entry.base_ptr ≡ a.bottom + h.entry.range.start = omega (arith, block.based) in
      elim (m.apart h.slot h.entry h.live) [
        | inl before ↦ inr (omega (arith, before, based, h.based, h.sized, m.based))
        | inr after ↦ inl (omega (arith, after, based, h.based, m.full_length, m.based))
      ]

  HasBlock-kept : (b : Block) → HasBlock a b → HasBlock m.out b
  HasBlock-kept b h = record {
    slot = h.slot;
    entry = h.entry;
    live = kept-Live a h.slot h.entry h.live m;
    based = h.based;
    sized = h.sized;
  }

  AreOwned-kept :
      (bs : List Block) → AreOwned a bs → AllApart (m.entry.base_ptr, size) bs × AreOwned m.out bs
  AreOwned-kept [] h = (tt, tt)
  AreOwned-kept (b ∷ bs) h =
      let rest = AreOwned-kept bs h.2 in
      ((BlocksApart-new b h.0, rest.0), (HasBlock-kept b h.0, h.1, rest.1))

  AreOwned-kmalloc :
      (bs : List Block) → AreOwned a bs → AreOwned m.out ((m.entry.base_ptr, size) ∷ bs)
  AreOwned-kmalloc bs h =
      let new : HasBlock m.out (m.entry.base_ptr, size) = record {
        slot = m.slot;
        entry = m.entry;
        live = m.live;
        based = refl;
        sized = m.full_length;
      } in
      let rest = AreOwned-kept bs h in (new, rest.0, rest.1)

-- The entry of a freed block is gone, and no other block had it.
module _ (a : AllocArray) (v : IsHeap a) (b : Block) (j : ℕ) (f : AllocEntry)
    (live : Live a.entries j f) (based : f.base_ptr ≡ b.0) (sized : f.range.length ≡ b.1) where
  other_slot : (c : Block) → BlocksApart b c → (k : HasBlock a c) → j ≢ k.slot
  other_slot c apart k same =
      let entry : f ≡ k.entry = (let was = live.0 in let is = k.live.0 in cc) in
      let some_bytes = (v.consistent.block j f live).nonempty in
      let same_ptr : b.0 ≡ c.0 = sym based ∙ ap (λ (e : AllocEntry). e.base_ptr) entry ∙ k.based in
      let same_size : b.1 ≡ c.1 =
        sym sized ∙ ap (λ (e : AllocEntry). e.range.length) entry ∙ k.sized in
      elim apart [
        | inl before ↦ omega (arith, before, some_bytes, sized, same_ptr)
        | inr after ↦ omega (arith, after, some_bytes, sized, same_ptr, same_size)
      ]

  AreOwned-kfree :
      (out : AllocArray) (bs : List Block)
      → out.entries ≡ set a.entries j (retire f)
      → AllApart b bs
      → AreOwned a bs
      → AreOwned out bs
  AreOwned-kfree out [] same apart o = tt
  AreOwned-kfree out (c ∷ cs) same apart o =
      let ne = other_slot c apart.0 o.0 in
      let kept : HasBlock out c = record {
        slot = o.0.slot;
        entry = o.0.entry;
        live = (
          ap (λ t. get_elem? t o.0.slot) same
              ∙ get_elem?-set_ne a.entries j o.0.slot (retire f) ne
              ∙ o.0.live.0,
          o.0.live.1,
        );
        based = o.0.based;
        sized = o.0.sized;
      } in
      (kept, o.1, AreOwned-kfree out cs same apart.1 o.2)

-- `heap`: the table agrees with the bitmap. `owned`: the client's blocks are in use, and no two of
-- them meet.
pub record IsSafe (a : AllocArray) (bs : List Block) : Type 0 where
  pub heap : IsHeap a
  pub owned : AreOwned a bs

IsSafe-allocates :
    (a a' : AllocArray) (bs : List Block) (size ptr : ℕ)
    → 0 < size
    → kmalloc a size ≡ ok (ptr, a')
    → IsSafe a bs
    → IsSafe a' ((ptr, size) ∷ bs)
IsSafe-allocates a a' bs size ptr pos call s = elim (kmalloc_cases a size s.heap pos) [
  | inl m ↦
      let returned = m.returns in
      let same_ptr : ptr ≡ m.entry.base_ptr = cc in
      let same_heap : a' ≡ m.out = cc in
      rw (same_ptr, same_heap)
        (record { heap = m.heap; owned = AreOwned-kmalloc a s.heap m bs s.owned })
  | inr (stops, _) ↦ cc
]

-- The entry of the block, with its own pointer in place of the client's.
IsSafe-frees :
    (a a' : AllocArray) (bs cs : List Block) (b : Block)
    → Removed b bs cs
    → kfree a b.0 ≡ ok a'
    → IsSafe a bs
    → IsSafe a' cs
IsSafe-frees a a' bs cs b removed call s =
    let (h, apart, rest) = AreOwned-Removed a b removed s.owned in
    let f = kfree-IsFreed a s.heap h.slot h.entry h.live in
    let returned = f.returns in
    let based = h.based in
    let same_heap : a' ≡ f.out = cc in
    rw same_heap (record {
      heap = f.heap;
      owned =
          AreOwned-kfree a s.heap b h.slot h.entry h.live h.based h.sized f.out cs f.entries apart
            rest;
    })

IsSafe-reallocates :
    (a a' : AllocArray) (bs cs : List Block) (b : Block) (m m' : Memory) (size ptr : ℕ)
    → 0 < size
    → Removed b bs cs
    → krealloc a m b.0 size ≡ ok (ptr, a', m')
    → IsSafe a bs
    → IsSafe a' ((ptr, size) ∷ cs)
IsSafe-reallocates a a' bs cs b m m' size ptr pos removed call s =
    let (h, _, _) = AreOwned-Removed a b removed s.owned in
    elim (krealloc_cases a m h.slot h.entry size s.heap h.live pos) [
      | inl r ↦
          let returned = r.returns in
          let based = h.based in
          let same_ptr : ptr ≡ r.block.entry.base_ptr = cc in
          let same_heap : a' ≡ r.out = cc in
          let (_, apart, owned) =
            AreOwned-Removed r.block.out b (there removed)
              (AreOwned-kmalloc a s.heap r.block bs s.owned) in
          rw (same_ptr, same_heap)
            (record {
              heap = r.heap;
              owned =
                  AreOwned-kfree r.block.out r.block.heap b h.slot h.entry
                    (kept-Live a h.slot h.entry h.live r.block) h.based h.sized r.out
                    ((r.block.entry.base_ptr, size) ∷ cs) r.entries apart owned;
            })
      | inr (stops, _) ↦ let based = h.based in cc
    ]

IsSafe-step :
    {a a' : AllocArray} {bs cs : List Block} → ClientStep a bs a' cs → IsSafe a bs → IsSafe a' cs
IsSafe-step {a} {a'} {bs} (allocates {size = size} {ptr = ptr} pos call) s =
    IsSafe-allocates a a' bs size ptr pos call s
IsSafe-step {a} {a'} {bs} {cs} (frees {b = b} removed call) s =
    IsSafe-frees a a' bs cs b removed call s
IsSafe-step {a} {a'} (reallocates {bs = bs} {cs = cs} {b = b} m m' {size} {ptr} pos removed call)
      s =
    IsSafe-reallocates a a' bs cs b m m' size ptr pos removed call s

-- Whatever a client does that asks for positive sizes and frees or reallocates only pointers that it
-- has: if the heap was consistent when it started, then the heap is consistent, each of its blocks is
-- in use with the size that was asked for, and no two of them meet.
pub Reachable-IsSafe :
    (a b : AllocArray) (bs : List Block) → IsHeap a → Reachable a b bs → IsSafe b bs
Reachable-IsSafe a b bs v starts = record { heap = v; owned = tt }
Reachable-IsSafe a b bs v (steps {b = c} {bs = cs} r step) =
    IsSafe-step step (Reachable-IsSafe a c cs v r)

-- Such a client never makes `kfree` panic or fault: freeing any pointer that it has returns, and
-- leaves it its other blocks.
pub Reachable-kfree :
    (a b : AllocArray) (bs cs : List Block) (block : Block)
    → IsHeap a
    → Reachable a b bs
    → Removed block bs cs
    → (out : AllocArray) × (kfree b block.0 ≡ ok out) × IsSafe out cs
Reachable-kfree a b bs cs block v r removed =
    let s = Reachable-IsSafe a b bs v r in
    let h = (AreOwned-Removed b block removed s.owned).0 in
    let f = kfree-IsFreed b s.heap h.slot h.entry h.live in
    let returns : kfree b block.0 ≡ ok f.out = ap (kfree b) (sym h.based) ∙ f.returns in
    (f.out, returns, IsSafe-frees b f.out bs cs block removed returns s)
