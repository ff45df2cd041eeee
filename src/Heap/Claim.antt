-- ===== src/Heap/Claim.antt =====
-- An allocation keeps the invariant.
use yo_rha.Base.{
  ℕ, ◌+◌, ◌*◌, ◌≤◌, ◌<◌, ◌≡◌, ◌≢◌, sym, ap, ◌∙◌, ◌⊎◌, inl, inr, true, ◌&&◌, List, Option, some,
  arith, ltb, leb, if◌then◌else◌, length, get_elem?, get_elem?-lt, set,
}
use yo_rha.Bitmap.{bit_at}
use yo_rha.Heap.{AllocEntry, AllocArray}
use yo_rha.Heap.Slots.{IsClaimed}
use yo_rha.Heap.Invariant.{
  Live, Apart, Apart-symm, IsBlock, IsConsistent, Apart-base, Apart-of_bits, get_elem?-set_cases,
}

-- The new entry of an allocation, over a range that was free.
module _ (unit limit : ℕ) (pos : 0 < unit) (a : AllocArray) (n : AllocEntry) (out : List ℕ)
    (v : IsConsistent unit limit a) {result : Option (List AllocEntry)}
    (c : IsClaimed n a.entries result) (used : n.utilized ≡ true) (nonempty : 0 < n.range.length)
    (inside : n.range.start + n.range.length ≤ limit)
    (based : n.base_ptr ≡ a.bottom + n.range.start * unit)
    (was_free : (q : ℕ)
      → n.range.start ≤ q
      → q < n.range.start + n.range.length
      → bit_at a.bitmap q ≡ 0)
    (bits : (p : ℕ)
      → bit_at out p ≡ (
          if leb n.range.start p && ltb p (n.range.start + n.range.length)
          then 1
          else bit_at a.bitmap p)) where
  abbrev claimed : AllocArray
  claimed = record a { entries = set a.entries c.slot n; bitmap = out }

  in_table : c.slot < length a.entries
  in_table = get_elem?-lt a.entries c.slot c.was

  pub new-Apart : (i : ℕ) (e : AllocEntry) → Live a.entries i e → Apart e.range n.range
  new-Apart i e l =
      let b = v.block i e l in
      Apart-of_bits a.bitmap e.range n.range b.nonempty nonempty b.taken was_free

  new-IsBlock : IsBlock unit limit claimed n
  new-IsBlock = record {
    nonempty = nonempty;
    inside = inside;
    based = based;
    taken = λ q lo hi. ground (arith, bits q);
  }

  old-IsBlock : (i : ℕ) (e : AllocEntry) → Live a.entries i e → IsBlock unit limit claimed e
  old-IsBlock i e l =
      let b = v.block i e l in
      record {
        nonempty = b.nonempty;
        inside = b.inside;
        based = b.based;
        taken = λ q lo hi. ground (arith, bits q, b.taken q lo hi);
      }

  at :
      (i : ℕ) (e : AllocEntry)
      → Live (set a.entries c.slot n) i e
      → (i ≡ c.slot) × (e ≡ n) ⊎ (i ≢ c.slot) × Live a.entries i e
  at i e l = elim (get_elem?-set_cases a.entries c.slot i n e l.0 in_table) [
    | inl here ↦ inl here
    | inr (ne, old) ↦ inr (ne, (old, l.1))
  ]

  claimed-Apart :
      (i j : ℕ) (e f : AllocEntry)
      → i ≢ j
      → Live (set a.entries c.slot n) i e
      → Live (set a.entries c.slot n) j f
      → Apart e.range f.range
  claimed-Apart i j e f ne p q = elim (at i e p) [
    | inl (ik, en) ↦ elim (at j f q) [
      | inl (jk, fn) ↦ absurd (ne (ik ∙ sym jk))
      | inr (_, l) ↦ rw en (Apart-symm f.range n.range (new-Apart j f l))
    ]
    | inr (_, l) ↦ elim (at j f q) [
      | inl (jk, fn) ↦ rw fn (new-Apart i e l)
      | inr (_, l') ↦ v.apart i j e f ne l l'
    ]
  ]

  claimed_fresh :
      (i j : ℕ) (e f : AllocEntry)
      → i < j
      → get_elem? (set a.entries c.slot n) i ≡ some e
      → Live (set a.entries c.slot n) j f
      → e.base_ptr ≢ f.base_ptr
  claimed_fresh i j e f lt p q = elim (get_elem?-set_cases a.entries c.slot i n e p in_table) [
    | inl (ik, en) ↦ elim (at j f q) [
      | inl (jk, fn) ↦ absurd (omega arith)
      | inr (_, l) ↦ λ same.
          Apart-base unit limit pos claimed f n (old-IsBlock j f l) new-IsBlock (new-Apart j f l)
            (sym same ∙ ap (λ t. t.base_ptr) en)
    ]
    | inr (_, old) ↦ elim (at j f q) [
      | inl (jk, fn) ↦ λ same.
          let l : Live a.entries i e = (old, c.earlier i e (omega arith) old) in
          Apart-base unit limit pos claimed e n (old-IsBlock i e l) new-IsBlock (new-Apart i e l)
            (same ∙ ap (λ t. t.base_ptr) fn)
      | inr (_, l') ↦ v.fresh i j e f lt old l'
    ]
  ]

  pub IsConsistent-claim : IsConsistent unit limit claimed
  IsConsistent-claim = record {
    block = λ i e l. elim (at i e l) [
      | inl (ik, en) ↦ rw en new-IsBlock
      | inr (_, l') ↦ old-IsBlock i e l'
    ];
    apart = claimed-Apart;
    fresh = claimed_fresh;
  }
