-- ===== src/Heap/Release.antt =====
-- A release keeps the invariant.
use yo_rha.Base.{
  ℕ, ◌+◌, ◌<◌, ◌≡◌, ◌≢◌, sym, ap, ◌∙◌, inl, inr, ◌&&◌, List, Option, some, arith, ltb, leb,
  if◌then◌else◌, length, get_elem?, get_elem?-lt, set, dec_lt,
}
use yo_rha.Bitmap.{BitRange, bit_at}
use yo_rha.Heap.{AllocEntry, AllocArray}
use yo_rha.Heap.Slots.{IsReleased, retire}
use yo_rha.Heap.Invariant.{Live, Apart, IsBlock, IsConsistent, get_elem?-set_cases}

-- The retired entry of a release, over a range that was in use.
module _ (unit limit : ℕ) (pos : 0 < unit) (a : AllocArray) (out : List ℕ)
    (v : IsConsistent unit limit a) (ptr j : ℕ) (f : AllocEntry) (live : Live a.entries j f)
    (holds : f.base_ptr ≡ ptr) {result : Option (BitRange × List AllocEntry)}
    (c : IsReleased ptr a.entries result) where
  -- The search finds the entry in use.
  pub found_slot : c.slot ≡ j
  found_slot = elim (dec_lt c.slot j) [
    | yes lt ↦ absurd (v.fresh c.slot j c.old f lt c.was live (c.here ∙ sym holds))
    | no ge ↦ elim (dec_lt j c.slot) [
      | yes lt ↦ absurd (c.earlier j f lt live.0 holds)
      | no le ↦ omega arith
    ]
  ]

  pub found_entry : c.old ≡ f
  found_entry = ground (arith, ap (λ t. get_elem? a.entries t) found_slot, c.was, live.0)

  module _
      (bits : (p : ℕ)
        → bit_at out p ≡ (
            if leb f.range.start p && ltb p (f.range.start + f.range.length)
            then 0
            else bit_at a.bitmap p)) where
    abbrev released : AllocArray
    released = record a { entries = set a.entries j (retire f); bitmap = out }

    in_old_table : j < length a.entries
    in_old_table = get_elem?-lt a.entries j live.0

    still :
        (i : ℕ) (e : AllocEntry)
        → Live (set a.entries j (retire f)) i e
        → (i ≢ j) × Live a.entries i e
    still i e l = elim (get_elem?-set_cases a.entries j i (retire f) e l.0 in_old_table) [
      | inl (ij, er) ↦ cc (l.1, ap (λ (t : AllocEntry). t.utilized) er)
      | inr (ne, old) ↦ (ne, (old, l.1))
    ]

    old-IsBlock :
        (i : ℕ) (e : AllocEntry) → i ≢ j → Live a.entries i e → IsBlock unit limit released e
    old-IsBlock i e ne l =
        let b = v.block i e l in
        let away : Apart e.range f.range = v.apart i j e f ne l live in
        record {
          nonempty = b.nonempty;
          inside = b.inside;
          based = b.based;
          taken = λ q lo hi. ground (arith, bits q, b.taken q lo hi, away);
        }

    released_fresh :
        (i k : ℕ) (e g : AllocEntry)
        → i < k
        → get_elem? (set a.entries j (retire f)) i ≡ some e
        → Live (set a.entries j (retire f)) k g
        → e.base_ptr ≢ g.base_ptr
    released_fresh i k e g lt p q =
        elim (get_elem?-set_cases a.entries j i (retire f) e p in_old_table) [
          | inl (ij, er) ↦ λ same.
              v.fresh j k f g (omega arith) live.0 (still k g q).1
                (sym (ap (λ (t : AllocEntry). t.base_ptr) er) ∙ same)
          | inr (_, old) ↦ v.fresh i k e g lt old (still k g q).1
        ]

    pub IsConsistent-release : IsConsistent unit limit released
    IsConsistent-release = record {
      block = λ i e l. old-IsBlock i e (still i e l).0 (still i e l).1;
      apart = λ i k e g ne p q. v.apart i k e g ne (still i e p).1 (still k g q).1;
      fresh = released_fresh;
    }
