-- ===== src/Heap/Invariant.antt =====
-- The invariant that links the table of entries to the bitmap, and what keeps it.
use yo_rha.Base.{
  ℕ, ◌+◌, ◌*◌, ◌≤◌, ◌<◌, ◌≡◌, ◌≢◌, sym, ap, ◌∙◌, ◌⊎◌, inl, inr, true, List, some, arith, length,
  get_elem?, get_elem?-set_self, get_elem?-set_ne, set, ℕ_discrete, dec_lt,
}
use yo_rha.Bitmap.{BitRange, bit_at}
use yo_rha.Heap.{AllocEntry, AllocArray}

abbrev pub Live : List AllocEntry → ℕ → AllocEntry → Type 0
Live es i e = (get_elem? es i ≡ some e) × (e.utilized ≡ true)

-- The ranges have no position in common.
abbrev pub Apart : BitRange → BitRange → Type 0
Apart r t = (r.start + r.length ≤ t.start) ⊎ (t.start + t.length ≤ r.start)

-- A position of the bitmap stands for `unit` bytes, and blocks end at position `limit`.
module _ (unit limit : ℕ) where
  pub record IsBlock (a : AllocArray) (e : AllocEntry) : Type 0 where
    pub nonempty : 0 < e.range.length
    pub inside : e.range.start + e.range.length ≤ limit
    pub based : e.base_ptr ≡ a.bottom + e.range.start * unit
    pub taken :
        (q : ℕ) → e.range.start ≤ q → q < e.range.start + e.range.length → bit_at a.bitmap q ≡ 1

  -- `block`: the range of an entry in use is taken in the bitmap, and its pointer is where the
  -- range starts. `apart`: two such ranges do not meet. `fresh`: no earlier slot holds the pointer
  -- of an entry in use, not even a slot that was freed.
  pub record IsConsistent (a : AllocArray) : Type 0 where
    pub block : (i : ℕ) (e : AllocEntry) → Live a.entries i e → IsBlock a e
    pub apart :
        (i j : ℕ) (e f : AllocEntry)
        → i ≢ j
        → Live a.entries i e
        → Live a.entries j f
        → Apart e.range f.range
    pub fresh :
        (i j : ℕ) (e f : AllocEntry)
        → i < j
        → get_elem? a.entries i ≡ some e
        → Live a.entries j f
        → e.base_ptr ≢ f.base_ptr

pub Apart-symm : (r t : BitRange) → Apart r t → Apart t r
Apart-symm r t (inl h) = inr h
Apart-symm r t (inr h) = inl h

-- A slot of an updated table is the written one or an old one.
pub get_elem?-set_cases :
    (es : List AllocEntry) (k i : ℕ) (n e : AllocEntry)
    → get_elem? (set es k n) i ≡ some e
    → k < length es
    → (i ≡ k) × (e ≡ n) ⊎ (i ≢ k) × (get_elem? es i ≡ some e)
get_elem?-set_cases es k i n e h lt = elim (ℕ_discrete i k) [
  | yes same ↦
      inl (
        same,
        ground (arith, get_elem?-set_self es k n lt, ap (λ t. get_elem? (set es k n) t) same),
      )
  | no ne ↦ inr (ne, sym (get_elem?-set_ne es k i n (λ q. ne (sym q))) ∙ h)
]

-- A taken range and a free one do not meet.
pub Apart-of_bits :
    (bitmap : List ℕ) (r t : BitRange)
    → 0 < r.length
    → 0 < t.length
    → ((q : ℕ) → r.start ≤ q → q < r.start + r.length → bit_at bitmap q ≡ 1)
    → ((q : ℕ) → t.start ≤ q → q < t.start + t.length → bit_at bitmap q ≡ 0)
    → Apart r t
Apart-of_bits bitmap r t pr pt ones zeros = elim (dec_lt t.start (r.start + r.length)) [
  | no before ↦ inl (omega arith)
  | yes p ↦ elim (dec_lt r.start (t.start + t.length)) [
    | no after ↦ inr (omega arith)
    | yes q ↦ elim (dec_lt r.start t.start) [
      | yes lt ↦
          absurd
            (omega (arith, ones t.start (omega arith) p, zeros t.start (omega arith) (omega arith)))
      | no ge ↦
          absurd
            (omega (arith, ones r.start (omega arith) (omega arith), zeros r.start (omega arith) q))
    ]
  ]
]

module _ (unit limit : ℕ) (pos : 0 < unit) where
  pub Apart-base :
      (a : AllocArray) (e f : AllocEntry)
      → IsBlock unit limit a e
      → IsBlock unit limit a f
      → Apart e.range f.range
      → e.base_ptr ≢ f.base_ptr
  Apart-base a e f p q (inl h) same =
      let lt : e.range.start < f.range.start = omega (arith, p.nonempty) in
      let scaled : e.range.start * unit < f.range.start * unit = grind arith in
      omega (arith, p.based, q.based)
  Apart-base a e f p q (inr h) same =
      let lt : f.range.start < e.range.start = omega (arith, q.nonempty) in
      let scaled : f.range.start * unit < e.range.start * unit = grind arith in
      omega (arith, p.based, q.based)
