-- ===== src/Heap/Slots.antt =====
-- The two searches through the table of entries.

use yo_rha.Base.{
  ℕ, zero, suc, ◌<◌, ◌≡◌, ◌≢◌, refl, ◌⊎◌, inl, inr, true, false, List, [], ◌∷◌, Option, none, some,
  arith, ◌==◌, ==_iff, get_elem?, set, Bool-cases,
}
use yo_rha.Bitmap.{BitRange}
use yo_rha.Heap.{AllocEntry, claim_slot, release_slot}

-- `claim_slot` stored the entry in the first slot that was not in use.
pub record IsClaimed (new_entry : AllocEntry) (es : List AllocEntry)
    (result : Option (List AllocEntry)) : Type 0 where
  pub slot : ℕ
  pub old : AllocEntry
  pub returns : result ≡ some (set es slot new_entry)
  pub was : get_elem? es slot ≡ some old
  pub unused : old.utilized ≡ false
  pub earlier : (j : ℕ) (e : AllocEntry) → j < slot → get_elem? es j ≡ some e → e.utilized ≡ true

abbrev pub AllUsed : List AllocEntry → Type 0
AllUsed es = (j : ℕ) (e : AllocEntry) → get_elem? es j ≡ some e → e.utilized ≡ true

pub claim_slot_cases :
    (new_entry : AllocEntry) (es : List AllocEntry)
    → IsClaimed new_entry es (claim_slot new_entry es)
      ⊎ (claim_slot new_entry es ≡ none) × AllUsed es
unfolding claim_slot
claim_slot_cases n [] = inr (refl, λ j e h. ground arith)
claim_slot_cases n (e ∷ es) = elim (Bool-cases e.utilized) [
  | inl used ↦ elim (claim_slot_cases n es) [
    | inl c ↦ inl (record {
      slot = suc c.slot;
      old = c.old;
      returns = rw (used, c.returns) (refl);
      was = c.was;
      unused = c.unused;
      earlier = λ j e' lt h. later c.slot used c.earlier j e' lt h;
    })
    | inr (gone, all) ↦ inr (rw (used, gone) (refl), all_later used all)
  ]
  | inr unused ↦ inl (record {
    slot = 0;
    old = e;
    returns = rw unused (refl);
    was = refl;
    unused = unused;
    earlier = λ j e' lt h. absurd (omega arith);
  })
]
  where
    later :
        (k : ℕ)
        → e.utilized ≡ true
        → ((j : ℕ) (f : AllocEntry) → j < k → get_elem? es j ≡ some f → f.utilized ≡ true)
        → (j : ℕ) (f : AllocEntry) → j < suc k
        → get_elem? (e ∷ es) j ≡ some f
        → f.utilized ≡ true
    later k used rest zero f lt h = ground arith
    later k used rest (suc j) f lt h = rest j f (omega arith) h

    all_later :
        e.utilized ≡ true
        → AllUsed es
        → (j : ℕ) (f : AllocEntry) → get_elem? (e ∷ es) j ≡ some f
        → f.utilized ≡ true
    all_later used rest zero f h = ground arith
    all_later used rest (suc j) f h = rest j f h

abbrev pub retire : AllocEntry → AllocEntry
retire e = record e { utilized = false }

-- `release_slot` retired the first entry with the pointer.
pub record IsReleased (ptr : ℕ) (es : List AllocEntry)
    (result : Option (BitRange × List AllocEntry)) : Type 0 where
  pub slot : ℕ
  pub old : AllocEntry
  pub returns : result ≡ some (old.range, set es slot (retire old))
  pub was : get_elem? es slot ≡ some old
  pub here : old.base_ptr ≡ ptr
  pub earlier : (j : ℕ) (e : AllocEntry) → j < slot → get_elem? es j ≡ some e → e.base_ptr ≢ ptr

abbrev pub NoEntry : ℕ → List AllocEntry → Type 0
NoEntry ptr es = (j : ℕ) (e : AllocEntry) → get_elem? es j ≡ some e → e.base_ptr ≢ ptr

pub release_slot_cases :
    (ptr : ℕ) (es : List AllocEntry)
    → IsReleased ptr es (release_slot ptr es) ⊎ (release_slot ptr es ≡ none) × NoEntry ptr es
unfolding release_slot
release_slot_cases ptr [] = inr (refl, λ j e h. ground arith)
release_slot_cases ptr (e ∷ es) = elim (Bool-cases (e.base_ptr == ptr)) [
  | inl same ↦ inl (record {
    slot = 0;
    old = e;
    returns = rw same (refl);
    was = refl;
    here = (==_iff e.base_ptr ptr).0 same;
    earlier = λ j e' lt h. absurd (omega arith);
  })
  | inr other ↦ elim (release_slot_cases ptr es) [
    | inl c ↦ inl (record {
      slot = suc c.slot;
      old = c.old;
      returns = rw (other, c.returns) (refl);
      was = c.was;
      here = c.here;
      earlier = later c.slot other c.earlier;
    })
    | inr (gone, all) ↦ inr (rw (other, gone) (refl), all_later other all)
  ]
]
  where
    later :
        (k : ℕ)
        → (e.base_ptr == ptr) ≡ false
        → ((j : ℕ) (f : AllocEntry) → j < k → get_elem? es j ≡ some f → f.base_ptr ≢ ptr)
        → (j : ℕ) (f : AllocEntry) → j < suc k
        → get_elem? (e ∷ es) j ≡ some f
        → f.base_ptr ≢ ptr
    later k other rest zero f lt h = ground arith
    later k other rest (suc j) f lt h = rest j f (omega arith) h

    all_later :
        (e.base_ptr == ptr) ≡ false
        → NoEntry ptr es
        → (j : ℕ) (f : AllocEntry) → get_elem? (e ∷ es) j ≡ some f
        → f.base_ptr ≢ ptr
    all_later other rest zero f h = ground arith
    all_later other rest (suc j) f h = rest j f h
