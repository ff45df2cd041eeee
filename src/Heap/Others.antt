-- ===== src/Heap/Others.antt =====
-- What `kfree` leaves in use, whatever the heap.
use mathlib.Core.Option
use yo_rha.Base.{
  ℕ, zero, suc, ◌≡◌, ◌≢◌, refl, sym, true, false, arith, List, [], ◌∷◌, Option, none, some, ◌==◌,
  ℕ_discrete,
}
use yo_rha.Base.Outcome.{ok, panicked, ◌>>=◌, assert, bind_ok}
use yo_rha.Bitmap.{BitRange, dealloc_bitrange}
use yo_rha.Heap.{AllocEntry, AllocArray, release_slot, kfree}
use yo_rha.Heap.Invariant.{Live}

map-some :
    {A B : Type 0} (g : A → B) (o : Option A) (b : B)
    → Option.map g o ≡ some b
    → (a : A) × (o ≡ some a) × (g a ≡ b)
map-some g none b e = cc
map-some g (some a) b e = (a, refl, cc)

abbrev cons_found : AllocEntry → BitRange × List AllocEntry → BitRange × List AllocEntry
cons_found e found = (found.0, e ∷ found.1)

release_slot-keeps :
    (ptr : ℕ) (es : List AllocEntry) (found : BitRange × List AllocEntry) (k : ℕ) (f : AllocEntry)
    → release_slot ptr es ≡ some found
    → Live es k f
    → f.base_ptr ≢ ptr
    → Live found.1 k f
unfolding release_slot
release_slot-keeps ptr [] found k f e live ne = cc
release_slot-keeps ptr (x ∷ es) found zero f e live ne =
    let other : (x.base_ptr == ptr) ≡ false = ground (arith, live.0, ne) in
    let rest = map-some (cons_found x) (release_slot ptr es) found (rw other at e) in
    rw (sym rest.2) live
release_slot-keeps ptr (x ∷ es) found (suc k) f e live ne = elim (ℕ_discrete x.base_ptr ptr) [
  | yes same ↦
      let test : (x.base_ptr == ptr) ≡ true = ground (arith, same) in
      let here : ◌≡◌ {A = Option (BitRange × List AllocEntry)}
          (some (x.range, record x { utilized = false } ∷ es)) (some found) =
        rw test at e in
      (cc (here, live.0), live.1)
  | no differs ↦
      let test : (x.base_ptr == ptr) ≡ false = ground (arith, differs) in
      let rest = map-some (cons_found x) (release_slot ptr es) found (rw test at e) in
      rw (sym rest.2) (release_slot-keeps ptr es rest.0 k f rest.1 live ne)
]

pub kfree-keeps :
    (a out : AllocArray) (ptr k : ℕ) (f : AllocEntry)
    → kfree a ptr ≡ ok out
    → Live a.entries k f
    → f.base_ptr ≢ ptr
    → Live out.entries k f
unfolding kfree
kfree-keeps a out ptr k f e live ne =
    let checked = bind_ok (assert a.active) _ out e in
    released (release_slot ptr a.entries) refl checked.2
  where
    released :
        (r : Option (BitRange × List AllocEntry))
        → release_slot ptr a.entries ≡ r
        → elim r [
          | none ↦ panicked
          | some (range, entries) ↦ dealloc_bitrange a.bitmap range >>= λ bitmap.
              ok (record a { entries = entries; bitmap = bitmap })
        ]
          ≡ ok out
        → Live out.entries k f
    released none h found = cc
    released (some (range, entries)) h found =
        let b =
          bind_ok (dealloc_bitrange a.bitmap range)
            (λ bitmap. ok (record a { entries = entries; bitmap = bitmap })) out found in
        let kept = release_slot-keeps ptr a.entries (range, entries) k f h live ne in
        let same : entries ≡ out.entries = cc (b.2) in rw (sym same) kept
