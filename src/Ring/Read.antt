-- ===== src/Ring/Read.antt =====
-- The read loop takes the oldest characters.
use yo_rha.Base.{
  ℕ, zero, suc, ◌+◌, ◌%◌, ◌≡◌, ◌≢◌, refl, sym, ap, ◌∙◌, List, [], ◌∷◌, arith, get_or,
  get_elem?-eq-get_or, take, drop, ℕ_discrete,
}
use yo_rha.Base.Outcome.{Outcome, ok}
use yo_rha.Ring.{RingBuffer, ring_read}
use yo_rha.Ring.Refine.{IsRing, count, contents}

-- `result` hands out the oldest `n` characters, or all if there are fewer, and keeps the rest.
pub record IsRead (r : RingBuffer) (n : ℕ) (result : Outcome (List ℕ × RingBuffer)) : Type 0 where
  pub out : RingBuffer
  pub returns : result ≡ ok (take n (contents r), out)
  pub valid : IsRing out
  pub rest : contents out ≡ drop n (contents r)
  pub same_end : out.in_index ≡ r.in_index

take-nil : (n : ℕ) → take {A = ℕ} n [] ≡ []
take-nil zero = refl
take-nil (suc n) = refl

drop-nil : (n : ℕ) → drop {A = ℕ} n [] ≡ []
drop-nil zero = refl
drop-nil (suc n) = refl

abbrev advance : RingBuffer → RingBuffer
advance r = record r { out_index = (r.out_index + 1) % 64 }

contents_empty : (r : RingBuffer) → IsRing r → r.out_index ≡ r.in_index → contents r ≡ []
contents_empty r v e = let none : count r ≡ 0 = omega (arith, v.in_range) in rw none

contents_more :
    (r : RingBuffer)
    → IsRing r
    → r.out_index ≢ r.in_index
    → contents r ≡ get_or r.char_buffer r.out_index 0 ∷ contents (advance r)
contents_more r v ne =
    let more : count r ≡ suc (count (advance r)) = omega (arith, v.in_range, v.out_range) in rw more

read-suc :
    (r : RingBuffer) (n : ℕ) {cs : List ℕ} {out : RingBuffer}
    → IsRing r
    → r.out_index ≢ r.in_index
    → ring_read (advance r) n ≡ ok (cs, out)
    → ring_read r (suc n) ≡ ok (get_or r.char_buffer r.out_index 0 ∷ cs, out)
unfolding ring_read
read-suc r n v ne rest = ground (arith, get_elem?-eq-get_or r.char_buffer r.out_index 0, v.storage)

read_empty : (r : RingBuffer) (n : ℕ) → r.out_index ≡ r.in_index → ring_read r n ≡ ok ([], r)
unfolding ring_read
read_empty r zero e = refl
read_empty r (suc n) e = ground arith

-- Reading `n` characters from a ring whose indices are in its buffer never leaves the buffer. It
-- returns the oldest `n` characters of the queue that the ring holds, in order, or all of them if
-- there are fewer, and the ring then holds the rest.
pub ring_read-IsRead : (r : RingBuffer) (n : ℕ) → IsRing r → IsRead r n (ring_read r n)
ring_read-IsRead r zero v = record {
  out = r;
  returns = unfold ring_read in refl;
  valid = v;
  rest = refl;
  same_end = refl;
}
ring_read-IsRead r (suc n) v = elim (ℕ_discrete r.out_index r.in_index) [
  | yes e ↦ record {
    out = r;
    returns =
        read_empty r (suc n) e ∙ ap (λ q. ok (take (suc n) q, r)) (sym (contents_empty r v e));
    valid = v;
    rest = contents_empty r v e ∙ ap (λ q. drop (suc n) q) (sym (contents_empty r v e));
    same_end = refl;
  }
  | no ne ↦
      let v' : IsRing (advance r) = omega (arith, v.storage, v.in_range, v.out_range) in
      let tail = ring_read-IsRead (advance r) n v' in
      record {
        out = tail.out;
        returns =
            read-suc r n v ne tail.returns
            ∙ ap (λ q. ok (take (suc n) q, tail.out)) (sym (contents_more r v ne));
        valid = tail.valid;
        rest = tail.rest ∙ ap (λ q. drop (suc n) q) (sym (contents_more r v ne));
        same_end = tail.same_end;
      }
]
