-- ===== src/Ring/Refine.antt =====
-- The ring behaves as the queue of the characters between its indices.
use yo_rha.Base.{
  ℕ, zero, suc, ◌+◌, ◌-◌, ◌%◌, ◌^◌, ◌<◌, ◌≡◌, ◌≢◌, refl, ap, List, [], ◌∷◌, ◌++◌, arith, ◌==◌,
  length, get_or, set, length-set, get_or-set_self, get_or-set_ne,
}
use mathlib.Core.Path.{ap₂}
use yo_rha.Ring.{RingBuffer, ring_put}
use yo_rha.Ring.Queue.{Queue, push}

pub record IsRing (r : RingBuffer) : Type 0 where
  pub storage : length r.char_buffer ≡ 64
  pub in_range : r.in_index < 64
  pub out_range : r.out_index < 64

-- The `n` characters from index `i` on, going round at 64.
abbrev window : List ℕ → ℕ → ℕ → Queue
window buf i zero = []
window buf i (suc n) = get_or buf i 0 ∷ window buf ((i + 1) % 64) n

abbrev pub count : RingBuffer → ℕ
count r = (r.in_index + 64 - r.out_index) % 64

abbrev pub contents : RingBuffer → Queue
contents r = window r.char_buffer r.out_index (count r)

length-window : (buf : List ℕ) (i n : ℕ) → length (window buf i n) ≡ n
length-window buf i zero = refl
length-window buf i (suc n) = ap suc (length-window buf ((i + 1) % 64) n)

-- Writing behind a window extends it.
window-set :
    (buf : List ℕ) (i n k c : ℕ)
    → length buf ≡ 64
    → i < 64
    → n < 64
    → k ≡ (i + n) % 64
    → window (set buf k c) i (suc n) ≡ window buf i n ++ (c ∷ [])
window-set buf i zero k c s hi hn e =
    let here : k ≡ i = omega arith in
    rw here (ap (λ x. x ∷ []) (get_or-set_self buf i c 0 (omega arith)))
window-set buf i (suc n) k c s hi hn e =
    ap₂ ◌∷◌ (get_or-set_ne buf k i c 0 (omega arith))
      (window-set buf ((i + 1) % 64) n k c s (omega arith) (omega arith) (omega arith))

-- Storing a character keeps the indices in range.
pub ring_put-IsRing : (r : RingBuffer) (c : ℕ) → IsRing r → IsRing (ring_put r c)
unfolding ring_put
ring_put-IsRing r c v = ground (arith, length-set r.char_buffer r.in_index c)

full_iff :
    (r : RingBuffer)
    → IsRing r
    → (length (contents r) == 63) ≡ ((r.in_index + 1) % 64 % 2 ^ 32 == r.out_index)
full_iff r v = ground (arith, length-window r.char_buffer r.out_index (count r))

appended :
    (r : RingBuffer) (c : ℕ)
    → IsRing r
    → (r.in_index + 1) % 64 ≢ r.out_index
    → window
        (set r.char_buffer r.in_index c)
        r.out_index
        (((r.in_index + 1) % 64 % 2 ^ 32 + 64 - r.out_index) % 64)
      ≡ contents r ++ (c ∷ [])
appended r c v ne =
    let more : ((r.in_index + 1) % 64 % 2 ^ 32 + 64 - r.out_index) % 64 ≡ suc (count r) =
      omega (arith, v.in_range, v.out_range) in
    rw more (
      window-set r.char_buffer r.out_index (count r) r.in_index c v.storage v.out_range
        (omega arith) (omega (arith, v.in_range, v.out_range)))

-- Storing a character in a ring whose indices are in its buffer is `push` on the queue that the
-- ring holds: a zero is no character, and a full ring drops it.
pub ring_put_refines :
    (r : RingBuffer) (c : ℕ) → IsRing r → contents (ring_put r c) ≡ push (contents r) c
unfolding ring_put
ring_put_refines r c v = ground (arith, full_iff r v, appended r c v)
