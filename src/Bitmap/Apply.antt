-- ===== src/Bitmap/Apply.antt =====
-- `apply_bitrange` as a specification on positions.
use yo_rha.Base.{
  ◌*◌, ℕ, suc, ◌+◌, ◌-◌, ◌/◌, ◌%◌, ◌^◌, ◌<◌, ◌≡◌, ◌∙◌, Bool, false, ◌&&◌, List, arith, ltb, leb,
  ◌==◌, if◌then◌else◌, length, ℕ_discrete,
}
use yo_rha.Base.Outcome.{Outcome, ok, fault}
use yo_rha.Bitmap.{BitRange, bit_at, apply_bitrange}
use yo_rha.Bitmap.Mask.{flag}
use yo_rha.Bitmap.Words.{
  IsAppliedFrom, IsApplied-inner, loop-fault, loop-IsAppliedFrom, loop-inner, loop, IsAppliedFrom,
}

-- `result` is a normal return with exactly the positions of `[start, end)` set or cleared.
pub record IsApplied (start end : ℕ) (b : Bool) (bitmap : List ℕ) (result : Outcome (List ℕ))
    : Type 0 where
  pub out : List ℕ
  pub returns : result ≡ ok out
  pub same_length : length out ≡ length bitmap
  pub bits : (p : ℕ) → bit_at out p ≡ (if leb start p && ltb p end then flag b else bit_at bitmap p)

IsApplied-from :
    (start end : ℕ) (b : Bool) (bitmap : List ℕ) {result : Outcome (List ℕ)}
    → IsAppliedFrom (start / 32) start end b bitmap result
    → IsApplied start end b bitmap result
IsApplied-from start end b bitmap a = record {
  out = a.out;
  returns = a.returns;
  same_length = a.same_length;
  bits = λ p. ground (arith, a.bits p);
}

loop_all :
    (bitmap : List ℕ) (start end : ℕ) (b : Bool)
    → start < end
    → end / 32 < length bitmap
    → end / 32 + 1 < 2 ^ 16
    → IsAppliedFrom
        (start / 32)
        start
        end
        b
        bitmap
        (loop start end b (end / 32 + 2) (start / 32) bitmap)
loop_all bitmap start end b pos inside small = elim (ℕ_discrete (start / 32) (end / 32)) [
  | yes same ↦
      let two : end / 32 + 2 ≡ suc (end / 32 + 1) = omega arith in
      rw (two, loop-inner start end b (end / 32 + 1) bitmap same)
        (IsApplied-inner start end b bitmap pos same inside)
  | no ne ↦
      loop-IsAppliedFrom start end b (end / 32 + 2) (start / 32) bitmap (omega arith) (omega arith)
        (omega arith) (omega arith) small inside
]

-- The call is its loop where nothing wraps.
enters_loop :
    (bitmap : List ℕ) (range : BitRange) (b : Bool)
    → 0 < range.length
    → range.start + range.length < 2 ^ 21 - 32
    → let end = range.start + range.length in
      apply_bitrange bitmap range b
      ≡ loop range.start end b (end / 32 + 2) (range.start / 32) bitmap
enters_loop bitmap range b pos small =
    let no_wrap : (range.start + range.length) % 2 ^ 32 ≡ range.start + range.length =
      omega arith in
    let word_fits : range.start / 32 % 2 ^ 16 ≡ range.start / 32 = omega arith in
    let nonempty : (range.length == 0) ≡ false = ground arith in
    unfold apply_bitrange in rw (no_wrap, word_fits, nonempty)

-- `apply_bitrange` on a nonempty range that ends before the last position of the bitmap returns,
-- with exactly the positions of the range set (or cleared) and every other position kept. The
-- range ends below position 2 ^ 21 - 32, so that the 16-bit word counter does not wrap.
pub apply_bitrange-IsApplied :
    (bitmap : List ℕ) (range : BitRange) (b : Bool)
    → 0 < range.length
    → range.start + range.length < 32 * length bitmap
    → range.start + range.length < 2 ^ 21 - 32
    → IsApplied range.start (range.start + range.length) b bitmap (apply_bitrange bitmap range b)
apply_bitrange-IsApplied bitmap range b pos inside small = IsApplied-from range.start end b bitmap (
    rw (enters_loop bitmap range b pos small)
      (loop_all bitmap range.start end b (omega arith) (omega arith) (omega arith)))
  where
    end : ℕ
    end = range.start + range.length

-- A range of some positions that ends with the last position of the bitmap, below 2 ^ 21 - 32, makes
-- `apply_bitrange` access a word outside the bitmap, which is the outcome `fault`.
pub apply_bitrange-fault :
    (bitmap : List ℕ) (range : BitRange) (b : Bool)
    → 0 < range.length
    → range.start + range.length ≡ 32 * length bitmap
    → range.start + range.length < 2 ^ 21 - 32
    → apply_bitrange bitmap range b ≡ fault
apply_bitrange-fault bitmap range b pos ends small =
    enters_loop bitmap range b pos small
    ∙ loop-fault range.start end b (end / 32 + 2) (range.start / 32) bitmap (omega arith)
        (omega arith) (omega arith) (omega arith) (omega arith)
  where
    end : ℕ
    end = range.start + range.length
