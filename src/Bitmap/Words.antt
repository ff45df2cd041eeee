-- ===== src/Bitmap/Words.antt =====
-- The loop of `apply_bitrange` over the words of a range.
use yo_rha.Base.{
  ℕ, zero, suc, ◌+◌, ◌-◌, ◌/◌, ◌%◌, ◌^◌, ◌≤◌, ◌<◌, ◌≡◌, refl, ap, ◌∙◌, Bool, ◌&&◌, List, arith, ltb,
  leb, ◌==◌, if◌then◌else◌, get_or, set, length, length-set, get_or-set_self, get_or-set_ne,
  get_elem?-eq-get_or, get_elem?_past, dec_lt, ℕ_discrete,
}
use yo_rha.Base.Outcome.{Outcome, ok, fault}
use yo_rha.Base.Bits.{test_bit}
use yo_rha.Bitmap.{bit_at, apply_words, write_word, coeff, inner_coeff, combine}
use yo_rha.Bitmap.Mask.{flag, coeff_bits, inner_coeff_bits, test_bit-combine}

-- `result` is a normal return with the positions of `[start, end)` in the words from `first` on
-- set or cleared, and every other position as it was.
pub record IsAppliedFrom (first start end : ℕ) (b : Bool) (bitmap : List ℕ)
    (result : Outcome (List ℕ)) : Type 0 where
  pub out : List ℕ
  pub returns : result ≡ ok out
  pub same_length : length out ≡ length bitmap
  pub bits :
      (p : ℕ)
      → bit_at out p
        ≡ (if leb first (p / 32) && (leb start p && ltb p end) then flag b else bit_at bitmap p)

-- One word, combined with a coefficient.
bit_at-set :
    (bitmap : List ℕ) (word c : ℕ) (b : Bool) (p : ℕ)
    → word < length bitmap
    → bit_at (set bitmap word (combine b (get_or bitmap word 0) c)) p ≡ (
        if p / 32 == word
        then (if test_bit c (31 - p % 32) == 1 then flag b else bit_at bitmap p)
        else bit_at bitmap p)
bit_at-set bitmap word c b p h = elim (ℕ_discrete (p / 32) word) [
  | yes e ↦
      ap
        (λ i.
          test_bit (get_or (set bitmap word (combine b (get_or bitmap word 0) c)) i 0)
            (31 - p % 32))
        e
      ∙ ap (λ w. test_bit w (31 - p % 32))
          (get_or-set_self bitmap word (combine b (get_or bitmap word 0) c) 0 h)
      ∙ test_bit-combine b (get_or bitmap word 0) c (31 - p % 32) (omega arith)
      ∙ ground arith
  | no ne ↦
      ground (arith, get_or-set_ne bitmap word (p / 32) (combine b (get_or bitmap word 0) c) 0)
]

write_word-ok :
    (bitmap : List ℕ) (word c : ℕ) (b : Bool)
    → word < length bitmap
    → write_word bitmap word c b ≡ ok (set bitmap word (combine b (get_or bitmap word 0) c))
unfolding write_word
write_word-ok bitmap word c b h = rw (get_elem?-eq-get_or bitmap word 0 h)

module _ (start end : ℕ) (b : Bool) where
  abbrev pub loop : ℕ → ℕ → List ℕ → Outcome (List ℕ)
  loop = apply_words (start / 32) (start % 32) (end / 32) (end % 32) b

  -- The step of a loop over several words, and its only step over one.
  IsApplied-step :
      (bitmap : List ℕ) (word : ℕ) {result : Outcome (List ℕ)}
      → start / 32 < end / 32
      → start / 32 ≤ word
      → word ≤ end / 32
      → word < length bitmap
      → let c = coeff (start / 32) (start % 32) (end / 32) (end % 32) word in
        IsAppliedFrom
          (word + 1)
          start
          end
          b
          (set bitmap word (combine b (get_or bitmap word 0) c))
          result
        → IsAppliedFrom word start end b bitmap result
  IsApplied-step bitmap word many lo hi inside rest = record {
    out = rest.out;
    returns = rest.returns;
    same_length = rest.same_length ∙ length-set bitmap word _;
    bits = λ p. rest.bits p ∙ elim (ℕ_discrete (p / 32) word) [
      | yes e ↦ ground (
        arith,
        bit_at-set bitmap word c b p inside,
        ap (λ w. test_bit (coeff (start / 32) (start % 32) (end / 32) (end % 32) w) (31 - p % 32))
            e,
        coeff_bits start end p many,
      )
      | no ne ↦ ground (arith, bit_at-set bitmap word c b p inside)
    ];
  }
    where
      c : ℕ
      c = coeff (start / 32) (start % 32) (end / 32) (end % 32) word

  IsApplied-done :
      (bitmap : List ℕ) (word : ℕ)
      → end / 32 < word
      → IsAppliedFrom word start end b bitmap (ok bitmap)
  IsApplied-done bitmap word h = record {
    out = bitmap;
    returns = refl;
    same_length = refl;
    bits = λ p. ground arith;
  }

  pub IsApplied-inner :
      (bitmap : List ℕ)
      → start < end
      → start / 32 ≡ end / 32
      → end / 32 < length bitmap
      → IsAppliedFrom
          (start / 32)
          start
          end
          b
          bitmap
          (write_word bitmap (start / 32) (inner_coeff (start % 32) (end % 32)) b)
  IsApplied-inner bitmap pos same inside = record {
    out = set bitmap (start / 32) (combine b (get_or bitmap (start / 32) 0) c);
    returns = write_word-ok bitmap (start / 32) c b (omega arith);
    same_length = length-set bitmap (start / 32) _;
    bits = λ p.
        ground (arith, bit_at-set bitmap (start / 32) c b p, inner_coeff_bits start end p pos same);
  }
    where
      c : ℕ
      c = inner_coeff (start % 32) (end % 32)

  loop_stops :
      (fuel word : ℕ) (bitmap : List ℕ) → end / 32 < word → loop (suc fuel) word bitmap ≡ ok bitmap
  unfolding apply_words
  loop_stops fuel word bitmap h = ground arith

  pub loop-inner :
      (fuel : ℕ) (bitmap : List ℕ)
      → start / 32 ≡ end / 32
      → loop (suc fuel) (start / 32) bitmap
        ≡ write_word bitmap (start / 32) (inner_coeff (start % 32) (end % 32)) b
  unfolding apply_words
  loop-inner fuel bitmap same = ground arith

  loop-step :
      (fuel word : ℕ) (bitmap : List ℕ)
      → start / 32 < end / 32
      → word ≤ end / 32
      → end / 32 + 1 < 2 ^ 16
      → word < length bitmap
      → let c = coeff (start / 32) (start % 32) (end / 32) (end % 32) word in
        loop (suc fuel) word bitmap
        ≡ loop fuel (word + 1) (set bitmap word (combine b (get_or bitmap word 0) c))
  unfolding apply_words
  loop-step fuel word bitmap many hi small inside =
      let next : (word + 1) % 2 ^ 16 ≡ word + 1 = omega arith in
      ground (
        arith,
        next,
        write_word-ok bitmap word (coeff (start / 32) (start % 32) (end / 32) (end % 32) word) b,
      )

  loop-past :
      (fuel word : ℕ) (bitmap : List ℕ)
      → start / 32 < end / 32
      → word ≤ end / 32
      → length bitmap ≤ word
      → loop (suc fuel) word bitmap ≡ fault
  unfolding apply_words write_word
  loop-past fuel word bitmap many hi out = ground (arith, get_elem?_past bitmap word)

  -- The word past the end of the bitmap is read, though no bit of it is to change.
  pub loop-fault :
      (fuel word : ℕ) (bitmap : List ℕ)
      → start / 32 < end / 32
      → word ≤ end / 32
      → end / 32 + 1 ≤ fuel + word
      → end / 32 + 1 < 2 ^ 16
      → end / 32 ≡ length bitmap
      → loop fuel word bitmap ≡ fault
  loop-fault zero word bitmap many hi enough small e = absurd (omega arith)
  loop-fault (suc fuel) word bitmap many hi enough small e = elim (dec_lt word (end / 32)) [
    | yes lt ↦
        rw (loop-step fuel word bitmap many hi small (omega arith))
          (loop-fault fuel (word + 1) _ many (omega arith) (omega arith) small (rw length-set e))
    | no last ↦ loop-past fuel word bitmap many hi (omega arith)
  ]

  pub loop-IsAppliedFrom :
      (fuel word : ℕ) (bitmap : List ℕ)
      → start / 32 < end / 32
      → start / 32 ≤ word
      → word ≤ end / 32 + 1
      → end / 32 + 2 ≤ fuel + word
      → end / 32 + 1 < 2 ^ 16
      → end / 32 < length bitmap
      → IsAppliedFrom word start end b bitmap (loop fuel word bitmap)
  loop-IsAppliedFrom zero word bitmap many lo hi enough small inside = absurd (omega arith)
  loop-IsAppliedFrom (suc fuel) word bitmap many lo hi enough small inside =
      elim (dec_lt (end / 32) word) [
        | yes past ↦ rw (loop_stops fuel word bitmap past) (IsApplied-done bitmap word past)
        | no more ↦ rw (loop-step fuel word bitmap many (omega arith) small (omega arith)) (
            IsApplied-step bitmap word many lo (omega arith) (omega arith) (
              loop-IsAppliedFrom fuel (word + 1) _ many (omega arith) (omega arith) (omega arith)
                small (rw length-set inside)))
      ]
