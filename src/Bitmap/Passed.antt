-- ===== src/Bitmap/Passed.antt =====
-- What the scan of `alloc_bitrange` knows of the positions that it has passed, and one pass of its
-- inner loop.
use Prim.Native.Nat.{bit_and}
use yo_rha.Base.{
  ℕ, ◌+◌, ◌-◌, ◌*◌, ◌/◌, ◌%◌, ◌^◌, ◌≤◌, ◌<◌, ◌≡◌, refl, ap, ◌⊎◌, Bool, true, false, List, arith,
  ◌==◌, ==_iff, get_or,
}
use native.Mathlib.Nat.{one-le-pow}
use yo_rha.Base.Outcome.{Outcome, ok, panicked, fault, diverges}
use yo_rha.Base.Word.{shl32}
use yo_rha.Base.Bits.{test_bit, test_bit-lt, bit_and-pow, all_below, all_below_sound}
use yo_rha.Bitmap.{bit_at, Cursor, ScanResult, found, next, visit}

-- Aligned ranges start at multiples of 4.
abbrev pub grain : Bool → ℕ
grain true = 4
grain false = 1

module _ (bitmap : List ℕ) (align : Bool) (count : ℕ) where
  -- A taken position in `[s, s + n)`.
  abbrev pub Blocked : ℕ → ℕ → Type 0
  Blocked s n = (q : ℕ) × (s ≤ q) × (q < s + n) × (bit_at bitmap q ≡ 1)

  -- No range of `count` positions that starts below `limit` at a multiple of the grain is free.
  abbrev pub NoneBelow : ℕ → Type 0
  NoneBelow limit = (s : ℕ) → s % grain align ≡ 0 → s < limit → Blocked s count

  -- The cursor when all positions below `p` have been passed.
  pub record IsScanned (p : ℕ) (c : Cursor) : Type 0 where
    pub here : c.start + c.length ≡ p
    pub short : c.length < count
    pub aligned : c.start % grain align ≡ 0
    pub free : (q : ℕ) → c.start ≤ q → q < p → bit_at bitmap q ≡ 0
    pub behind :
        (c.start ≡ 0)
        ⊎ ((q : ℕ) × (c.start ≤ q + grain align) × (q < c.start) × (bit_at bitmap q ≡ 1))
    pub none_before : (s : ℕ) → s % grain align ≡ 0 → s + count ≤ p → Blocked s count

  -- The cursor at the first free range.
  pub record IsFirstFit (c : Cursor) : Type 0 where
    pub full_length : c.length ≡ count
    pub aligned : c.start % grain align ≡ 0
    pub free : (q : ℕ) → c.start ≤ q → q < c.start + count → bit_at bitmap q ≡ 0
    pub first : NoneBelow c.start

  -- What a scan that ends at position `end` returns.
  abbrev pub ScanPost : ℕ → Outcome ScanResult → Type 0
  ScanPost end (ok (found c)) = IsFirstFit c × (c.start + c.length ≤ end)
  ScanPost end (ok (next c)) = IsScanned end c
  ScanPost end panicked = ⊥
  ScanPost end fault = ⊥
  ScanPost end diverges = ⊥

shl_table : all_below 32 (λ k. shl32 1 k == 2 ^ k) ≡ true
unfolding all_below
shl_table = refl

skip_table : all_below 32 (λ k. bit_and k 0xfc == k / 4 * 4) ≡ true
unfolding all_below
skip_table = refl

skip_nibble : (bit : ℕ) → bit < 32 → bit_and bit 0xfc ≡ bit / 4 * 4
skip_nibble bit h =
    (==_iff _ _).0 (all_below_sound 32 (λ k. bit_and k 0xfc == k / 4 * 4) bit skip_table h)

-- The test `bitmap[i] & (1 << bit)`.
pub bit_and-shl32 : (w bit : ℕ) → bit < 32 → (bit_and w (shl32 1 bit) == 0) ≡ (test_bit w bit == 0)
bit_and-shl32 w bit h = ground (
  arith,
  (==_iff (shl32 1 bit) (2 ^ bit)).0 (all_below_sound 32 (λ k. shl32 1 k == 2 ^ k) bit shl_table h),
  ap (λ t. bit_and w t)
      ((==_iff (shl32 1 bit) (2 ^ bit)).0
        (all_below_sound 32 (λ k. shl32 1 k == 2 ^ k) bit shl_table h)),
  bit_and-pow w bit,
  test_bit-lt w bit,
  one-le-pow bit 2,
)

-- The bit from which the scan goes on behind a taken one.
abbrev kept : Bool → ℕ → ℕ
kept true bit = bit / 4 * 4
kept false bit = bit

pub visit-clear :
    (align : Bool) (w i bit : ℕ) (c : Cursor)
    → bit < 32
    → test_bit w bit ≡ 0
    → visit align w i bit c ≡ (bit, record { start = c.start; length = c.length + 1 })
unfolding visit
visit-clear align w i bit c h e = rw (bit_and-shl32 w bit h, e)

pub visit-taken :
    (align : Bool) (w i bit : ℕ) (c : Cursor)
    → bit < 32
    → test_bit w bit ≡ 1
    → visit align w i bit c
      ≡ (kept align bit, record { start = i * 32 + 32 - kept align bit; length = 0 })
unfolding visit
visit-taken true w i bit c h e = rw (bit_and-shl32 w bit h, e, skip_nibble bit h) (ground arith)
visit-taken false w i bit c h e = rw (bit_and-shl32 w bit h, e) (ground arith)

pub multiple_gap :
    (align : Bool) (a b : ℕ)
    → a % grain align ≡ 0
    → b % grain align ≡ 0
    → a < b
    → a + grain align ≤ b
multiple_gap true a b h k lt = omega arith
multiple_gap false a b h k lt = omega arith

pub bit_at_word :
    (bitmap : List ℕ) (i bit p : ℕ)
    → bit < 32
    → p + bit ≡ i * 32 + 31
    → bit_at bitmap p ≡ test_bit (get_or bitmap i 0) bit
bit_at_word bitmap i bit p h e =
    let word : p / 32 ≡ i = omega arith in
    let place : 31 - p % 32 ≡ bit = omega arith in rw (word, place)

pub kept_le : (align : Bool) (bit : ℕ) → kept align bit ≤ bit
kept_le true bit = omega arith
kept_le false bit = omega arith

pub kept_near :
    (align : Bool) (i bit : ℕ)
    → bit < 32
    → i * 32 + 32 - kept align bit ≤ i * 32 + 31 - bit + grain align
kept_near true i bit h = omega arith
kept_near false i bit h = omega arith

pub kept_aligned :
    (align : Bool) (i bit : ℕ) → bit < 32 → (i * 32 + 32 - kept align bit) % grain align ≡ 0
kept_aligned true i bit h = omega arith
kept_aligned false i bit h = omega arith

pub zero_aligned : (align : Bool) → 0 % grain align ≡ 0
zero_aligned true = refl
zero_aligned false = refl
