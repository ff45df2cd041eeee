-- ===== src/Base/Bits.antt =====
-- The bit operations at variables: the bits of `|`, `&`, `^`, of the masks and of shifted words.
use Prim.Native.Nat.{ℕ, zero, suc, ◌+◌, ◌-◌, ◌*◌, ◌/◌, ◌%◌, ◌^◌, ◌≤◌, ◌<◌, min, max}
use Prim.Native.Nat.{digits, differ, bit_and, bit_or, bit_xor}
use Prim.Native.Nat.{bit_and-bitwise, bit_or-bitwise, bit_xor-bitwise}
use mathlib.Core.Path.{◌≡◌, refl, ◌∙◌, ap}
use mathlib.Core.Bool.{Bool, true, false}
use native.Mathlib.Nat.{two-pow-succ, one-le-pow, mod-lt, div-add-mod'}
use native.Mathlib.Omega.{arith}
use yo_rha.Base.Tests.{ltb, ◌==◌, if◌then◌else◌}
use yo_rha.Base.Word.{low_mask, not32}

-- Bit `k` of a number, 0 or 1.
abbrev pub test_bit : ℕ → ℕ → ℕ
test_bit a zero = a % 2
test_bit a (suc k) = test_bit (a / 2) k

pub test_bit-lt : (a k : ℕ) → test_bit a k < 2
test_bit-lt a zero = omega arith
test_bit-lt a (suc k) = test_bit-lt (a / 2) k

pub test_bit_zero : (k : ℕ) → test_bit 0 k ≡ 0
test_bit_zero zero = refl
test_bit_zero (suc k) = test_bit_zero k

-- What the native operations compute digit by digit, seen at one bit.
module _ (z : ℕ → ℕ) (f : ℕ → ℕ → ℕ) (digit : (x y : ℕ) → x < 2 → y < 2 → f x y < 2)
    (rest : (b k : ℕ) → test_bit (z b) k ≡ f 0 (test_bit b k)) where
  test_bit-digits :
      (n a b k : ℕ) → a ≤ n → test_bit (digits z f n a b) k ≡ f (test_bit a k) (test_bit b k)
  test_bit-digits zero zero b k h = rw (test_bit_zero k) (rest b k)
  test_bit-digits zero (suc a) b k h = absurd (omega arith)
  test_bit-digits (suc n) zero b k h = rw (test_bit_zero k) (rest b k)
  test_bit-digits (suc n) (suc a) b zero h =
      omega (arith, digit (suc a % 2) (b % 2) (omega arith) (omega arith))
  test_bit-digits (suc n) (suc a) b (suc k) h =
      ap (λ d. test_bit d k) (omega (arith, digit (suc a % 2) (b % 2) (omega arith) (omega arith)))
      ∙ test_bit-digits n (suc a / 2) (b / 2) k (omega arith)

pub test_bit-bit_or : (a b k : ℕ) → test_bit (bit_or a b) k ≡ max (test_bit a k) (test_bit b k)
test_bit-bit_or a b k =
    ap (λ d. test_bit d k) (bit_or-bitwise a b)
    ∙ test_bit-digits (λ y. y) max (λ x y p q. omega arith) (λ y j. omega arith) a a b k
        (omega arith)

pub test_bit-bit_and : (a b k : ℕ) → test_bit (bit_and a b) k ≡ min (test_bit a k) (test_bit b k)
test_bit-bit_and a b k =
    ap (λ d. test_bit d k) (bit_and-bitwise a b)
    ∙ test_bit-digits (λ y. 0) min (λ x y p q. omega arith) (λ y j. omega (arith, test_bit_zero j))
        a a b k (omega arith)

differ-lt : (x y : ℕ) → x < 2 → y < 2 → differ x y < 2
differ-lt zero y p q = q
differ-lt (suc x) zero p q = omega arith
differ-lt (suc zero) (suc zero) p q = omega arith
differ-lt (suc zero) (suc (suc y)) p q = absurd (omega arith)
differ-lt (suc (suc x)) (suc y) p q = absurd (omega arith)

-- Exclusive or of two bits is their sum modulo 2.
differ-eq : (x y : ℕ) → x < 2 → y < 2 → differ x y ≡ (x + y) % 2
differ-eq zero y p q = omega arith
differ-eq (suc zero) zero p q = refl
differ-eq (suc zero) (suc zero) p q = refl
differ-eq (suc zero) (suc (suc y)) p q = absurd (omega arith)
differ-eq (suc (suc x)) y p q = absurd (omega arith)

pub test_bit-bit_xor : (a b k : ℕ) → test_bit (bit_xor a b) k ≡ (test_bit a k + test_bit b k) % 2
test_bit-bit_xor a b k =
    ap (λ d. test_bit d k) (bit_xor-bitwise a b)
    ∙ test_bit-digits (λ y. y) differ differ-lt (λ y j. refl) a a b k (omega arith)
    ∙ differ-eq (test_bit a k) (test_bit b k) (test_bit-lt a k) (test_bit-lt b k)

-- The low bits of a mask are set, the others clear.
pub test_bit-low_mask : (n k : ℕ) → test_bit (low_mask n) k ≡ (if ltb k n then 1 else 0)
test_bit-low_mask zero k = ground (arith, test_bit_zero k)
test_bit-low_mask (suc n) zero = ground (arith, two-pow-succ n, one-le-pow n 2)
test_bit-low_mask (suc n) (suc k) =
    ap (λ d. test_bit d k) (omega (arith, two-pow-succ n, one-le-pow n 2 (omega arith)))
    ∙ test_bit-low_mask n k
    ∙ ground arith

test_bit-pow : (n k : ℕ) → test_bit (2 ^ n) k ≡ (if k == n then 1 else 0)
test_bit-pow zero zero = refl
test_bit-pow zero (suc k) = test_bit_zero k ∙ ground arith
test_bit-pow (suc n) zero = ground (arith, two-pow-succ n)
test_bit-pow (suc n) (suc k) =
    ap (λ d. test_bit d k) (omega (arith, two-pow-succ n)) ∙ test_bit-pow n k ∙ ground arith

-- `~` flips each of the 32 bits.
pub test_bit-not32 : (a k : ℕ) → k < 32 → test_bit (not32 a) k ≡ 1 - test_bit a k
test_bit-not32 a k h =
    test_bit-bit_xor a 0xffff_ffff k ∙ ground (arith, test_bit-low_mask 32 k, test_bit-lt a k)

-- Two numbers with the same bits are equal.
bits_ext_fuel : (n a b : ℕ) → a ≤ n → b ≤ n → ((k : ℕ) → test_bit a k ≡ test_bit b k) → a ≡ b
bits_ext_fuel zero a b p q h = omega arith
bits_ext_fuel (suc n) a b p q h =
    omega (arith, h 0, bits_ext_fuel n (a / 2) (b / 2) (omega arith) (omega arith) (λ k. h (suc k)))

pub bits_ext : (a b : ℕ) → ((k : ℕ) → test_bit a k ≡ test_bit b k) → a ≡ b
bits_ext a b h = bits_ext_fuel (max a b) a b (omega arith) (omega arith) h

-- A word of two fields, the lower one `n` bits wide.
pub test_bit-fields :
    (n q r k : ℕ)
    → r < 2 ^ n
    → test_bit (q * 2 ^ n + r) k ≡ (if ltb k n then test_bit r k else test_bit q (k - n))
test_bit-fields zero q r k h =
    let whole : q * 2 ^ 0 + r ≡ q = omega arith in
    let place : k - 0 ≡ k = omega arith in rw (whole, place) (ground arith)
test_bit-fields (suc n) q r zero h =
    ground (arith, two-pow-succ n, ap (λ (t : ℕ). q * t) (two-pow-succ n))
test_bit-fields (suc n) q r (suc k) h =
    ap (λ d. test_bit d k) halves
    ∙ test_bit-fields n q (r / 2) k (omega (arith, two-pow-succ n))
    ∙ ground arith
  where
    halves : (q * 2 ^ suc n + r) / 2 ≡ q * 2 ^ n + r / 2
    halves = omega (arith, ap (λ (t : ℕ). q * t) (two-pow-succ n))

-- The bits of a remainder by a power of 2.
pub test_bit-mod : (n a k : ℕ) → test_bit (a % 2 ^ n) k ≡ (if ltb k n then test_bit a k else 0)
test_bit-mod n a k = ground (
  arith,
  one-le-pow n 2,
  mod-lt a {m = 2 ^ n},
  ap (λ d. test_bit d k) (div-add-mod' a (2 ^ n)),
  test_bit-fields n (a / 2 ^ n) (a % 2 ^ n) k,
  test_bit-fields n 0 (a % 2 ^ n) k,
  test_bit_zero (k - n),
)

-- A number below 2 is its own bit.
test_bit_small : (t j : ℕ) → t < 2 → test_bit t j ≡ (if j == 0 then t else 0)
test_bit_small t zero h = omega arith
test_bit_small t (suc j) h = ap (λ d. test_bit d j) (omega arith) ∙ test_bit_zero j ∙ ground arith

-- `x & 2^k` is nonzero exactly where bit `k` is set.
pub bit_and-pow : (a k : ℕ) → bit_and a (2 ^ k) ≡ test_bit a k * 2 ^ k
bit_and-pow a k = bits_ext _ _ λ j. ground (
  arith,
  test_bit-bit_and a (2 ^ k) j,
  test_bit-pow k j,
  test_bit-fields k (test_bit a k) 0 j,
  one-le-pow k 2,
  test_bit_zero j,
  test_bit_small (test_bit a k) (j - k) (test_bit-lt a k),
  test_bit-lt a j,
)

-- `(q << n) | r` is a sum when `r` fits below.
pub bit_or-fields : (n q r : ℕ) → r < 2 ^ n → bit_or (q * 2 ^ n) r ≡ q * 2 ^ n + r
bit_or-fields n q r h = bits_ext _ _ λ k. ground (
  arith,
  test_bit-bit_or (q * 2 ^ n) r k,
  test_bit-fields n q r k h,
  test_bit-fields n q 0 k,
  test_bit_zero k,
  one-le-pow n 2,
  test_bit-fields n 0 r k h,
  test_bit_zero (k - n),
)

-- `x & (2^n - 1)` is the remainder.
pub bit_and-low_mask : (n a : ℕ) → bit_and a (low_mask n) ≡ a % 2 ^ n
bit_and-low_mask n a = bits_ext _ _ λ k. ground (
  arith,
  test_bit-bit_and a (low_mask n) k,
  test_bit-low_mask n k,
  test_bit-mod n a k,
  test_bit-lt a k,
)

-- Whether a test succeeds on each number below a bound, from the last one down.
unfoldable pub all_below : ℕ → (ℕ → Bool) → Bool
all_below zero test = true
all_below (suc last) test = if test last then all_below last test else false

pub all_below_sound :
    (bound : ℕ) (test : ℕ → Bool) (k : ℕ) → all_below bound test ≡ true → k < bound → test k ≡ true
unfolding all_below
all_below_sound zero test k passed lt = absurd (omega arith)
all_below_sound (suc last) test k passed lt = ground (arith, all_below_sound last test k)

pub bit_or_comm : (a b : ℕ) → bit_or a b ≡ bit_or b a
bit_or_comm a b = bits_ext _ _ λ k. ground (arith, test_bit-bit_or a b k, test_bit-bit_or b a k)
