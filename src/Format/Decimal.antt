-- ===== src/Format/Decimal.antt =====
-- `intlen` and `int_to_string` of src/string.c. Division and remainder are C's: they cut off towards
-- zero, so that the remainder of a negative number is negative. Ten rounds are enough for 32 bits.
pub mod Digits
mod Tests
use yo_rha.Base.{
  ℕ, zero, suc, ◌+◌, ◌-◌, ◌/◌, ◌%◌, ◌^◌, Bool, true, false, List, ◌==◌, ltb, if◌then◌else◌, length,
  set,
}
use yo_rha.Base.Int.{ℤ, pos, negsuc}
use yo_rha.Base.Outcome.{Outcome, ok, fault, diverges, ◌>>=◌}
use yo_rha.Base.Word.{u8, u16}

abbrev negate : ℕ → ℤ
negate zero = pos 0
negate (suc n) = negsuc n

-- `value / 10`
abbrev quotient : ℤ → ℤ
quotient (pos n) = pos (n / 10)
quotient (negsuc n) = negate (suc n / 10)

-- `(char)('0' + (value % 10))`
abbrev digit_char : ℤ → ℕ
digit_char (pos n) = 48 + n % 10
digit_char (negsuc n) = 48 - suc n % 10

abbrev is_zero : ℤ → Bool
is_zero (pos n) = n == 0
is_zero (negsuc n) = false

abbrev is_negative : ℤ → Bool
is_negative (pos n) = false
is_negative (negsuc n) = true

pub intlen_from : ℕ → ℕ → ℤ → Outcome ℕ
intlen_from zero i value = diverges
intlen_from (suc fuel) i value =
    let next = quotient value in
    let rest = intlen_from fuel (u16 (i + 1)) next in
    if is_zero next then ok (u16 (i + 1)) else rest

pub intlen : ℤ → Outcome ℕ
intlen value = intlen_from 10 (if is_negative value then 1 else 0) value

-- A write to an array.
abbrev pub store_digit : List ℕ → ℕ → ℕ → Outcome (List ℕ)
store_digit buffer i c = if ltb i (length buffer) then ok (set buffer i c) else fault

-- The loop that stores the digits, the last one first.
pub store_digits : ℕ → ℕ → ℤ → List ℕ → Outcome (List ℕ)
store_digits zero i value buffer = diverges
store_digits (suc fuel) i value buffer =
    let at = u16 (i + 2 ^ 16 - 1) in
    let next = quotient value in
    store_digit buffer at (digit_char value) >>= λ stored.
    (let rest = store_digits fuel at next stored in if is_zero next then ok stored else rest)

pub int_to_string : ℤ → List ℕ → Outcome (List ℕ)
int_to_string value buffer = intlen value >>= λ i.
    (if is_negative value then store_digit buffer 0 b'-' else ok buffer) >>= λ signed.
    store_digit signed i 0 >>= λ ended. store_digits 10 i value ended
