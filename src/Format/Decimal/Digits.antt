-- ===== src/Format/Decimal/Digits.antt =====
-- The digits of a number that is not negative read back.
use native.Mathlib.Nat.{pow-suc}
use mathlib.Core.List.{append_assoc}
use yo_rha.Base.{
  ℕ, zero, suc, ◌+◌, ◌-◌, ◌*◌, ◌/◌, ◌%◌, ◌^◌, ◌≤◌, ◌<◌, ◌≡◌, refl, sym, ap, ◌∙◌, arith, true, false,
  List, [], ◌∷◌, ◌++◌, ◌==◌, ltb, if◌then◌else◌, length, length-append, length-set, set, drop,
  dec_lt,
}
use yo_rha.Base.Int.{pos}
use yo_rha.Base.Outcome.{ok, fault}
use yo_rha.Base.Word.{u16}
use yo_rha.Format.Decimal.{intlen_from, intlen, store_digits, int_to_string}

-- The value of decimal digits after those that gave `n`.
abbrev pub decimal_value : ℕ → List ℕ → ℕ
decimal_value n [] = n
decimal_value n (c ∷ cs) = decimal_value (n * 10 + (c - 48)) cs

-- The decimal digits of a number below 10 ^ fuel.
unfoldable pub decimal : ℕ → ℕ → List ℕ
decimal zero n = []
decimal (suc fuel) n =
    let rest = decimal fuel (n / 10) in (if n / 10 == 0 then [] else rest) ++ (48 + n % 10) ∷ []

pub decimal_short : (fuel n : ℕ) → n < 10 → decimal (suc fuel) n ≡ (48 + n) ∷ []
unfolding decimal
decimal_short fuel n lt =
    let test : (n / 10 == 0) ≡ true = ground arith in
    let digit : n % 10 ≡ n = omega arith in rw (test, digit) (refl)

pub decimal_long :
    (fuel n : ℕ) → 10 ≤ n → decimal (suc fuel) n ≡ decimal fuel (n / 10) ++ (48 + n % 10) ∷ []
unfolding decimal
decimal_long fuel n le = let test : (n / 10 == 0) ≡ false = ground arith in rw test (refl)

pub decimal_nonempty : (fuel n : ℕ) → 0 < length (decimal (suc fuel) n)
decimal_nonempty fuel n = elim (dec_lt n 10) [
  | yes lt ↦ rw (decimal_short fuel n lt) (omega arith)
  | no ge ↦
      rw (decimal_long fuel n (omega arith))
        (omega (arith, length-append (decimal fuel (n / 10)) ((48 + n % 10) ∷ [])))
]

-- With two digits or more, the fuel lasts for the others too.
pub tens : (fuel n : ℕ) → n < 10 ^ suc fuel → 10 ≤ n → (n / 10 < 10 ^ fuel) × (0 < fuel)
tens zero n lt le = absurd (omega arith)
tens (suc fuel) n lt le = (omega (arith, pow-suc 10 (suc fuel)), omega arith)

drop-set : (xs : List ℕ) (i c : ℕ) → i < length xs → drop i (set xs i c) ≡ c ∷ drop (suc i) xs
drop-set [] i c lt = absurd (omega arith)
drop-set (x ∷ xs) zero c lt = refl
drop-set (x ∷ xs) (suc i) c lt = drop-set xs i c (omega arith)

decimal_value-append :
    (n : ℕ) (xs ys : List ℕ) → decimal_value n (xs ++ ys) ≡ decimal_value (decimal_value n xs) ys
decimal_value-append n [] ys = refl
decimal_value-append n (x ∷ xs) ys = decimal_value-append (n * 10 + (x - 48)) xs ys

pub decimal_value-decimal : (fuel n : ℕ) → n < 10 ^ fuel → decimal_value 0 (decimal fuel n) ≡ n
unfolding decimal
decimal_value-decimal zero n lt = omega arith
decimal_value-decimal (suc fuel) n lt = elim (dec_lt n 10) [
  | yes small ↦ rw (decimal_short fuel n small) (omega arith)
  | no large ↦
      let rest = decimal_value-decimal fuel (n / 10) (tens fuel n lt (omega arith)).0 in
      rw
        (
          decimal_long fuel n (omega arith),
          decimal_value-append 0 (decimal fuel (n / 10)) ((48 + n % 10) ∷ []),
          rest,
        )
        (omega arith)
]

intlen_from_lem :
    (fuel i n : ℕ)
    → n < 10 ^ fuel
    → 0 < fuel
    → i + fuel < 2 ^ 16
    → intlen_from fuel i (pos n) ≡ ok (i + length (decimal fuel n))
unfolding intlen_from
intlen_from_lem zero i n lt po small = absurd (omega arith)
intlen_from_lem (suc fuel) i n lt po small = elim (dec_lt n 10) [
  | yes lt' ↦
      let test : (n / 10 == 0) ≡ true = ground arith in
      rw (decimal_short fuel n lt', test) (ap ok (omega arith))
  | no large ↦
      let test : (n / 10 == 0) ≡ false = ground arith in
      let (lt', po') = tens fuel n lt (omega arith) in
      let next : u16 (i + 1) ≡ i + 1 = omega arith in
      rw
        (
          decimal_long fuel n (omega arith),
          test,
          next,
          intlen_from_lem fuel (i + 1) (n / 10) lt' po' (omega arith),
        )
        (ap ok (omega (arith, length-append (decimal fuel (n / 10)) ((48 + n % 10) ∷ []))))
]

store_last :
    (fuel i n : ℕ) (buffer : List ℕ)
    → i < length buffer
    → suc i < 2 ^ 16
    → n < 10
    → store_digits (suc fuel) (suc i) (pos n) buffer ≡ ok (set buffer i (48 + n))
unfolding store_digits
store_last fuel i n buffer room small lt =
    let at : u16 (suc i + 2 ^ 16 - 1) ≡ i = omega arith in
    let inside : ltb i (length buffer) ≡ true = ground arith in
    let test : (n / 10 == 0) ≡ true = ground arith in
    let digit : n % 10 ≡ n = omega arith in rw (at, inside, test, digit) (refl)

store_more :
    (fuel i n : ℕ) (buffer : List ℕ)
    → i < length buffer
    → suc i < 2 ^ 16
    → 10 ≤ n
    → store_digits (suc fuel) (suc i) (pos n) buffer
      ≡ store_digits fuel i (pos (n / 10)) (set buffer i (48 + n % 10))
unfolding store_digits
store_more fuel i n buffer room small le =
    let at : u16 (suc i + 2 ^ 16 - 1) ≡ i = omega arith in
    let inside : ltb i (length buffer) ≡ true = ground arith in
    let test : (n / 10 == 0) ≡ false = ground arith in rw (at, inside, test) (refl)

-- The length of the digits is at most the fuel.
pub length-decimal : (fuel n : ℕ) → length (decimal fuel n) ≤ fuel
length-decimal zero n = unfold decimal in omega arith
length-decimal (suc fuel) n = elim (dec_lt n 10) [
  | yes lt ↦ rw (decimal_short fuel n lt) (omega arith)
  | no ge ↦ rw (decimal_long fuel n (omega arith)) (
      omega (
        arith,
        length-append (decimal fuel (n / 10)) ((48 + n % 10) ∷ []),
        length-decimal fuel (n / 10),
      ))
]

store_digits_lem :
    (fuel n : ℕ) (buffer : List ℕ)
    → n < 10 ^ fuel
    → 0 < fuel
    → fuel < 2 ^ 16
    → length (decimal fuel n) ≤ length buffer
    → store_digits fuel (length (decimal fuel n)) (pos n) buffer
      ≡ ok (decimal fuel n ++ drop (length (decimal fuel n)) buffer)
store_digits_lem zero n buffer lt po small room = absurd (omega arith)
store_digits_lem (suc fuel) n buffer lt po small room = elim (dec_lt n 10) [
  | yes lt' ↦
      (let short = decimal_short fuel n lt' in
        let room' : 0 < length buffer = omega (arith, room, ap (λ (l : List ℕ). length l) short) in
        rw (short, store_last fuel 0 n buffer room' (omega arith) lt')
          (ap ok (drop-set buffer 0 (48 + n) room')))
  | no ge ↦
      (let ds = decimal fuel (n / 10) in
        let c = 48 + n % 10 in
        let long = decimal_long fuel n (omega arith) in
        let (lt', po') = tens fuel n lt (omega arith) in
        let size : length (ds ++ c ∷ []) ≡ suc (length ds) =
          omega (arith, length-append ds (c ∷ [])) in
        let room' : length ds < length buffer =
          omega (arith, room, size, ap (λ (l : List ℕ). length l) long) in
        let stored = set buffer (length ds) c in
        let rest =
          store_digits_lem fuel (n / 10) stored lt' po' (omega arith)
            (omega (arith, length-set buffer (length ds) c)) in
        rw
          (
            long,
            size,
            store_more fuel (length ds) n buffer room' (omega (arith, length-decimal fuel (n / 10)))
                (omega arith),
            rest,
            drop-set buffer (length ds) c room',
          )
          (ap ok (sym (append_assoc ds (c ∷ []) (drop (suc (length ds)) buffer)))))
]

pub intlen-decimal : (n : ℕ) → n < 2 ^ 31 → intlen (pos n) ≡ ok (length (decimal 10 n))
unfolding intlen
intlen-decimal n lt =
    intlen_from_lem 10 0 n (omega arith) (omega arith) (omega arith) ∙ ap ok (omega arith)

pub int_to_string-decimal :
    (n : ℕ) (buffer : List ℕ)
    → n < 2 ^ 31
    → length (decimal 10 n) < length buffer
    → int_to_string (pos n) buffer
      ≡ ok (decimal 10 n ++ 0 ∷ drop (suc (length (decimal 10 n))) buffer)
unfolding int_to_string
int_to_string-decimal n buffer lt room =
    let cs = decimal 10 n in
    let inside : ltb (length cs) (length buffer) ≡ true = ground arith in
    let digits =
      store_digits_lem 10 n (set buffer (length cs) 0) (omega arith) (omega arith) (omega arith)
        (omega (arith, length-set buffer (length cs) 0)) in
    rw (intlen-decimal n lt, inside, digits, drop-set buffer (length cs) 0 room) (refl)

-- An array with no room for the zero behind the digits.
pub int_to_string-fault :
    (n : ℕ) (buffer : List ℕ)
    → n < 2 ^ 31
    → length buffer ≤ length (decimal 10 n)
    → int_to_string (pos n) buffer ≡ fault
unfolding int_to_string
int_to_string-fault n buffer lt full =
    let outside : ltb (length (decimal 10 n)) (length buffer) ≡ false = ground arith in
    rw (intlen-decimal n lt, outside) (refl)

-- `int_to_string` of a number below 2 ^ 31, to an array of more than ten bytes, returns: it
-- writes the digits and a zero behind them, and leaves the rest of the array. The number of digits is
-- what `intlen` returns, and they read back as the number.
pub int_to_string_lem :
    (n : ℕ) (buffer : List ℕ)
    → n < 2 ^ 31
    → 10 < length buffer
    → (cs : List ℕ) × (int_to_string (pos n) buffer ≡ ok (cs ++ 0 ∷ drop (suc (length cs)) buffer))
      × (intlen (pos n) ≡ ok (length cs))
      × (decimal_value 0 cs ≡ n)
int_to_string_lem n buffer lt room = (
  decimal 10 n,
  int_to_string-decimal n buffer lt (omega (arith, length-decimal 10 n)),
  intlen-decimal n lt,
  decimal_value-decimal 10 n (omega arith),
)
