-- ===== src/Keyboard/Refine.antt =====
-- The handler keeps the ring and types what the scan codes mean.
use Prim.Native.Nat.{bit_and}
use yo_rha.Base.{
  ℕ, ◌<◌, ◌≡◌, refl, ap, ◌∙◌, Bool, true, false, not, List, [], ◌∷◌, arith, ltb, ltb→lt, ◌||◌, ◌==◌,
  if◌then◌else◌, length, get_or, get_elem?-eq-get_or, Bool-cases, inl, inr,
}
use yo_rha.Base.Outcome.{Outcome, ok}
use yo_rha.Base.Bits.{all_below, all_below_sound}
use yo_rha.Ring.{ring_put}
use yo_rha.Ring.Refine.{IsRing, contents, ring_put-IsRing, ring_put_refines}
use yo_rha.Keyboard.{
  Keyboard, scancode_to_ascii, scancode_to_ascii_shifted, output_char, keyboard_handler,
  keyboard_run,
}
use yo_rha.Keyboard.Decode.{shift_key, type_key, type_keys}

abbrev pub state : Keyboard → Bool × List ℕ
state k = (k.shift_pressed, contents k.input)

abbrev pub AllBytes : List ℕ → Type 0
AllBytes [] = Unit {0}
AllBytes (s ∷ ss) = (s < 256) × AllBytes ss

-- `result` is a normal return in the abstract state `after`, with a valid ring.
pub record Typed (after : Bool × List ℕ) (result : Outcome Keyboard) : Type 0 where
  pub out : Keyboard
  pub returns : result ≡ ok out
  pub valid : IsRing out.input
  pub typed : state out ≡ after

same : Bool → Bool → Bool
same true b = b
same false b = not b

release_table : all_below 256 (λ s. same (bit_and s 0x80 == 0) (ltb s 128)) ≡ true
unfolding all_below same
release_table = refl

same_sound : (a b : Bool) → same a b ≡ true → a ≡ b
unfolding same
same_sound true b h = ground arith
same_sound false b h = ground arith

press_test : (s : ℕ) → s < 256 → (bit_and s 0x80 == 0) ≡ ltb s 128
press_test s h =
    same_sound (bit_and s 0x80 == 0) (ltb s 128)
      (all_below_sound 256 (λ t. same (bit_and t 0x80 == 0) (ltb t 128)) s release_table h)

-- Both tables have an entry for every code that a press can have.
table_length : (length scancode_to_ascii ≡ 128) × (length scancode_to_ascii_shifted ≡ 128)
unfolding scancode_to_ascii scancode_to_ascii_shifted
table_length = (refl, refl)

output_char-ok :
    (shift : Bool) (s : ℕ)
    → s < 128
    → output_char shift s
      ≡ ok (get_or (if shift then scancode_to_ascii_shifted else scancode_to_ascii) s 0)
unfolding output_char
output_char-ok true s h =
    rw (get_elem?-eq-get_or scancode_to_ascii_shifted s 0 (omega (arith, table_length.1)))
output_char-ok false s h =
    rw (get_elem?-eq-get_or scancode_to_ascii s 0 (omega (arith, table_length.0)))

module _ (k : Keyboard) (s : ℕ) (byte : s < 256) (v : IsRing k.input) where
  pressed_shift :
      ltb s 128 ≡ true → shift_key s ≡ true → Typed (type_key (state k) s) (keyboard_handler k s)
  pressed_shift press shift = record {
    out = record k { shift_pressed = true };
    returns = unfold keyboard_handler in rw (press_test s byte, press, shift);
    valid = v;
    typed = rw (press, shift);
  }

  pressed_char :
      ltb s 128 ≡ true → shift_key s ≡ false → Typed (type_key (state k) s) (keyboard_handler k s)
  pressed_char press plain = record {
    out = record k { input = ring_put k.input c };
    returns =
        unfold keyboard_handler in
        rw (press_test s byte, press, plain, output_char-ok k.shift_pressed s (ltb→lt s 128 press));
    valid = ring_put-IsRing k.input c v;
    typed = rw (press, plain) (ap (λ q. (k.shift_pressed, q)) (ring_put_refines k.input c v));
  }
    where
      c : ℕ
      c = get_or (if k.shift_pressed then scancode_to_ascii_shifted else scancode_to_ascii) s 0

  released : ltb s 128 ≡ false → Typed (type_key (state k) s) (keyboard_handler k s)
  released up = elim (Bool-cases (s == 0xaa || s == 0xb6)) [
    | inl shift ↦ record {
      out = record k { shift_pressed = false };
      returns = unfold keyboard_handler in rw (press_test s byte, up, shift);
      valid = v;
      typed = rw (up, shift);
    }
    | inr other ↦ record {
      out = k;
      returns = unfold keyboard_handler in rw (press_test s byte, up, other);
      valid = v;
      typed = rw (up, other);
    }
  ]

  -- On each scan code of a byte, with a ring whose indices are in its buffer, the handler
  -- returns, and does what the code means: it sets or clears the shift state, types the key's
  -- character if it has one and the ring has room, or does nothing.
  pub keyboard_handler-Typed : Typed (type_key (state k) s) (keyboard_handler k s)
  keyboard_handler-Typed = elim (Bool-cases (ltb s 128)) [
    | inr up ↦ released up
    | inl press ↦ elim (Bool-cases (shift_key s)) [
      | inl shift ↦ pressed_shift press shift
      | inr plain ↦ pressed_char press plain
    ]
  ]

keyboard_run-cons :
    (k : Keyboard) (s : ℕ) (ss : List ℕ) {k' : Keyboard}
    → keyboard_handler k s ≡ ok k'
    → keyboard_run k (s ∷ ss) ≡ keyboard_run k' ss
unfolding keyboard_run
keyboard_run-cons k s ss e = rw e

-- Any sequence of keyboard interrupts, on scan codes of a byte and a ring whose indices are in
-- its buffer, leaves the shift state and the queue of characters that typing the scan codes in
-- that order gives.
pub keyboard_run-Typed :
    (ss : List ℕ) (k : Keyboard)
    → AllBytes ss
    → IsRing k.input
    → Typed (type_keys (state k) ss) (keyboard_run k ss)
keyboard_run-Typed [] k bytes v = record {
  out = k;
  returns = unfold keyboard_run in refl;
  valid = v;
  typed = refl;
}
keyboard_run-Typed (s ∷ ss) k bytes v =
    let one = keyboard_handler-Typed k s bytes.0 v in
    let rest = keyboard_run-Typed ss one.out bytes.1 one.valid in
    record {
      out = rest.out;
      returns = keyboard_run-cons k s ss one.returns ∙ rest.returns;
      valid = rest.valid;
      typed = rest.typed ∙ ap (λ st. type_keys st ss) one.typed;
    }
