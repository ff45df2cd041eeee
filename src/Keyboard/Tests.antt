-- ===== src/Keyboard/Tests.antt =====
-- The ring and the keyboard at concrete inputs.
use yo_rha.Base.{ℕ, ◌≡◌, refl, false, List, [], ◌∷◌, arith, replicate}
use yo_rha.Base.Outcome.{ok}
use yo_rha.Ring.{RingBuffer, ring_put, ring_read}
use yo_rha.Ring.Refine.{IsRing, contents, ring_put_refines}
use yo_rha.Keyboard.{Keyboard, keyboard_run, scancode_to_ascii, scancode_to_ascii_shifted}
use yo_rha.Keyboard.Decode.{type_keys}
use yo_rha.Keyboard.Refine.{Typed, keyboard_run-Typed}

abbrev empty_ring : RingBuffer
empty_ring = record { char_buffer = replicate 64 0; in_index = 0; out_index = 0 }

-- One character, in the last place of the buffer.
abbrev last_place : RingBuffer
last_place = record { char_buffer = replicate 64 97; in_index = 0; out_index = 63 }

abbrev keyboard : Keyboard
keyboard = record { shift_pressed = false; input = empty_ring }

-- Shift, a, release of a, release of shift, a.
abbrev shift_a_then_a : List ℕ
shift_a_then_a = 0x2a ∷ 0x1e ∷ 0x9e ∷ 0xaa ∷ 0x1e ∷ []

ring_read_wraps : ring_read last_place 2 ≡ ok (97 ∷ [], record last_place { out_index = 0 })
unfolding ring_read
ring_read_wraps = refl

type_shift_a_then_a : type_keys (false, []) shift_a_then_a ≡ (false, b'A' ∷ b'a' ∷ [])
unfolding scancode_to_ascii scancode_to_ascii_shifted
type_shift_a_then_a = refl

empty_ring-IsRing : IsRing empty_ring
empty_ring-IsRing = omega arith

last_place-IsRing : IsRing last_place
last_place-IsRing = omega arith

ring_put_refines_example : contents (ring_put last_place 98) ≡ 97 ∷ 98 ∷ []
ring_put_refines_example = ring_put_refines last_place 98 last_place-IsRing

keyboard_run-Typed_example :
    Typed (type_keys (false, []) shift_a_then_a) (keyboard_run keyboard shift_a_then_a)
keyboard_run-Typed_example =
    keyboard_run-Typed shift_a_then_a keyboard (omega arith) empty_ring-IsRing
