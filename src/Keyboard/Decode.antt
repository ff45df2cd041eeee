-- ===== src/Keyboard/Decode.antt =====
-- What a scan code means to a keyboard, independent of the handler's control flow.
use yo_rha.Base.{ℕ, Bool, true, false, List, [], ◌∷◌, ltb, ◌==◌, ◌||◌, if◌then◌else◌, get_or}
use yo_rha.Keyboard.{scancode_to_ascii, scancode_to_ascii_shifted}
use yo_rha.Ring.Queue.{Queue, push}

-- The two shift keys.
abbrev pub shift_key : ℕ → Bool
shift_key code = code == 0x2a || code == 0x36

-- Codes from 128 on are releases of the key 128 below. A press types its character.
abbrev pub type_key : Bool × Queue → ℕ → Bool × Queue
type_key (shift, q) s =
    if ltb s 128
    then (if shift_key s then (true, q) else (
      shift,
      push q (get_or (if shift then scancode_to_ascii_shifted else scancode_to_ascii) s 0),
    ))
    else (if s == 0xaa || s == 0xb6 then (false, q) else (shift, q))

abbrev pub type_keys : Bool × Queue → List ℕ → Bool × Queue
type_keys st [] = st
type_keys st (s ∷ ss) = type_keys (type_key st s) ss
