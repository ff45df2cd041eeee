-- ===== src/Keyboard.antt =====
-- The keyboard of src/io.c: the scan code tables and `keyboard_handler`, which keeps the shift state
-- and fills `keyboard_input_buffer`. The characters stand as ASCII codes.
pub mod Decode
pub mod Refine
mod Tests
use Prim.Native.Nat.{bit_and}
use yo_rha.Base.{
  ℕ, zero, suc, ◌+◌, Bool, true, false, not, ◌||◌, List, [], ◌∷◌, ◌++◌, ◌==◌, if◌then◌else◌,
  get_elem?, replicate,
}
use yo_rha.Base.Outcome.{Outcome, ok, ◌>>=◌, in_bounds}
use yo_rha.Ring.{RingBuffer, ring_put}

-- The array has 128 entries; those with no initializer are zero.
pub scancode_to_ascii : List ℕ
scancode_to_ascii =
    0
    ∷ 0
    ∷ 49
    ∷ 50
    ∷ 51
    ∷ 52
    ∷ 53
    ∷ 54
    ∷ 55
    ∷ 56
    ∷ 57
    ∷ 48
    ∷ 45
    ∷ 61
    ∷ 8
    ∷ 9
    ∷ 113
    ∷ 119
    ∷ 101
    ∷ 114
    ∷ 116
    ∷ 121
    ∷ 117
    ∷ 105
    ∷ 111
    ∷ 112
    ∷ 91
    ∷ 93
    ∷ 10
    ∷ 0
    ∷ 97
    ∷ 115
    ∷ 100
    ∷ 102
    ∷ 103
    ∷ 104
    ∷ 106
    ∷ 107
    ∷ 108
    ∷ 59
    ∷ 39
    ∷ 96
    ∷ 0
    ∷ 92
    ∷ 122
    ∷ 120
    ∷ 99
    ∷ 118
    ∷ 98
    ∷ 110
    ∷ 109
    ∷ 44
    ∷ 46
    ∷ 47
    ∷ 0
    ∷ 42
    ∷ 0
    ∷ 32
    ∷ 0
    ∷ replicate 69 0

pub scancode_to_ascii_shifted : List ℕ
scancode_to_ascii_shifted =
    0
    ∷ 0
    ∷ 33
    ∷ 64
    ∷ 35
    ∷ 36
    ∷ 37
    ∷ 94
    ∷ 38
    ∷ 42
    ∷ 40
    ∷ 41
    ∷ 95
    ∷ 43
    ∷ 8
    ∷ 9
    ∷ 81
    ∷ 87
    ∷ 69
    ∷ 82
    ∷ 84
    ∷ 89
    ∷ 85
    ∷ 73
    ∷ 79
    ∷ 80
    ∷ 123
    ∷ 125
    ∷ 10
    ∷ 0
    ∷ 65
    ∷ 83
    ∷ 68
    ∷ 70
    ∷ 71
    ∷ 72
    ∷ 74
    ∷ 75
    ∷ 76
    ∷ 58
    ∷ 34
    ∷ 126
    ∷ 0
    ∷ 124
    ∷ 90
    ∷ 88
    ∷ 67
    ∷ 86
    ∷ 66
    ∷ 78
    ∷ 77
    ∷ 60
    ∷ 62
    ∷ 63
    ∷ 0
    ∷ 42
    ∷ 0
    ∷ 32
    ∷ 0
    ∷ replicate 69 0

-- `shift_pressed` is the handler's static variable.
pub record Keyboard : Type 0 where
  pub shift_pressed : Bool
  pub input : RingBuffer

-- The character of a key that is pressed, zero if it has none.
pub output_char : Bool → ℕ → Outcome ℕ
output_char shift_pressed scancode =
    in_bounds
      (get_elem? (if shift_pressed then scancode_to_ascii_shifted else scancode_to_ascii) scancode)

-- `scancode` is the byte that the data port returned.
pub keyboard_handler : Keyboard → ℕ → Outcome Keyboard
keyboard_handler k scancode =
    if not (bit_and scancode 0x80 == 0)
    then (if scancode == 0xaa || scancode == 0xb6
        then ok (record k { shift_pressed = false })
        else ok k)
    else (if scancode == 0x2a || scancode == 0x36
        then ok (record k { shift_pressed = true })
        else (output_char k.shift_pressed scancode >>= λ c.
            ok (record k { input = ring_put k.input c })))

-- The interrupts of a sequence of scan codes, in order.
pub keyboard_run : Keyboard → List ℕ → Outcome Keyboard
keyboard_run k [] = ok k
keyboard_run k (s ∷ ss) = keyboard_handler k s >>= λ k'. keyboard_run k' ss

-- `serial_interrupt_handler`, with the byte that `read_serial` returned.
serial_interrupt_handler : RingBuffer → ℕ → RingBuffer
serial_interrupt_handler serial_port_buffer output_char = ring_put serial_port_buffer output_char
