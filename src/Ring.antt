-- ===== src/Ring.antt =====
-- The `RingBuffer` of include/file_handlers.h: the insertion that `keyboard_handler` and
-- `serial_interrupt_handler` (src/io.c) share, and the read loop of `tty_handler`
-- (src/file_handlers.c). The indices are `size_t`.
pub mod Queue
pub mod Refine
pub mod Read
use yo_rha.Base.{ℕ, zero, suc, ◌+◌, ◌%◌, List, [], ◌∷◌, ◌==◌, if◌then◌else◌, set, get_elem?}
use yo_rha.Base.Outcome.{Outcome, ok, ◌>>=◌, in_bounds}
use yo_rha.Base.Word.{u32}

abbrev ring_buffer_capacity : ℕ
ring_buffer_capacity = 64

-- The descriptor `tty_fd` of the struct is never used.
pub record RingBuffer : Type 0 where
  pub char_buffer : List ℕ
  pub in_index : ℕ
  pub out_index : ℕ

-- A zero byte is no character, and a full ring drops the character.
pub ring_put : RingBuffer → ℕ → RingBuffer
ring_put r output_char =
    if output_char == 0
    then r
    else (let next_index = u32 ((r.in_index + 1) % ring_buffer_capacity) in
        if next_index == r.out_index then r else record r {
          char_buffer = set r.char_buffer r.in_index output_char;
          in_index = next_index;
        })

-- The bytes that the loop stores in `small_buf`, in order; `left` rounds are left of it.
unfoldable pub ring_read : RingBuffer → ℕ → Outcome (List ℕ × RingBuffer)
ring_read r zero = ok ([], r)
ring_read r (suc left) =
    let rest = in_bounds (get_elem? r.char_buffer r.out_index) >>= λ c.
    ring_read (record r { out_index = (r.out_index + 1) % ring_buffer_capacity }) left >>= λ res.
    ok (c ∷ res.0, res.1) in
    if r.out_index == r.in_index then ok ([], r) else rest
