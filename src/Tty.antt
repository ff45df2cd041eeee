-- ===== src/Tty.antt =====
-- The terminal of src/tty.c and the write branch of `tty_handler` (src/file_handlers.c). The text
-- between `base_index` and `index` of the buffer is on the screen.
pub mod Slice
pub mod Render
mod Tests
use yo_rha.Base.{
  ℕ, zero, suc, ◌+◌, ◌-◌, ◌%◌, List, [], ◌∷◌, ◌==◌, ltb, leb, if◌then◌else◌, get_elem?, get_or, set,
  length, take, replicate,
}
use yo_rha.Base.Outcome.{Outcome, ok, ◌>>=◌, in_bounds}
use yo_rha.Vga.{Screen, kwrite, terminal_clear}

abbrev pub terminal_buffer_size : ℕ
terminal_buffer_size = 1024

abbrev pub terminal_height : ℕ
terminal_height = 20

pub record Terminal : Type 0 where
  pub tty_buffer : List ℕ
  pub index : ℕ
  pub base_index : ℕ

-- The elements from `start` on and before `stop`.
abbrev pub slice : List ℕ → ℕ → ℕ → List ℕ
slice [] start stop = []
slice (x ∷ xs) zero zero = []
slice (x ∷ xs) zero (suc stop) = x ∷ slice xs zero stop
slice (x ∷ xs) (suc start) zero = []
slice (x ∷ xs) (suc start) (suc stop) = slice xs start stop

-- The loop that counts the newlines and keeps where the lines behind the last ones start; `left`
-- characters are left of it.
pub scan_lines : List ℕ → ℕ → ℕ → ℕ → List ℕ → Outcome (ℕ × List ℕ)
scan_lines buffer zero i lines lines_indices = ok (lines, lines_indices)
scan_lines buffer (suc left) i lines lines_indices = in_bounds (get_elem? buffer i) >>= λ c.
    (let lines' = if c == 10 then lines + 1 else lines in
      let indices =
        if c == 10
        then set lines_indices ((lines + 1) % terminal_height) (i + 1)
        else lines_indices in
      scan_lines buffer left (i + 1) lines' indices)

-- The start of the first line is looked up with `% 10`, not with the height.
pub render_terminal : Terminal → Screen → Outcome (Terminal × Screen)
render_terminal term s =
    let cleared = terminal_clear s in
    scan_lines term.tty_buffer (term.index - term.base_index) term.base_index 0
      (replicate terminal_height 0)
    >>= λ (found : ℕ × List ℕ).
        (let first_line_starter = get_or found.1 ((found.0 + 1) % 10) 0 in
          let base = if leb terminal_height found.0 then first_line_starter else term.base_index in
          let term' : Terminal = record term { base_index = base } in
          if ltb base term.index
          then (kwrite cleared (slice term.tty_buffer base term.index) >>= λ s'. ok (term', s'))
          else (kwrite cleared (slice term.tty_buffer base terminal_buffer_size) >>= λ s'.
              kwrite s' (slice term.tty_buffer 0 term.index) >>= λ s''. ok (term', s'')))

-- The loop that puts the characters in the buffer.
pub tty_store : Terminal → List ℕ → Terminal
tty_store term [] = term
tty_store term (c ∷ cs) =
    tty_store
      (record term {
        tty_buffer = set term.tty_buffer term.index c;
        index = (term.index + 1) % terminal_buffer_size;
      })
      cs

-- `tty_handler(false, …)`: the number of characters written.
pub tty_handler_write : Terminal → Screen → List ℕ → Outcome (ℕ × Terminal × Screen)
tty_handler_write term s buf =
    render_terminal (tty_store term buf) s >>= λ (shown : Terminal × Screen).
    ok (length buf, shown.0, shown.1)
