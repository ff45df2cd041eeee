-- ===== src/Vga/Tests.antt =====
-- The screen at concrete inputs.
use yo_rha.Base.{ℕ, ◌≡◌, ◌<◌, List, [], arith, replicate, length, length-replicate}
use yo_rha.Vga.{Screen, kputc}
use yo_rha.Vga.Write.{IsScreen, IsPut, kputc-IsPut}

blank_cells : List ℕ
blank_cells = replicate 2000 0

length-blank_cells : length blank_cells ≡ 2000
unfolding blank_cells
length-blank_cells = length-replicate {A = ℕ} 2000 0

abbrev at : ℕ → ℕ → Screen
at row column = record {
  terminal_row = row;
  terminal_column = column;
  terminal_color = 7;
  terminal_buffer = blank_cells;
  ports = [];
}

at-IsScreen : (row column : ℕ) → row < 25 → column < 80 → IsScreen (at row column)
at-IsScreen row column h k = record { cells = length-blank_cells; row_in = h; column_in = k }

kputc-IsPut_example : IsPut (at 24 79) 65 (kputc (at 24 79) 65)
kputc-IsPut_example =
    kputc-IsPut (at 24 79) 65 (at-IsScreen 24 79 (omega arith) (omega arith)) (omega arith)
