-- ===== src/Vga.antt =====
-- The text terminal of src/vga.c: the cells of the screen, the cursor and the colour. `size_t` has
-- 32 bits. A write outside the 80 by 25 cells is `fault`.
pub mod Cells
pub mod Write
mod Tests
use Prim.Native.Nat.{bit_and, bit_or}
use yo_rha.Base.{
  ℕ, zero, suc, ◌+◌, ◌-◌, ◌*◌, ◌/◌, ◌%◌, ◌^◌, Bool, true, false, List, [], ◌∷◌, ◌++◌, ltb, ◌==◌,
  if◌then◌else◌, length, get_elem?, set, replicate,
}
use yo_rha.Base.Outcome.{Outcome, ok, fault, ◌>>=◌}
use yo_rha.Base.Word.{u8, u16, u32, add32, sub32, shr}
use yo_rha.Port.{Trace, outb}

abbrev vga_width : ℕ
vga_width = 80

abbrev vga_height : ℕ
vga_height = 25

abbrev light_grey : ℕ
light_grey = 7

abbrev black : ℕ
black = 0

-- `fg | bg << 4`, in a `uint8_t`.
pub vga_entry_color : ℕ → ℕ → ℕ
vga_entry_color fg bg = u8 (bit_or fg (bg * 2 ^ 4))

-- `uc | color << 8`, in a `uint16_t`.
pub vga_entry : ℕ → ℕ → ℕ
vga_entry uc color = u16 (bit_or (u8 uc) (u16 color * 2 ^ 8))

pub record Screen : Type 0 where
  pub terminal_row : ℕ
  pub terminal_column : ℕ
  pub terminal_color : ℕ
  pub terminal_buffer : List ℕ
  pub ports : Trace

unfoldable pub move_cursor : Screen → ℕ → ℕ → Screen
move_cursor s x y =
    let pos = u16 (y * vga_width + x) in
    record s {
      ports =
          s.ports
          ++ (outb 0x3d4 0x0f
              ∷ outb 0x3d5 (u8 (bit_and pos 0xff))
              ∷ outb 0x3d4 0x0e
              ∷ outb 0x3d5 (u8 (bit_and (shr pos 8) 0xff))
              ∷ []);
    }

-- The nested loops write `entry` to every cell, in the order of the cells.
pub fill_cells : ℕ → ℕ → List ℕ → ℕ → List ℕ
fill_cells zero index buffer entry = buffer
fill_cells (suc left) index buffer entry =
    fill_cells left (index + 1) (set buffer index entry) entry

pub terminal_clear : Screen → Screen
terminal_clear s =
    let color = vga_entry_color light_grey black in
    record s {
      terminal_row = 0;
      terminal_column = 0;
      terminal_color = color;
      terminal_buffer =
          fill_cells (vga_height * vga_width) 0 s.terminal_buffer (vga_entry b' ' color);
    }

terminal_setcolor : Screen → ℕ → Screen
terminal_setcolor s color = record s { terminal_color = color }

unfoldable pub terminal_putentryat : Screen → ℕ → ℕ → ℕ → ℕ → Outcome Screen
terminal_putentryat s c color x y =
    let index = u32 (y * vga_width + x) in
    if ltb index (length s.terminal_buffer)
    then ok (record s { terminal_buffer = set s.terminal_buffer index (vga_entry c color) })
    else fault

-- The column, and the row when the column runs out.
abbrev pub next_column : Screen → Screen
next_column s =
    let column = add32 s.terminal_column 1 in
    if column == vga_width
    then (let row = add32 s.terminal_row 1 in
        record s { terminal_column = 0; terminal_row = if row == vga_height then 0 else row })
    else record s { terminal_column = column }

unfoldable pub kputc : Screen → ℕ → Outcome Screen
kputc s c =
    if c == 10
    then ok (record s { terminal_column = 0; terminal_row = add32 s.terminal_row 1 })
    else (if c == 8
        then (let column = sub32 s.terminal_column 1 in
            terminal_putentryat (record s { terminal_column = column }) b' ' s.terminal_color column
              s.terminal_row
            >>= λ s'. ok (move_cursor s' s'.terminal_column s'.terminal_row))
        else (terminal_putentryat s c s.terminal_color s.terminal_column s.terminal_row >>= λ s'.
            ok (
              move_cursor (next_column s') (next_column s').terminal_column
                (next_column s').terminal_row)))

-- `kwrite` over the bytes of its buffer.
unfoldable pub kwrite : Screen → List ℕ → Outcome Screen
kwrite s [] = ok s
kwrite s (c ∷ cs) = kputc s c >>= λ s'. kwrite s' cs

-- `kprint` stops at the first zero byte; a text with none is read past its end.
unfoldable pub kprint : Screen → List ℕ → Outcome Screen
kprint s [] = fault
kprint s (c ∷ cs) = let rest = kputc s c >>= λ s'. kprint s' cs in if c == 0 then ok s else rest
