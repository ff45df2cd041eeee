-- ===== src/Vga/Write.antt =====
-- Writing characters on the screen.
use yo_rha.Base.{
  ℕ, ◌+◌, ◌*◌, ◌%◌, ◌^◌, ◌<◌, ◌≡◌, ◌≢◌, refl, ap, ◌∙◌, List, [], ◌∷◌, arith, ◌==◌, if◌then◌else◌,
  length, get_or, set, length-set, get_or-set_self, get_or-set_ne, ℕ_discrete,
}
use yo_rha.Base.Outcome.{Outcome, ok, fault}
use yo_rha.Vga.{Screen, vga_entry, terminal_putentryat, move_cursor, next_column, kputc, kwrite}

pub record IsScreen (s : Screen) : Type 0 where
  pub cells : length s.terminal_buffer ≡ 2000
  pub row_in : s.terminal_row < 25
  pub column_in : s.terminal_column < 80

-- The cell under the cursor.
abbrev pub position : Screen → ℕ
position s = s.terminal_row * 80 + s.terminal_column

-- Neither a newline nor a backspace.
abbrev Printable : ℕ → Type 0
Printable c = (c ≢ 10) × (c ≢ 8)

-- `result` shows the character at the cursor and no other change, and the cursor has moved on by
-- one cell, from the last to the first.
pub record IsPut (s : Screen) (c : ℕ) (result : Outcome Screen) : Type 0 where
  pub out : Screen
  pub returns : result ≡ ok out
  pub valid : IsScreen out
  pub color : out.terminal_color ≡ s.terminal_color
  pub moved : position out ≡ (position s + 1) % 2000
  pub shown :
      (p : ℕ)
      → get_or out.terminal_buffer p 0
        ≡ (if p == position s then vga_entry c s.terminal_color else get_or s.terminal_buffer p 0)

module _ (s : Screen) (c : ℕ) (v : IsScreen s) (plain : Printable c) where
  abbrev written : Screen
  written = record s {
    terminal_buffer = set s.terminal_buffer (position s) (vga_entry c s.terminal_color);
  }

  put_inside :
      terminal_putentryat s c s.terminal_color s.terminal_column s.terminal_row ≡ ok written
  unfolding terminal_putentryat
  put_inside =
      let fits : (s.terminal_row * 80 + s.terminal_column) % 2 ^ 32 ≡ position s =
        omega (arith, v.row_in, v.column_in) in
      ground (arith, fits, v.cells, v.row_in, v.column_in)

  abbrev after_put : Screen
  after_put =
      move_cursor (next_column written) (next_column written).terminal_column
        (next_column written).terminal_row

  kputc_inside : kputc s c ≡ ok after_put
  unfolding kputc
  kputc_inside = ground (arith, put_inside)

  after_put_cells :
      (after_put.terminal_buffer ≡ written.terminal_buffer)
      × (after_put.terminal_color ≡ s.terminal_color)
  unfolding move_cursor
  after_put_cells = ground arith

  after_put_cursor :
      (after_put.terminal_row < 25)
      × (after_put.terminal_column < 80)
      × (position after_put ≡ (position s + 1) % 2000)
  unfolding move_cursor
  after_put_cursor = ground (arith, v.row_in, v.column_in)

  put_at :
      (p : ℕ)
      → get_or written.terminal_buffer p 0
        ≡ (if p == position s then vga_entry c s.terminal_color else get_or s.terminal_buffer p 0)
  put_at p = elim (ℕ_discrete p (position s)) [
    | yes same ↦ ground (
      arith,
      ap (λ t. get_or written.terminal_buffer t 0) same,
      get_or-set_self s.terminal_buffer (position s) (vga_entry c s.terminal_color) 0,
      v.cells,
      v.row_in,
      v.column_in,
    )
    | no ne ↦
        ground
          (arith, get_or-set_ne s.terminal_buffer (position s) p (vga_entry c s.terminal_color) 0)
  ]

  -- On a valid screen, `kputc` of a character that is neither a newline nor a backspace shows the
  -- character at the cursor and changes no other cell, and the cursor moves on by one cell, from
  -- the last cell of the screen to the first.
  pub kputc-IsPut : IsPut s c (kputc s c)
  kputc-IsPut = record {
    out = after_put;
    returns = kputc_inside;
    valid = record {
      cells =
          ap length after_put_cells.0
          ∙ length-set s.terminal_buffer (position s) (vga_entry c s.terminal_color)
          ∙ v.cells;
      row_in = after_put_cursor.0;
      column_in = after_put_cursor.1;
    };
    color = after_put_cells.1;
    moved = after_put_cursor.2;
    shown = λ p. ap (λ b. get_or b p 0) after_put_cells.0 ∙ put_at p;
  }

abbrev AllPrintable : List ℕ → Type 0
AllPrintable [] = Unit {0}
AllPrintable (c ∷ cs) = Printable c × AllPrintable cs

-- `result` is a valid screen whose cursor has moved on by `n` cells.
pub record IsWritten (s : Screen) (n : ℕ) (result : Outcome Screen) : Type 0 where
  pub out : Screen
  pub returns : result ≡ ok out
  pub valid : IsScreen out
  pub moved : position out ≡ (position s + n) % 2000

kwrite-cons :
    (s s' : Screen) (c : ℕ) (cs : List ℕ) → kputc s c ≡ ok s' → kwrite s (c ∷ cs) ≡ kwrite s' cs
unfolding kwrite
kwrite-cons s s' c cs e = rw e

-- Writing text without newlines and backspaces never leaves the screen, and moves the cursor on by
-- its length, round the screen.
pub kwrite-IsWritten :
    (cs : List ℕ) (s : Screen)
    → AllPrintable cs
    → IsScreen s
    → IsWritten s (length cs) (kwrite s cs)
kwrite-IsWritten [] s plain v = record {
  out = s;
  returns = unfold kwrite in refl;
  valid = v;
  moved = omega (arith, v.row_in, v.column_in);
}
kwrite-IsWritten (c ∷ cs) s plain v =
    let one = kputc-IsPut s c v plain.0 in
    let rest = kwrite-IsWritten cs one.out plain.1 one.valid in
    record {
      out = rest.out;
      returns = kwrite-cons s one.out c cs one.returns ∙ rest.returns;
      valid = rest.valid;
      moved = omega (arith, rest.moved, one.moved);
    }

newline :
    (s : Screen)
    → s.terminal_row ≡ 24
    → kputc s 10 ≡ ok (record s { terminal_column = 0; terminal_row = 25 })
unfolding kputc
newline s e = rw e

put_below :
    (s : Screen) (c : ℕ)
    → length s.terminal_buffer ≡ 2000
    → s.terminal_row ≡ 25
    → s.terminal_column ≡ 0
    → Printable c
    → kputc s c ≡ fault
unfolding kputc terminal_putentryat
put_below s c cells row column plain = ground arith

kwrite_fault : (s : Screen) (c : ℕ) (cs : List ℕ) → kputc s c ≡ fault → kwrite s (c ∷ cs) ≡ fault
unfolding kwrite
kwrite_fault s c cs e = rw e

-- A newline on the last row is not brought back to the first: the next character is written past
-- the last cell.
pub newline_on_last_row :
    (s : Screen) (c : ℕ)
    → IsScreen s
    → s.terminal_row ≡ 24
    → Printable c
    → kwrite s (10 ∷ c ∷ []) ≡ fault
newline_on_last_row s c v last plain =
    kwrite-cons s (record s { terminal_column = 0; terminal_row = 25 }) 10 (c ∷ []) (newline s last)
    ∙ kwrite_fault _ c [] (put_below _ c v.cells refl refl plain)

-- A backspace at the top left corner writes outside the screen.
pub backspace_at_origin :
    (s : Screen) → IsScreen s → s.terminal_row ≡ 0 → s.terminal_column ≡ 0 → kputc s 8 ≡ fault
unfolding kputc terminal_putentryat
backspace_at_origin s v row column = ground (arith, v.cells)
