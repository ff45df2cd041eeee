-- ===== src/Vga/Cells.antt =====
-- The cells that the terminal writes.
use Prim.Native.Nat.{bit_or}
use yo_rha.Base.{
  ℕ, zero, suc, ◌+◌, ◌*◌, ◌/◌, ◌%◌, ◌^◌, ◌≤◌, ◌<◌, ◌≡◌, refl, ap, ◌∙◌, List, arith, ltb, leb, ◌&&◌,
  if◌then◌else◌, length, get_or, set, length-set, get_or-set_self, get_or-set_ne, ℕ_discrete,
}
use yo_rha.Base.Bits.{bit_or-fields, bit_or_comm}
use yo_rha.Vga.{Screen, vga_entry, vga_entry_color, fill_cells, terminal_clear}

-- A cell holds the character in its low byte and the colour in its high byte.
pub vga_entry_parts :
    (c color : ℕ)
    → c < 256
    → color < 256
    → (vga_entry c color % 256 ≡ c) × (vga_entry c color / 256 ≡ color)
unfolding vga_entry
vga_entry_parts c color hc hk =
    let small : c % 2 ^ 8 ≡ c = omega arith in
    let fits : color % 2 ^ 16 ≡ color = omega arith in
    let sum : bit_or c (color * 2 ^ 8) ≡ color * 2 ^ 8 + c =
      bit_or_comm c (color * 2 ^ 8) ∙ bit_or-fields 8 color c hc in
    rw (small, fits, sum) (omega arith, omega arith)

length-fill_cells :
    (left i : ℕ) (cells : List ℕ) (e : ℕ) → length (fill_cells left i cells e) ≡ length cells
unfolding fill_cells
length-fill_cells zero i cells e = refl
length-fill_cells (suc left) i cells e =
    length-fill_cells left (i + 1) (set cells i e) e ∙ length-set cells i e

get_or-fill_cells :
    (left i : ℕ) (cells : List ℕ) (e p : ℕ)
    → i + left ≤ length cells
    → get_or (fill_cells left i cells e) p 0
      ≡ (if leb i p && ltb p (i + left) then e else get_or cells p 0)
unfolding fill_cells
get_or-fill_cells zero i cells e p h = ground arith
get_or-fill_cells (suc left) i cells e p h = elim (ℕ_discrete p i) [
  | yes same ↦ ground (
    arith,
    get_or-fill_cells left (i + 1) (set cells i e) e p,
    length-set cells i e,
    get_or-set_self cells i e 0,
    ap (λ t. get_or (set cells i e) t 0) same,
  )
  | no ne ↦ ground (
    arith,
    get_or-fill_cells left (i + 1) (set cells i e) e p,
    length-set cells i e,
    get_or-set_ne cells i p e 0,
  )
]

-- A cleared terminal shows grey blanks on black in all of its cells, and starts at the top left.
pub terminal_clear_lem :
    (s : Screen)
    → length s.terminal_buffer ≡ 2000
    → ((p : ℕ) → p < 2000 → get_or (terminal_clear s).terminal_buffer p 0 ≡ 0x0720)
      × ((terminal_clear s).terminal_row ≡ 0)
      × ((terminal_clear s).terminal_column ≡ 0)
      × (length (terminal_clear s).terminal_buffer ≡ 2000)
terminal_clear_lem s h = (
  (λ p lt. unfold terminal_clear in blank p lt),
  (unfold terminal_clear in refl),
  (unfold terminal_clear in refl),
  (unfold terminal_clear in
      length-fill_cells 2000 0 s.terminal_buffer (vga_entry b' ' (vga_entry_color 7 0)) ∙ h),
)
  where
    entry : vga_entry b' ' (vga_entry_color 7 0) ≡ 0x0720
    entry = unfold vga_entry vga_entry_color in refl

    blank :
        (p : ℕ)
        → p < 2000
        → get_or (fill_cells 2000 0 s.terminal_buffer (vga_entry b' ' (vga_entry_color 7 0))) p 0
          ≡ 0x0720
    blank p lt =
        get_or-fill_cells 2000 0 s.terminal_buffer (vga_entry b' ' (vga_entry_color 7 0)) p
          (omega (arith, h))
        ∙ ground (arith, entry)
