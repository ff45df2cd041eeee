-- ===== src/Tty/Render.antt =====
-- What a write to the terminal shows.
use mathlib.Core.List.{append_assoc, append-nil}
use yo_rha.Base.{
  ℕ, suc, ◌+◌, ◌%◌, ◌≤◌, ◌<◌, ◌≡◌, refl, sym, ap, ◌∙◌, arith, List, [], ◌∷◌, ◌++◌, ◌==◌,
  if◌then◌else◌, set, length, length-set,
}
use yo_rha.Tty.{Terminal, terminal_buffer_size, slice, tty_store}
use yo_rha.Tty.Slice.{slice-set}

abbrev pub newlines : List ℕ → ℕ
newlines [] = 0
newlines (c ∷ cs) = (if c == 10 then 1 else 0) + newlines cs

-- The characters stand behind the old ones in the buffer.
pub record IsStored (term : Terminal) (cs : List ℕ) (out : Terminal) : Type 0 where
  pub text :
      slice out.tty_buffer term.base_index out.index
      ≡ slice term.tty_buffer term.base_index term.index ++ cs
  pub index : out.index ≡ term.index + length cs
  pub base_index : out.base_index ≡ term.base_index
  pub size : length out.tty_buffer ≡ terminal_buffer_size

pub tty_store-IsStored :
    (term : Terminal) (cs : List ℕ)
    → length term.tty_buffer ≡ terminal_buffer_size
    → term.base_index ≤ term.index
    → term.index + length cs < terminal_buffer_size
    → IsStored term cs (tty_store term cs)
unfolding tty_store
tty_store-IsStored term [] size le room = record {
  text = sym (append-nil _);
  index = omega arith;
  base_index = refl;
  size = size;
}
tty_store-IsStored term (c ∷ cs) size le room =
    let next : (term.index + 1) % terminal_buffer_size ≡ suc term.index = omega arith in
    let stored : Terminal = record term {
      tty_buffer = set term.tty_buffer term.index c;
      index = suc term.index;
    } in
    let rest =
      tty_store-IsStored stored cs (length-set term.tty_buffer term.index c ∙ size) (omega arith)
        (omega arith) in
    let first = slice-set term.tty_buffer term.base_index term.index c le (omega (arith, size)) in
    rw next (record {
      text =
          rest.text
          ∙ ap (λ (l : List ℕ). l ++ cs) first
          ∙ append_assoc (slice term.tty_buffer term.base_index term.index) (c ∷ []) cs;
      index = omega (arith, rest.index);
      base_index = rest.base_index;
      size = rest.size;
    })
