-- ===== src/Tty/Tests.antt =====
-- A terminal with two characters.
use yo_rha.Base.{ℕ, List, [], ◌∷◌, replicate}
use yo_rha.Vga.{Screen}
use yo_rha.Tty.{Terminal}

spaces : List ℕ
spaces = replicate 1021 b' '

abbrev terminal : Terminal
terminal = record { tty_buffer = b'a' ∷ 10 ∷ b' ' ∷ spaces; index = 2; base_index = 0 }

abbrev screen : Screen
screen = record {
  terminal_row = 3;
  terminal_column = 4;
  terminal_color = 7;
  terminal_buffer = replicate 2000 0;
  ports = [];
}
