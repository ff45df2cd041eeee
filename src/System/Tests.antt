-- ===== src/System/Tests.antt =====
-- The terminal's special file, with scan codes typed before a `read`.
use yo_rha.Base.{ℕ, ◌≡◌, refl, arith, false, List, [], ◌∷◌, drop, replicate, take}
use yo_rha.Base.Outcome.{ok}
use yo_rha.Port.{Ports}
use yo_rha.Ring.{RingBuffer}
use yo_rha.Ring.Refine.{IsRing, contents}
use yo_rha.Keyboard.{Keyboard, keyboard_run}
use yo_rha.Keyboard.Decode.{type_keys}
use yo_rha.Fs.State.{FileSystemInode, FileDescriptorEntry}
use yo_rha.Fs.Directory.Sample.{disk}
use yo_rha.System.{System, tty_file, read}
use yo_rha.System.Tty.{IsTtyFile, read-keyboard_run}

abbrev ports : Ports (Unit {0})
ports = record {
  inb = λ d p. (0, d);
  inw = λ d p. (0, d);
  write_byte = λ d p b. d;
  write_word = λ d p w. d;
}

abbrev inode : FileSystemInode
inode = record {
  name = tty_file.filename;
  file_type = 2;
  data_block_start = 0;
  size = 0;
  parent_inode_num = 0;
}

abbrev entry : FileDescriptorEntry
entry = record { name = []; inode_num = 0; read_pos = 0; write_pos = 0; index = 0 }

abbrev ring : RingBuffer
ring = record { char_buffer = replicate 64 0; in_index = 0; out_index = 0 }

abbrev k : System (Unit {0})
k = record {
  fs = record disk { inode_table = inode ∷ []; fd_entries = entry ∷ [] };
  input = ring;
  term = record { tty_buffer = []; index = 0; base_index = 0 };
  screen = record {
    terminal_row = 0;
    terminal_column = 0;
    terminal_color = 7;
    terminal_buffer = [];
    ports = [];
  };
  device = tt;
  system_fds = 0 ∷ [];
}

k-IsTtyFile : IsTtyFile k.fs 0
k-IsTtyFile = record {
  entry = entry;
  inode = inode;
  opened = refl;
  known = refl;
  special = refl;
  named = refl;
}

ring-IsRing : IsRing ring
ring-IsRing = record { storage = refl; in_range = omega arith; out_range = omega arith }

-- The keys L and S, the release of L, and the newline.
abbrev scancodes : List ℕ
scancodes = 0x26 ∷ 0x1f ∷ 0xa6 ∷ 0x1c ∷ []

read-keyboard_run_example :
    let typed = (type_keys (false, contents ring) scancodes).1 in
    (keyboard : Keyboard) × (k' : System (Unit {0})) × (keyboard_run
        (record { shift_pressed = false; input = ring })
        scancodes
      ≡ ok keyboard)
    × (read ports (record k { input = keyboard.input }) 0 2 ≡ ok (take 2 typed, k'))
    × (contents k'.input ≡ drop 2 typed)
read-keyboard_run_example =
    read-keyboard_run ports k false scancodes 0 2 k-IsTtyFile ring-IsRing (omega arith)
