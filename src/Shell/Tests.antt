-- ===== src/Shell/Tests.antt =====
-- A shell whose terminal is the serial port.
use Prim.Native.Nat.{bit_and}
use yo_rha.Base.{ℕ, ◌≡◌, ◌≢◌, refl, arith, List, [], ◌∷◌, some, get_elem?, replicate}
use yo_rha.Base.Outcome.{Outcome, ok}
use yo_rha.Heap.Sample.{first_block, heap-IsHeap}
use yo_rha.Port.{Ports}
use yo_rha.Strings.Growing.{Growing, empty}
use yo_rha.Strings.Split.{Text}
use yo_rha.Fs.State.{FileSystemInode, FileDescriptorEntry, Message}
use yo_rha.Fs.Directory.Sample.{disk}
use yo_rha.System.{System, serial_file}
use yo_rha.System.Serial.{IsSerialFile, write-serial}
use yo_rha.Shell.Loop.{Shell}
use yo_rha.Shell.Edit.{IsWriting, IsEditing}

-- A serial line that is always ready.
abbrev ports : Ports (Unit {0})
ports = record {
  inb = λ d p. (0x20, d);
  inw = λ d p. (0, d);
  write_byte = λ d p b. d;
  write_word = λ d p w. d;
}

abbrev inode : FileSystemInode
inode = record {
  name = serial_file.filename;
  file_type = 2;
  data_block_start = 0;
  size = 0;
  parent_inode_num = 0;
}

abbrev entry : FileDescriptorEntry
entry = record { name = []; inode_num = 0; read_pos = 0; write_pos = 0; index = 0 }

abbrev k : System (Unit {0})
k = record {
  fs = record disk { inode_table = inode ∷ []; fd_entries = entry ∷ [] };
  input = record { char_buffer = replicate 64 0; in_index = 0; out_index = 0 };
  term = record { tty_buffer = []; index = 0; base_index = 0 };
  screen = record {
    terminal_row = 0;
    terminal_column = 0;
    terminal_color = 7;
    terminal_buffer = [];
    ports = [];
  };
  device = tt;
  system_fds = [];
}

-- The descriptor of the terminal is open on the serial port.
abbrev P : System (Unit {0}) → Type 0
P k = (get_elem? k.fs.fd_entries 0 ≡ some entry) × (get_elem? k.fs.inode_table 0 ≡ some inode)

P-IsSerialFile : (k : System (Unit {0})) → P k → IsSerialFile k.fs 0
P-IsSerialFile k h = record {
  entry = entry;
  inode = inode;
  opened = h.0;
  known = h.1;
  special = refl;
  named = refl;
}

ready : bit_and 0x20 0x20 ≢ 0
ready = λ e. omega (arith, e)

P-IsWriting : IsWriting ports P
P-IsWriting = record {
  next = λ k c. (1, k);
  returns = λ k c h. write-serial ports k 0 c [] (P-IsSerialFile k h) ready;
  keeps = λ k c h. h;
  same_heap = λ k c h. refl;
  allocated = λ k heap h. h;
}

-- `ls` in the block of the heap.
abbrev shell : Shell (Unit {0})
shell = record {
  sys = k;
  curr_command = record { len = 2; capacity = 8; block = 0x40_0000; contents = b'l' ∷ b's' ∷ [] };
  working_dir = empty;
}

shell-IsEditing : IsEditing ports P shell (b'l' ∷ b's' ∷ [])
shell-IsEditing = record {
  writing = (refl, refl);
  heap = heap-IsHeap;
  held = some 0;
  line = record {
    entry = first_block;
    live = (refl, refl);
    based = refl;
    sized = refl;
    nonempty = omega arith;
    counted = refl;
    fits = omega arith;
    stored = omega arith;
    elements = refl;
  };
  counted = refl;
}

junk : ℕ → List ℕ
junk p = []

no_message_text : Message → List ℕ
no_message_text m = 0 ∷ []

timer : Unit {0} → ℕ × Unit {0}
timer d = (0, d)

-- A program that returns at once.
run : Growing Text → System (Unit {0}) → Outcome (ℕ × System (Unit {0}))
run cmd k = ok (0, k)
