-- ===== src/System.antt =====
-- The kernel's files as `read` and `write` (src/fs.c) reach them: the files on the disk, and the
-- special files with their table and handlers (src/file_handlers.c).
pub mod Start
pub mod Tty
pub mod Serial
mod Tests
use yo_rha.Base.{ℕ, List, [], ◌∷◌, ◌++◌, ◌==◌, if◌then◌else◌, get_elem?, length, replicate, take}
use yo_rha.Base.Int.{ℤ, pos, negsuc}
use yo_rha.Base.Outcome.{Outcome, ok, ◌>>=◌, in_bounds}
use yo_rha.Cstring.{strcmp}
use yo_rha.Port.{Ports}
use yo_rha.Ring.{RingBuffer, ring_read}
use yo_rha.Tty.{Terminal, tty_handler_write}
use yo_rha.Vga.{Screen}
use yo_rha.Serial.{init_serial, serial_handler_read, serial_handler_write}
use yo_rha.Fs.State.{FileSystem, file_type_special}
use yo_rha.Fs.File.{read_data, write_data}

-- The globals behind the files: `keyboard_input_buffer`, `term`, the screen and the devices, and the
-- descriptors in `system_files`.
pub record System (D : Type 0) : Type 0 where
  pub fs : FileSystem
  pub input : RingBuffer
  pub term : Terminal
  pub screen : Screen
  pub device : D
  pub system_fds : List ℕ

pub data Handler : Type 0 where
  tty_handler : Handler
  serial_handler : Handler

-- `SpecialFile`, but for the descriptor, which changes.
pub record SpecialFile : Type 0 where
  pub filename : List ℕ
  pub handler : Handler

-- A text in an array of `size` bytes.
abbrev pub padded : ℕ → List ℕ → List ℕ
padded size t = take size (t ++ replicate size 0)

abbrev pub tty_file : SpecialFile
tty_file = record { filename = padded 32 (b't' ∷ b't' ∷ b'y' ∷ []); handler = tty_handler }

abbrev pub serial_file : SpecialFile
serial_file = record {
  filename = padded 32 (b't' ∷ b't' ∷ b'y' ∷ b'S' ∷ []);
  handler = serial_handler;
}

abbrev pub system_files : List SpecialFile
system_files = tty_file ∷ serial_file ∷ []

-- The loop over the special files in `read` and in `write`: `absent` without a file of the name.
pub with_handler {ℓ} :
    {A : Type ℓ} → List SpecialFile → List ℕ → (Handler → Outcome A) → Outcome A → Outcome A
with_handler [] name call absent = absent
with_handler (file ∷ files) name call absent = strcmp file.filename name >>= λ difference.
    (let found = call file.handler in
      let rest = with_handler files name call absent in
      elim difference [ pos n ↦ if n == 0 then found else rest | negsuc n ↦ rest ])

module _ {D : Type 0} (ports : Ports D) where
  -- The initializers in `system_files`: `empty_initiazer` and `serial_initializer`.
  pub initialize : Handler → D → D
  initialize tty_handler d = d
  initialize serial_handler d = (init_serial ports d).1

  -- A handler called to read: the bytes that it stores.
  pub handler_read : System D → ℕ → Handler → Outcome (List ℕ × System D)
  handler_read k count tty_handler =
      ring_read k.input count >>= λ (r : List ℕ × RingBuffer). ok (r.0, record k { input = r.1 })
  handler_read k count serial_handler =
      let r = serial_handler_read ports k.device in ok (r.0, record k { device = r.2 })

  -- A handler called to write: the number of bytes that it took.
  pub handler_write : System D → List ℕ → Handler → Outcome (ℕ × System D)
  handler_write k buf tty_handler =
      tty_handler_write k.term k.screen buf >>= λ (r : ℕ × Terminal × Screen).
      ok (r.0, record k { term = r.1; screen = r.2 })
  handler_write k buf serial_handler =
      serial_handler_write ports k.device buf >>= λ (r : ℕ × D). ok (r.0, record k { device = r.1 })

  -- `read`: the bytes that are copied to the buffer; it returns their number.
  pub read : System D → ℕ → ℕ → Outcome (List ℕ × System D)
  read k fd count = in_bounds (get_elem? k.fs.fd_entries fd) >>= λ entry.
      in_bounds (get_elem? k.fs.inode_table entry.inode_num) >>= λ inode.
      (let special = with_handler system_files inode.name (handler_read k count) (ok ([], k)) in
        let plain = read_data k.fs fd count >>= λ (r : List ℕ × FileSystem).
        ok (r.0, record k { fs = r.1 }) in
        if inode.file_type == file_type_special then special else plain)

  -- `write` of the bytes in `buf`.
  pub write : System D → ℕ → List ℕ → Outcome (ℕ × System D)
  write k fd buf = in_bounds (get_elem? k.fs.fd_entries fd) >>= λ entry.
      in_bounds (get_elem? k.fs.inode_table entry.inode_num) >>= λ inode.
      (let special = with_handler system_files inode.name (handler_write k buf) (ok (0, k)) in
        let plain =
          write_data k.fs fd buf >>= λ (r : ℕ × FileSystem). ok (r.0, record k { fs = r.1 }) in
        if inode.file_type == file_type_special then special else plain)
