-- ===== src/System/Serial.antt =====
-- The serial port's special file.
use Prim.Native.Nat.{bit_and}
use yo_rha.Base.{ℕ, ◌≡◌, ◌≢◌, refl, true, arith, List, ◌∷◌, some, ◌==◌, get_elem?}
use yo_rha.Base.Outcome.{ok}
use yo_rha.Port.{Ports}
use yo_rha.Serial.{com1}
use yo_rha.Serial.Line.{serial_handler_write_lem}
use yo_rha.Fs.State.{FileSystem, FileSystemInode, FileDescriptorEntry}
use yo_rha.System.{System, serial_file, handler_write, write}
use yo_rha.System.Tty.{with_handler-serial}

-- Descriptor `fd` is open on the serial port's special file.
pub record IsSerialFile (fs : FileSystem) (fd : ℕ) : Type 0 where
  pub entry : FileDescriptorEntry
  pub inode : FileSystemInode
  pub opened : get_elem? fs.fd_entries fd ≡ some entry
  pub known : get_elem? fs.inode_table entry.inode_num ≡ some inode
  pub special : inode.file_type ≡ 2
  pub named : inode.name ≡ serial_file.filename

-- A `write` to the serial port whose line is ready sends the first byte alone.
pub write-serial :
    {D : Type 0} (ports : Ports D) (k : System D) (fd c : ℕ) (cs : List ℕ)
    → IsSerialFile k.fs fd
    → bit_and (ports.inb k.device 0x3fd).0 0x20 ≢ 0
    → write ports k fd (c ∷ cs)
      ≡ ok (1, record k { device = ports.write_byte (ports.inb k.device 0x3fd).1 com1 c })
unfolding write handler_write
write-serial ports k fd c cs v ready =
    let test : (v.inode.file_type == 2) ≡ true = ground (arith, v.special) in
    rw
      (
        v.opened,
        v.known,
        test,
        v.named,
        with_handler-serial,
        serial_handler_write_lem ports k.device c cs ready,
      )
      (refl)
