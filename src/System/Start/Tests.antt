-- ===== src/System/Start/Tests.antt =====
-- A new disk that is formatted; a shutdown of a system with a new disk and no open files, and the
-- start after it.
use yo_rha.Base.{ℕ, ◌≡◌, refl, List, [], ◌∷◌, ◌++◌, false, replicate}
use yo_rha.Base.Outcome.{Outcome, ok, panicked, fault, diverges, ◌>>=◌}
use yo_rha.Port.{Ports}
use yo_rha.Printf.{kprintf}
use yo_rha.Vga.{Screen, kputc, move_cursor, terminal_putentryat}
use yo_rha.Bitmap.{BitRange}
use yo_rha.Fs.State.{FileSystem}
use yo_rha.Fs.Metadata.Sample.{
  super_block, bitmap, table, new_disk, behind, new_disk-IsMetadata, behind-AreWholeBlocks,
}
use yo_rha.System.{System}
use yo_rha.System.Start.{
  disk_recognized, open_system_files, Surroundings, initalize_file_system, close_files, shutdown,
}
use yo_rha.System.Start.Mount.{initalize_file_system-shutdown}

abbrev ports : Ports (Unit {0})
ports = record {
  inb = λ d p. (0, d);
  inw = λ d p. (0, d);
  write_byte = λ d p b. d;
  write_word = λ d p w. d;
}

abbrev around : Surroundings
around = record { stack = []; behind = behind; low_memory = []; fuel = 1 }

abbrev screen : Screen
screen = record {
  terminal_row = 0;
  terminal_column = 0;
  terminal_color = 7;
  terminal_buffer = replicate 300 0;
  ports = [];
}

abbrev k : System (Unit {0})
k = record {
  fs = new_disk;
  input = record { char_buffer = replicate 64 0; in_index = 0; out_index = 0 };
  term = record { tty_buffer = []; index = 0; base_index = 0 };
  screen = screen;
  device = tt;
  system_fds = [];
}

or_else : {A : Type 0} → Outcome A → A → A
or_else (ok a) b = a
or_else panicked b = b
or_else fault b = b
or_else diverges b = b

k1 : System (Unit {0})
k1 = or_else (shutdown around k) k

shutdown-k : shutdown around k ≡ ok k1
unfolding k1 or_else shutdown close_files kprintf kputc move_cursor terminal_putentryat
shutdown-k = refl

junk : ℕ → List ℕ
junk p = []

initalize_file_system-shutdown_example :
    initalize_file_system junk ports around false
      (record k { fs = record k.fs { disk = k1.fs.disk } })
    ≡ (kprintf around.stack screen (disk_recognized ++ 0 ∷ []) [] >>= λ s.
        open_system_files junk ports (record k {
          fs = record k.fs {
            super = super_block;
            ibmap = bitmap;
            dbmap = bitmap;
            inode_table = table;
            disk = k1.fs.disk;
          };
          screen = s;
        }))
initalize_file_system-shutdown_example =
    initalize_file_system-shutdown junk ports around k k1 k (replicate 10 0) new_disk-IsMetadata
      behind-AreWholeBlocks refl shutdown-k

abbrev unformatted : FileSystem
unformatted = record new_disk {
  ibmap = 0 ∷ [];
  dbmap = 0 ∷ [];
  inode_table =
      record {
        name = replicate 32 1;
        file_type = 1;
        data_block_start = 9;
        size = 5;
        parent_inode_num = 9;
      }
      ∷ [];
}

abbrev with_memory : Surroundings
with_memory = record around { low_memory = replicate 4096 1 }

abbrev first_nine : BitRange × List ℕ
first_nine = (record { start = 0; length = 9 }, 4286578688 ∷ [])
