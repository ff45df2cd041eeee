-- ===== src/Fs/Tests.antt =====
-- A small disk: the root directory and one file of three bytes, open at its first byte.
use yo_rha.Base.{ℕ, ◌≡◌, List, [], ◌∷◌, arith, true, length, length-replicate, replicate}
use yo_rha.Fs.State.{
  FileSystem, FileSystemSuper, FileSystemInode, FileDescriptorEntry, block_bytes, no_message,
}
use yo_rha.Fs.File.{Writing, write_loop}
use yo_rha.Fs.File.Data.{write_loop-IsWrite}

blank : List ℕ
blank = replicate block_bytes 0

length-blank : length blank ≡ block_bytes
unfolding blank
length-blank = length-replicate {A = ℕ} block_bytes 0

abbrev super_block : FileSystemSuper
super_block = record {
  format_indicator = b'Y' ∷ 0 ∷ [];
  disk_size = 0;
  sector_count = 0;
  block_count = 16;
  i_bmap_start = 1;
  d_bmap_start = 2;
  inode_table_start = 3;
  used_inodes = 2;
  data_start = 8;
}

abbrev root : FileSystemInode
root = record {
  name = b'/' ∷ 0 ∷ [];
  file_type = 0;
  data_block_start = 8;
  size = 36;
  parent_inode_num = 0;
}

abbrev file : FileSystemInode
file = record {
  name = b'a' ∷ 0 ∷ [];
  file_type = 1;
  data_block_start = 9;
  size = 3;
  parent_inode_num = 0;
}

abbrev entry : FileDescriptorEntry
entry = record { name = b'a' ∷ 0 ∷ []; inode_num = 1; read_pos = 0; write_pos = 0; index = 0 }

abbrev small_disk : FileSystem
small_disk = record {
  super = super_block;
  ibmap = 0xc000_0000 ∷ [];
  dbmap = 0xffc0_0000 ∷ [];
  inode_table = root ∷ file ∷ [];
  fd_bitmap = 0x8000_0000 ∷ [];
  fd_entries = entry ∷ [];
  error_msg = no_message;
  disk = λ block. blank;
  heap = record { bottom = 0; entries = []; bitmap = []; active = true };
}

abbrev five_bytes : List ℕ
five_bytes = 1 ∷ 2 ∷ 3 ∷ 4 ∷ 5 ∷ []

abbrev at_start : Writing
at_start = record { block = blank; write_pos = 0; size = 3; bytes_written = 0 }

-- Five bytes over the three of the file make it eight long.
size_grows_by_all : (write_loop five_bytes at_start).size ≡ 8
size_grows_by_all =
    (write_loop-IsWrite five_bytes at_start length-blank (omega arith) (omega arith)).size
