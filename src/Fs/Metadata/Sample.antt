-- ===== src/Fs/Metadata/Sample.antt =====
-- Metadata of a new disk.
use yo_rha.Base.{
  ℕ, zero, suc, ◌≡◌, refl, arith, true, List, [], ◌∷◌, length, length-replicate, replicate,
}
use yo_rha.Fs.State.{FileSystem, FileSystemSuper, FileSystemInode, no_message}
use yo_rha.Fs.Metadata.{inode_count, bitmap_words, Behind}
use yo_rha.Fs.Metadata.Bytes.{AreWords, AreInodes}
use yo_rha.Fs.Metadata.RoundTrip.{IsMetadata, AreWholeBlocks}

abbrev pub super_block : FileSystemSuper
super_block = record {
  format_indicator =
      b'Y' ∷ b'o' ∷ b'r' ∷ b'h' ∷ b'a' ∷ 0 ∷ 0 ∷ 0 ∷ 0 ∷ 0 ∷ 0 ∷ 0 ∷ 0 ∷ 0 ∷ 0 ∷ 0 ∷ [];
  disk_size = 0x1_0000_0200;
  sector_count = 8388609;
  block_count = 64;
  i_bmap_start = 1;
  d_bmap_start = 2;
  inode_table_start = 3;
  used_inodes = 1;
  data_start = 8;
}

abbrev pub free_inode : FileSystemInode
free_inode = record {
  name = replicate 32 0;
  file_type = 0;
  data_block_start = 8;
  size = 0;
  parent_inode_num = 0;
}

-- The bitmap of one allocated element.
pub bitmap : List ℕ
bitmap = 0x8000_0000 ∷ replicate 1023 0

pub table : List FileSystemInode
table = replicate 426 free_inode

pub zero_block : List ℕ
zero_block = replicate 4096 0

abbrev pub new_disk : FileSystem
new_disk = record {
  super = super_block;
  ibmap = bitmap;
  dbmap = bitmap;
  inode_table = table;
  fd_bitmap = 0 ∷ [];
  fd_entries = [];
  error_msg = no_message;
  disk = λ b. zero_block;
  heap = record { bottom = 0; entries = []; bitmap = []; active = true };
}

pub behind : Behind
behind = record { behind_super = replicate 4044 7; behind_table = replicate 32 7 }

zeros-AreWords : (n : ℕ) → AreWords (replicate n 0)
zeros-AreWords zero = tt
zeros-AreWords (suc n) = (omega arith, zeros-AreWords n)

bitmap-AreWords : AreWords bitmap
unfolding bitmap
bitmap-AreWords = (omega arith, zeros-AreWords 1023)

length-bitmap : length bitmap ≡ bitmap_words
unfolding bitmap
length-bitmap = omega (arith, length-replicate {A = ℕ} 1023 0)

free_inodes-AreInodes : (n : ℕ) → AreInodes (replicate n free_inode)
free_inodes-AreInodes zero = tt
free_inodes-AreInodes (suc n) = (
  record {
    name_bytes = refl;
    block_word = omega arith;
    size_word = omega arith;
    parent_word = omega arith;
  },
  free_inodes-AreInodes n,
)

table-AreInodes : AreInodes table
unfolding table
table-AreInodes = free_inodes-AreInodes 426

length-table : length table ≡ inode_count
unfolding table
length-table = length-replicate {A = FileSystemInode} 426 free_inode

pub new_disk-IsMetadata : IsMetadata new_disk
new_disk-IsMetadata = record {
  super_valid = record {
    indicator_bytes = refl;
    size_word = omega arith;
    sector_word = omega arith;
    block_word = omega arith;
    i_bmap_word = omega arith;
    d_bmap_word = omega arith;
    table_word = omega arith;
    used_word = omega arith;
    data_word = omega arith;
  };
  ibmap_words = length-bitmap;
  ibmap_valid = bitmap-AreWords;
  dbmap_words = length-bitmap;
  dbmap_valid = bitmap-AreWords;
  table_length = length-table;
  table_valid = table-AreInodes;
  behind_super = omega arith;
  behind_ibmap = omega arith;
  behind_dbmap = omega arith;
}

pub behind-AreWholeBlocks : AreWholeBlocks behind
unfolding behind
behind-AreWholeBlocks = record {
  super_block = omega (arith, length-replicate {A = ℕ} 4044 7);
  table_blocks = omega (arith, length-replicate {A = ℕ} 32 7);
}
