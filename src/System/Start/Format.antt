-- ===== src/System/Start/Format.antt =====
-- A disk that was formatted.
use Prim.Native.Nat.{bit_or}
use yo_rha.Base.{ℕ, ◌/◌, ◌^◌, ◌<◌, ◌≡◌, false, List, ◌++◌, some, length, get_elem?, set, drop}
use yo_rha.Base.Outcome.{ok}
use yo_rha.Base.Word.{u32}
use yo_rha.Bitmap.{BitRange, alloc_bitrange}
use yo_rha.Cstring.Laws.{terminated}
use yo_rha.Fs.State.{FileSystem, FileSystemSuper, FileSystemInode, block_bytes, bitmap_capacity}
use yo_rha.Fs.Metadata.{super_bytes, words_bytes, table_bytes, write_blocks}
use yo_rha.System.Start.{yorha, root_inode, Surroundings}

module _ (around : Surroundings) (fs : FileSystem) (disk_size w : ℕ) (d : BitRange × List ℕ)
    (sized : length fs.super.format_indicator ≡ 16) (small : disk_size < 2 ^ 64)
    (first : get_elem? fs.ibmap 0 ≡ some w)
    (allocated : alloc_bitrange fs.dbmap bitmap_capacity 9 false ≡ ok d)
    (some_inode : 0 < length fs.inode_table) (low : length around.low_memory ≡ block_bytes) where
  abbrev indicator : List ℕ
  indicator = terminated yorha (drop 6 fs.super.format_indicator)

  abbrev super : FileSystemSuper
  super = record {
    format_indicator = indicator;
    disk_size = disk_size;
    sector_count = u32 (disk_size / 512);
    block_count = 64;
    i_bmap_start = 1;
    d_bmap_start = 2;
    inode_table_start = 3;
    used_inodes = 1;
    data_start = 8;
  }

  abbrev table : List FileSystemInode
  table = set fs.inode_table 0 (root_inode 8)

  abbrev f1 : FileSystem
  f1 =
      write_blocks 1 (record fs { super = super }) 0
        (super_bytes super ++ around.behind.behind_super)

  abbrev ibmap : List ℕ
  ibmap = set fs.ibmap 0 (bit_or w (2 ^ 31))

  abbrev f2 : FileSystem
  f2 = write_blocks 1 (record f1 { ibmap = ibmap; dbmap = d.1 }) 1 (words_bytes ibmap)

  abbrev f3 : FileSystem
  f3 = write_blocks 1 f2 2 (words_bytes d.1)

  abbrev f4 : FileSystem
  f4 =
      write_blocks 5 (record f3 { inode_table = table }) 3
        (table_bytes table ++ around.behind.behind_table)

  abbrev formatted : FileSystem
  formatted = write_blocks 1 f4 8 around.low_memory
