-- ===== src/Fs/Metadata.antt =====
-- The metadata blocks of src/fs.c: the superblock, the two bitmaps and the inode table, as they
-- are read when the disk is recognised and written by `shutdown`.
pub mod Bytes
pub mod RoundTrip
pub mod Sample
use yo_rha.Base.{ℕ, zero, suc, ◌+◌, ◌*◌, ◌/◌, ◌-◌, ◌^◌, List, [], ◌∷◌, ◌++◌, get_or, take, drop}
use yo_rha.Fs.State.{
  FileSystem, FileSystemSuper, FileSystemInode, block_bytes, number_at, number_bytes, write_block,
}

abbrev pub super_size : ℕ
super_size = 1

abbrev pub inode_bitmap_size : ℕ
inode_bitmap_size = 1

abbrev pub data_bitmap_size : ℕ
data_bitmap_size = 1

abbrev pub inode_table_size : ℕ
inode_table_size = 5

-- `sizeof(FileSystemInode)`, with three bytes of padding.
abbrev pub inode_size : ℕ
inode_size = 48

-- The inodes of `global_inode_table`, and the words of `global_ibmap` and `global_dbmap`.
abbrev pub inode_count : ℕ
inode_count = block_bytes * inode_table_size / inode_size

abbrev pub bitmap_words : ℕ
bitmap_words = block_bytes / 4

-- `ata_write_blocks` and `ata_read_blocks` of several blocks.
unfoldable pub write_blocks : ℕ → FileSystem → ℕ → List ℕ → FileSystem
write_blocks zero fs block bytes = fs
write_blocks (suc count) fs block bytes =
    write_blocks count (write_block fs block (take block_bytes bytes)) (block + 1)
      (drop block_bytes bytes)

pub read_blocks : ℕ → FileSystem → ℕ → List ℕ
read_blocks zero fs block = []
read_blocks (suc count) fs block = fs.disk block ++ read_blocks count fs (block + 1)

-- `FileSystemSuper` in memory: the numbers stand behind the 16 bytes of the indicator.
abbrev pub super_numbers : FileSystemSuper → List ℕ
super_numbers s =
    number_bytes s.disk_size
    ++ (number_bytes (s.disk_size / 2 ^ 32)
        ++ (number_bytes s.sector_count
            ++ (number_bytes s.block_count
                ++ (number_bytes s.i_bmap_start
                    ++ (number_bytes s.d_bmap_start
                        ++ (number_bytes s.inode_table_start
                            ++ (number_bytes s.used_inodes ++ number_bytes s.data_start)))))))

abbrev pub super_bytes : FileSystemSuper → List ℕ
super_bytes s = s.format_indicator ++ super_numbers s

-- `*(FileSystemSuper*)buffer`
pub super_at : List ℕ → FileSystemSuper
super_at b = record {
  format_indicator = take 16 b;
  disk_size = number_at b 16 + 2 ^ 32 * number_at b 20;
  sector_count = number_at b 24;
  block_count = number_at b 28;
  i_bmap_start = number_at b 32;
  d_bmap_start = number_at b 36;
  inode_table_start = number_at b 40;
  used_inodes = number_at b 44;
  data_start = number_at b 48;
}

-- An array of 32-bit words.
abbrev pub words_bytes : List ℕ → List ℕ
words_bytes [] = []
words_bytes (w ∷ ws) = number_bytes w ++ words_bytes ws

pub words_at : ℕ → List ℕ → List ℕ
words_at zero b = []
words_at (suc count) b = number_at b 0 ∷ words_at count (drop 4 b)

-- `FileSystemInode` in memory. The padding is never read.
abbrev pub inode_numbers : FileSystemInode → List ℕ
inode_numbers i =
    i.file_type
    ∷ 0
    ∷ 0
    ∷ 0
    ∷ (number_bytes i.data_block_start ++ (number_bytes i.size ++ number_bytes i.parent_inode_num))

abbrev pub inode_bytes : FileSystemInode → List ℕ
inode_bytes i = i.name ++ inode_numbers i

pub inode_at : List ℕ → FileSystemInode
inode_at b = record {
  name = take 32 b;
  file_type = get_or b 32 0;
  data_block_start = number_at b 36;
  size = number_at b 40;
  parent_inode_num = number_at b 44;
}

abbrev pub table_bytes : List FileSystemInode → List ℕ
table_bytes [] = []
table_bytes (i ∷ is) = inode_bytes i ++ table_bytes is

pub table_at : ℕ → List ℕ → List FileSystemInode
table_at zero b = []
table_at (suc count) b = inode_at b ∷ table_at count (drop inode_size b)

-- What stands in memory behind the superblock and behind the inode table: whole blocks are
-- written, and the two arrays end before their last block does.
pub record Behind : Type 0 where
  pub behind_super : List ℕ
  pub behind_table : List ℕ

-- The four calls of `ata_write_blocks` in `shutdown`.
pub write_metadata : Behind → FileSystem → FileSystem
write_metadata behind fs =
    let s = fs.super in
    let fs1 = write_blocks super_size fs 0 (super_bytes s ++ behind.behind_super) in
    let fs2 = write_blocks inode_bitmap_size fs1 s.i_bmap_start (words_bytes fs.ibmap) in
    let fs3 = write_blocks data_bitmap_size fs2 s.d_bmap_start (words_bytes fs.dbmap) in
    write_blocks inode_table_size fs3 s.inode_table_start
      (table_bytes fs.inode_table ++ behind.behind_table)

-- `global_super = *(FileSystemSuper*)buffer`, from the first sector.
unfoldable pub read_super : FileSystem → FileSystem
read_super fs = record fs { super = super_at (take 512 (fs.disk 0)) }

-- The three calls of `ata_read_blocks` in `initalize_file_system`. What the last block overwrites
-- behind the inode table is not modelled.
pub read_metadata : FileSystem → FileSystem
read_metadata fs = record fs {
  ibmap = words_at bitmap_words (read_blocks inode_bitmap_size fs fs.super.i_bmap_start);
  dbmap = words_at bitmap_words (read_blocks data_bitmap_size fs fs.super.d_bmap_start);
  inode_table = table_at inode_count (read_blocks inode_table_size fs fs.super.inode_table_start);
}
