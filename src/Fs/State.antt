-- ===== src/Fs/State.antt =====
-- The state of src/fs.c and the structs of include/fs.h. A block of the disk and the arrays in the
-- structs are lists of bytes; the numbers of a directory entry are stored little endian.
pub mod Entries
pub mod Append
use yo_rha.Base.{
  ℕ, ◌+◌, ◌*◌, ◌/◌, ◌%◌, ◌^◌, List, [], ◌∷◌, ◌++◌, ltb, ◌==◌, if◌then◌else◌, get_or, take, drop,
}
use yo_rha.Base.Outcome.{Outcome, ok, fault}
use yo_rha.Heap.{AllocArray}

abbrev pub block_bytes : ℕ
block_bytes = 8 * 512

-- As many positions as `alloc_bitrange` is told that each bitmap has: the bits of a block.
abbrev pub bitmap_capacity : ℕ
bitmap_capacity = block_bytes * 8

abbrev pub file_type_dir : ℕ
file_type_dir = 0

abbrev pub file_type_normal : ℕ
file_type_normal = 1

abbrev pub file_type_special : ℕ
file_type_special = 2

-- `sizeof(FileSystemDirEntry)`: a name of 32 bytes and an inode number.
abbrev pub dir_entry_size : ℕ
dir_entry_size = 36

-- DIR_FILE_COUNT_MAX.
abbrev pub dir_file_count_max : ℕ
dir_file_count_max = block_bytes / dir_entry_size

-- -1 as the unsigned number that the callers keep.
abbrev pub minus_one : ℕ
minus_one = 0xffff_ffff

-- `error_msg`.
pub data Message : Type 0 where
  no_message : Message
  relative_indexing : Message
  untraceable_path : Message
  not_a_directory : Message
  same_name : Message
  relative_addressing : Message
  inode_not_allocated : Message
  no_such_file : Message
  descriptor_not_allocated : Message
  transfer_timed_out : Message

pub record FileSystemSuper : Type 0 where
  pub format_indicator : List ℕ
  pub disk_size : ℕ
  pub sector_count : ℕ
  pub block_count : ℕ
  pub i_bmap_start : ℕ
  pub d_bmap_start : ℕ
  pub inode_table_start : ℕ
  pub used_inodes : ℕ
  pub data_start : ℕ

pub record FileSystemInode : Type 0 where
  pub name : List ℕ
  pub file_type : ℕ
  pub data_block_start : ℕ
  pub size : ℕ
  pub parent_inode_num : ℕ

pub record FileDescriptorEntry : Type 0 where
  pub name : List ℕ
  pub inode_num : ℕ
  pub read_pos : ℕ
  pub write_pos : ℕ
  pub index : ℕ

-- The statics of fs.c, the blocks of the disk by their number, and the kernel heap.
pub record FileSystem : Type 0 where
  pub super : FileSystemSuper
  pub ibmap : List ℕ
  pub dbmap : List ℕ
  pub inode_table : List FileSystemInode
  pub fd_bitmap : List ℕ
  pub fd_entries : List FileDescriptorEntry
  pub error_msg : Message
  pub disk : ℕ → List ℕ
  pub heap : AllocArray

-- `ata_read_blocks` and `ata_write_blocks` of one block.
abbrev pub write_block : FileSystem → ℕ → List ℕ → FileSystem
write_block fs block bytes = record fs { disk = λ b. if b == block then bytes else fs.disk b }

-- The little-endian number in four bytes.
abbrev pub number_at : List ℕ → ℕ → ℕ
number_at bytes i =
    get_or bytes i 0
    + 2 ^ 8 * get_or bytes (i + 1) 0
    + 2 ^ 16 * get_or bytes (i + 2) 0
    + 2 ^ 24 * get_or bytes (i + 3) 0

abbrev pub number_bytes : ℕ → List ℕ
number_bytes n = n % 256 ∷ n / 2 ^ 8 % 256 ∷ n / 2 ^ 16 % 256 ∷ n / 2 ^ 24 % 256 ∷ []

-- `contents[file].name` and `contents[file].inode_num` of a directory block.
pub entry_name : List ℕ → ℕ → Outcome (List ℕ)
entry_name block file =
    if ltb file dir_file_count_max then ok (take 32 (drop (file * dir_entry_size) block)) else fault

pub entry_inode : List ℕ → ℕ → Outcome ℕ
entry_inode block file =
    if ltb file dir_file_count_max then ok (number_at block (file * dir_entry_size + 32)) else fault

-- The bytes of `contents[file]`, and the block with those bytes given anew.
pub entry_bytes : List ℕ → ℕ → Outcome (List ℕ)
entry_bytes block file =
    if ltb file dir_file_count_max
    then ok (take dir_entry_size (drop (file * dir_entry_size) block))
    else fault

pub set_entry_bytes : List ℕ → ℕ → List ℕ → Outcome (List ℕ)
set_entry_bytes block file bytes =
    if ltb file dir_file_count_max
    then ok (
        take (file * dir_entry_size) block
        ++ (bytes ++ drop (file * dir_entry_size + dir_entry_size) block))
    else fault
