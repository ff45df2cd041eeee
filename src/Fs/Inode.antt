-- ===== src/Fs/Inode.antt =====
-- `allocate_inode` and `allocate_file_descriptor` of src/fs.c.
use yo_rha.Base.{ℕ, List, Bool, true, false, ltb, ◌==◌, if◌then◌else◌, length, set, replicate}
use yo_rha.Base.Outcome.{Outcome, ok, panicked, fault, ◌>>=◌}
use yo_rha.Base.Word.{add32}
use yo_rha.Bitmap.{BitRange, alloc_bitrange}
use yo_rha.Cstring.{strcpy}
use yo_rha.Fs.State.{FileSystem, bitmap_capacity, minus_one, same_name}
use yo_rha.Fs.Path.{ParsedPath, push_error, seek_directory}
use yo_rha.Fs.Directory.{search_dir}

-- A write to an element of an array.
abbrev pub store_elem : {A : Type 0} → List A → ℕ → A → Outcome (List A)
store_elem xs i x = if ltb i (length xs) then ok (set xs i x) else fault

pub record DirInodePair : Type 0 where
  pub valid : Bool
  pub file_inode_num : ℕ
  pub dir_inode_num : ℕ

-- The numbers of a pair that is not valid are not initialised in C and not read.
abbrev no_pair : DirInodePair
no_pair = record { valid = false; file_inode_num = 0; dir_inode_num = 0 }

-- The data block of a new file: 0 without one. Running out of blocks is a panic.
allocate_data : FileSystem → Bool → Outcome (ℕ × FileSystem)
allocate_data fs false = ok (0, fs)
allocate_data fs true =
    alloc_bitrange fs.dbmap bitmap_capacity 1 false >>= λ (db : BitRange × List ℕ).
    if db.0.length == 0 then panicked else ok (db.0.start, record fs { dbmap = db.1 })

-- The part behind the checks: the inode and the block are taken and the table is written.
take_inode : FileSystem → ParsedPath → ℕ → ℕ → Bool → Outcome (DirInodePair × FileSystem)
take_inode fs path dir_inode_num file_type alloc_data =
    strcpy (replicate 32 0) path.filename >>= λ name.
    alloc_bitrange fs.ibmap bitmap_capacity 1 false >>= λ (ib : BitRange × List ℕ).
    (let allocated =
        allocate_data (record fs { ibmap = ib.1 }) alloc_data >>= λ (block : ℕ × FileSystem).
        store_elem block.1.inode_table ib.0.start (record {
          name = name;
          file_type = file_type;
          data_block_start = block.0;
          size = 0;
          parent_inode_num = dir_inode_num;
        })
        >>= λ table. ok (
          record { valid = true; file_inode_num = ib.0.start; dir_inode_num = dir_inode_num },
          record block.1 {
            inode_table = table;
            super = record block.1.super { used_inodes = add32 block.1.super.used_inodes 1 };
          },
        ) in
      if ib.0.length == 0 then panicked else allocated)

pub allocate_inode : FileSystem → ParsedPath → ℕ → Bool → Outcome (DirInodePair × FileSystem)
allocate_inode fs path file_type alloc_data =
    seek_directory fs path.dir_path >>= λ (dir : ℕ × FileSystem).
    (let within = search_dir dir.1 dir.0 path.filename >>= λ (found : ℕ × FileSystem).
    (let taken = take_inode found.1 path dir.0 file_type alloc_data in
      if found.0 == minus_one then taken else ok (no_pair, push_error found.1 same_name)) in
      if dir.0 == minus_one then ok (no_pair, dir.1) else within)

pub allocate_file_descriptor : FileSystem → ℕ → List ℕ → Outcome (ℕ × FileSystem)
allocate_file_descriptor fs file_inode_num filename =
    alloc_bitrange fs.fd_bitmap bitmap_capacity 1 false >>= λ (fd : BitRange × List ℕ).
    (let opened = strcpy (replicate 32 0) filename >>= λ name.
    store_elem fs.fd_entries fd.0.start (record {
      name = name;
      inode_num = file_inode_num;
      read_pos = 0;
      write_pos = 0;
      index = fd.0.start;
    })
    >>= λ entries. ok (fd.0.start, record fs { fd_bitmap = fd.1; fd_entries = entries }) in
      if fd.0.length == 0 then ok (minus_one, record fs { fd_bitmap = fd.1 }) else opened)
