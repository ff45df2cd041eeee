-- ===== src/System/Start.antt =====
-- `create_system_files` and `open_system_files` (src/file_handlers.c), `initalize_file_system` and
-- `shutdown` (src/fs.c).
pub mod Mount
pub mod Format
mod Tests
use Prim.Native.Nat.{bit_or}
use yo_rha.Base.{
  ℕ, zero, suc, ◌+◌, ◌*◌, ◌-◌, ◌/◌, ◌^◌, List, [], ◌∷◌, ◌++◌, Bool, true, false, not, ◌&&◌, ◌==◌,
  if◌then◌else◌, get_elem?, get_or, set, take, drop, replicate,
}
use yo_rha.Base.Int.{ℤ, pos, negsuc}
use yo_rha.Base.Outcome.{Outcome, ok, panicked, ◌>>=◌, ◌>>◌, assert, in_bounds}
use yo_rha.Base.Word.{u32}
use yo_rha.Ata.{ata_get_disk_size}
use yo_rha.Bitmap.{BitRange, alloc_bitrange}
use yo_rha.Cstring.{strcmp, strcpy, strcat}
use yo_rha.Fs.State.{
  FileSystem, FileSystemSuper, FileSystemInode, block_bytes, bitmap_capacity, file_type_special,
  minus_one,
}
use yo_rha.Fs.Create.{create_filetype, mkdir, open_file, close}
use yo_rha.Fs.Inode.{store_elem}
use yo_rha.Fs.Metadata.{
  super_size, inode_bitmap_size, data_bitmap_size, inode_table_size, super_bytes, words_bytes,
  table_bytes, Behind, write_blocks, write_metadata, read_super, read_metadata,
}
use yo_rha.Port.{Ports}
use yo_rha.Printf.{kprintf}
use yo_rha.System.{System, SpecialFile, padded, tty_file, system_files, initialize}

abbrev pub dev : List ℕ
dev = b'/' ∷ b'd' ∷ b'e' ∷ b'v' ∷ []

abbrev pub yorha : List ℕ
yorha = b'Y' ∷ b'o' ∷ b'r' ∷ b'h' ∷ b'a' ∷ []

abbrev pub disk_recognized : List ℕ
disk_recognized =
    b'D' ∷ b'i' ∷ b's' ∷ b'k' ∷ b' ' ∷ b'R' ∷ b'e' ∷ b'c' ∷ b'o' ∷ b'g' ∷ b'n' ∷ b'i' ∷ b'z' ∷ b'e'
    ∷ b'd' ∷ 10 ∷ []

abbrev pub formatting_disk : List ℕ
formatting_disk =
    b'F' ∷ b'o' ∷ b'r' ∷ b'm' ∷ b'a' ∷ b't' ∷ b't' ∷ b'i' ∷ b'n' ∷ b'g' ∷ b' ' ∷ b'D' ∷ b'i' ∷ b's'
    ∷ b'k' ∷ b'.' ∷ b'.' ∷ b'.' ∷ 10 ∷ []

abbrev pub shutting_down : List ℕ
shutting_down =
    b'S' ∷ b'h' ∷ b'u' ∷ b't' ∷ b't' ∷ b'i' ∷ b'n' ∷ b'g' ∷ b' ' ∷ b'D' ∷ b'o' ∷ b'w' ∷ b'n' ∷ b'.'
    ∷ b'.' ∷ b'.' ∷ 10 ∷ []

abbrev pub clearing : List ℕ
clearing =
    b'C' ∷ b'l' ∷ b'e' ∷ b'a' ∷ b'r' ∷ b'i' ∷ b'n' ∷ b'g' ∷ b' ' ∷ b'F' ∷ b'i' ∷ b'l' ∷ b'e' ∷ b' '
    ∷ b'D' ∷ b'e' ∷ b's' ∷ b'c' ∷ b'r' ∷ b'i' ∷ b'p' ∷ b't' ∷ b'o' ∷ b'r' ∷ b's' ∷ b'.' ∷ b'.'
    ∷ b'.' ∷ 10 ∷ []

abbrev pub syncing : List ℕ
syncing =
    b'S' ∷ b'y' ∷ b'n' ∷ b'c' ∷ b'i' ∷ b'n' ∷ b'g' ∷ b' ' ∷ b'D' ∷ b'i' ∷ b's' ∷ b'k' ∷ b' ' ∷ b'M'
    ∷ b'e' ∷ b't' ∷ b'a' ∷ b'd' ∷ b'a' ∷ b't' ∷ b'a' ∷ b'.' ∷ b'.' ∷ b'.' ∷ 10 ∷ []

-- DATA_REGION_START: the blocks of the metadata.
abbrev pub data_region_start : ℕ
data_region_start = super_size + inode_bitmap_size + data_bitmap_size + inode_table_size

-- The root directory, which is empty.
abbrev pub root_inode : ℕ → FileSystemInode
root_inode data_start = record {
  name = replicate 32 0;
  file_type = 0;
  data_block_start = data_start;
  size = 0;
  parent_inode_num = 0;
}

-- `char whole_name[48] = "/dev/"` and `strcat` of the file's name behind it.
pub whole_name : SpecialFile → Outcome (List ℕ)
whole_name file =
    let start = padded 48 (b'/' ∷ b'd' ∷ b'e' ∷ b'v' ∷ b'/' ∷ []) in
    strcat file.filename (drop 5 start) >>= λ (r : ℕ × List ℕ). ok (take 5 start ++ r.1)

-- What a start needs besides the state: the contents of the stack for `kprintf`, the bytes behind
-- the arrays that are written in whole blocks, the block of memory at address 0, which is
-- written as the empty directory, and the fuel to wait for the disk.
pub record Surroundings : Type 0 where
  pub stack : List ℕ
  pub behind : Behind
  pub low_memory : List ℕ
  pub fuel : ℕ

-- The superblock of a new disk.
pub format_super : FileSystemSuper → ℕ → Outcome FileSystemSuper
format_super super disk_size = strcpy super.format_indicator (yorha ++ 0 ∷ []) >>= λ indicator.
    ok (record super {
      format_indicator = indicator;
      disk_size = disk_size;
      sector_count = u32 (disk_size / 512);
      block_count = 64;
      i_bmap_start = super_size;
      d_bmap_start = super_size + inode_bitmap_size;
      inode_table_start = super_size + inode_bitmap_size + data_bitmap_size;
      data_start = data_region_start;
      used_inodes = 1;
    })

-- The part of `initalize_file_system` that formats the disk, behind its message and up to the
-- system files.
pub format_disk : Surroundings → FileSystem → ℕ → Outcome FileSystem
format_disk around fs disk_size = format_super fs.super disk_size >>= λ super.
    (let fs1 =
        write_blocks 1 (record fs { super = super }) 0
          (super_bytes super ++ around.behind.behind_super) in
      in_bounds (get_elem? fs1.ibmap 0) >>= λ w.
      (let ibmap = set fs1.ibmap 0 (bit_or w (2 ^ 31)) in
        alloc_bitrange fs1.dbmap bitmap_capacity (data_region_start + 1) false
        >>= λ (d : BitRange × List ℕ).
            (let fs2 =
                write_blocks 1 (record fs1 { ibmap = ibmap; dbmap = d.1 }) super.i_bmap_start
                  (words_bytes ibmap) in
              let fs3 = write_blocks 1 fs2 super.d_bmap_start (words_bytes d.1) in
              store_elem fs3.inode_table 0 (root_inode super.data_start) >>= λ table.
              (let fs4 =
                  write_blocks (super.data_start - super.inode_table_start)
                    (record fs3 { inode_table = table }) super.inode_table_start
                    (table_bytes table ++ around.behind.behind_table) in
                ok (write_blocks 1 fs4 super.data_start around.low_memory)))))

-- The disk is recognised by the superblock in its first sector.
pub is_recognized : FileSystem → Outcome Bool
is_recognized fs = strcmp fs.super.format_indicator (yorha ++ 0 ∷ []) >>= λ difference.
    ok (elim difference [ pos n ↦ n == 0 | negsuc n ↦ false ])

-- `junk` is what new blocks of the heap hold at first.
module _ (junk : ℕ → List ℕ) where
  pub create_files : List SpecialFile → FileSystem → Outcome FileSystem
  create_files [] fs = ok fs
  create_files (file ∷ files) fs = whole_name file >>= λ name.
      create_filetype junk fs name file_type_special false >>= λ (r : ℕ × FileSystem).
      assert (not (r.0 == minus_one)) >> create_files files r.1

  -- The result of `mkdir` is compared with 1, which it never is.
  pub create_system_files : FileSystem → Outcome FileSystem
  create_system_files fs = mkdir junk fs (dev ++ 0 ∷ []) >>= λ (r : ℕ × FileSystem).
      if r.0 == 1 then panicked else create_files system_files r.1

  module _ {D : Type 0} (ports : Ports D) where
    -- The initializer of the first special file is called for each of them.
    pub open_files : ℕ → List SpecialFile → System D → Outcome (System D)
    open_files i [] k = ok k
    open_files i (file ∷ files) k = whole_name file >>= λ name.
        open_file junk k.fs name >>= λ (r : ℕ × FileSystem).
        (let opened = store_elem k.system_fds i r.0 >>= λ fds. open_files (i + 1) files (record k {
          fs = r.1;
          system_fds = fds;
          device = initialize ports tty_file.handler k.device;
        }) in
          if r.0 == minus_one then panicked else opened)

    pub open_system_files : System D → Outcome (System D)
    open_system_files k = open_files 0 system_files k

    -- The result of the C function is always true.
    pub initalize_file_system : Surroundings → Bool → System D → Outcome (System D)
    initalize_file_system around force_format k =
        let fs = read_super k.fs in
        is_recognized fs >>= λ recognized.
        (let mounted = kprintf around.stack k.screen (disk_recognized ++ 0 ∷ []) [] >>= λ screen.
        open_system_files (record k { fs = read_metadata fs; screen = screen }) in
          let formatted = kprintf around.stack k.screen (formatting_disk ++ 0 ∷ []) [] >>= λ screen.
          ata_get_disk_size ports around.fuel k.device >>= λ (size : ℕ × D).
          format_disk around fs size.0 >>= λ fs'. create_system_files fs' >>= λ fs''.
          open_system_files (record k { fs = fs''; screen = screen; device = size.1 }) in
          if not force_format && recognized then mounted else formatted)

-- The loop of `shutdown` over the descriptors of the system files.
pub close_files : List ℕ → FileSystem → Outcome FileSystem
close_files [] fs = ok fs
close_files (fd ∷ fds) fs = close fs fd >>= λ (r : ℕ × FileSystem). close_files fds r.1

pub shutdown : {D : Type 0} → Surroundings → System D → Outcome (System D)
shutdown around k = kprintf around.stack k.screen (shutting_down ++ 0 ∷ []) [] >>= λ s1.
    kprintf around.stack s1 (clearing ++ 0 ∷ []) [] >>= λ s2.
    close_files k.system_fds k.fs >>= λ fs. kprintf around.stack s2 (syncing ++ 0 ∷ []) [] >>= λ s3.
    ok (record k { fs = write_metadata around.behind fs; screen = s3 })
