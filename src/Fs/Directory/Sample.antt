-- ===== src/Fs/Directory/Sample.antt =====
-- A root directory with two files.
use yo_rha.Base.{
  ℕ, ◌^◌, ◌<◌, ◌≢◌, refl, arith, List, [], ◌∷◌, ◌++◌, length-append, length-replicate, replicate,
}
use yo_rha.Heap.Sample.{heap}
use yo_rha.Fs.State.{FileSystem, FileSystemInode, no_message}
use yo_rha.Fs.State.Entries.{
  DirEntry, IsDirEntry, AreDirEntries, directory_bytes, length-directory_bytes,
}
use yo_rha.Fs.Directory.Contents.{IsDirectory}

abbrev pub named : ℕ → ℕ → DirEntry
named c n = record { name = c ∷ []; junk = replicate 30 0; inode_num = n }

abbrev pub files : List DirEntry
files = named b'a' 1 ∷ named b'b' 2 ∷ []

pub spare : List ℕ
spare = replicate 4024 0

abbrev pub inode : List ℕ → ℕ → ℕ → FileSystemInode
inode name file_type size = record {
  name = name;
  file_type = file_type;
  data_block_start = 8;
  size = size;
  parent_inode_num = 0;
}

abbrev pub disk : FileSystem
disk = record {
  super = record {
    format_indicator = [];
    disk_size = 0;
    sector_count = 0;
    block_count = 16;
    i_bmap_start = 1;
    d_bmap_start = 2;
    inode_table_start = 3;
    used_inodes = 4;
    data_start = 8;
  };
  ibmap = [];
  dbmap = [];
  inode_table =
      inode (0 ∷ []) 0 72
      ∷ inode (b'a' ∷ 0 ∷ []) 1 0
      ∷ inode (b'b' ∷ 0 ∷ []) 1 0
      ∷ inode (b'c' ∷ 0 ∷ []) 1 0
      ∷ [];
  fd_bitmap = [];
  fd_entries = [];
  error_msg = no_message;
  disk = λ b. directory_bytes files ++ spare;
  heap = heap;
}

named-IsDirEntry : (c n : ℕ) → c ≢ 0 → c < 256 → n < 2 ^ 32 → IsDirEntry (named c n)
named-IsDirEntry c n ne lt word = record { named = (ne, lt, tt); name_bytes = refl; word = word }

files-AreDirEntries : AreDirEntries files
files-AreDirEntries = (
  named-IsDirEntry b'a' 1 (λ e. omega arith) (omega arith) (omega arith),
  (named-IsDirEntry b'b' 2 (λ e. omega arith) (omega arith) (omega arith), tt),
)

pub disk-IsDirectory : IsDirectory disk 0 files
unfolding spare
disk-IsDirectory = record {
  inode = inode (0 ∷ []) 0 72;
  spare = spare;
  known = refl;
  directory = refl;
  block = refl;
  whole = omega (
    arith,
    length-append (directory_bytes files) spare,
    length-directory_bytes files files-AreDirEntries,
    length-replicate {A = ℕ} 4024 0,
  );
  size = refl;
  fits = omega arith;
  entries = files-AreDirEntries;
}
