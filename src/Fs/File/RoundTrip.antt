-- ===== src/Fs/File/RoundTrip.antt =====
-- A `read` after a `write`.
use yo_rha.Base.{ℕ, ◌+◌, ◌^◌, ◌≤◌, ◌<◌, ◌≡◌, List, some, length, get_elem?, set}
use yo_rha.Fs.State.{FileSystem, FileSystemInode, FileDescriptorEntry, block_bytes, write_block}
use yo_rha.Fs.File.{Writing, write_loop}

module _ (fs : FileSystem) (fd : ℕ) (entry : FileDescriptorEntry) (inode : FileSystemInode)
    (buf : List ℕ) (opened : get_elem? fs.fd_entries fd ≡ some entry)
    (present : get_elem? fs.inode_table entry.inode_num ≡ some inode)
    (whole : length (fs.disk inode.data_block_start) ≡ block_bytes)
    (together : entry.write_pos ≡ entry.read_pos) (within : entry.read_pos ≤ inode.size)
    (small : inode.size + length buf < 2 ^ 32)
    (room : entry.write_pos + length buf ≤ block_bytes) where
  abbrev start : Writing
  start = record {
    block = fs.disk inode.data_block_start;
    write_pos = entry.write_pos;
    size = inode.size;
    bytes_written = 0;
  }

  abbrev out : Writing
  out = write_loop buf start

  abbrev entry' : FileDescriptorEntry
  entry' = record entry { write_pos = out.write_pos }

  abbrev inode' : FileSystemInode
  inode' = record inode { size = out.size }

  abbrev after : FileSystem
  after =
      write_block
        (record fs {
          fd_entries = set fs.fd_entries fd entry';
          inode_table = set fs.inode_table entry.inode_num inode';
        })
        inode.data_block_start out.block
