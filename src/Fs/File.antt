-- ===== src/Fs/File.antt =====
-- `read`, `write` and `seek` of src/fs.c on a file that is not special: such a file is served by
-- the handler of its name. A buffer of the caller is a list of bytes.
pub mod Data
pub mod RoundTrip
pub mod Cursor
use Prim.Native.Nat.{bit_and}
use yo_rha.Base.{
  ℕ, zero, suc, ◌+◌, ◌-◌, ◌^◌, List, [], ◌∷◌, ltb, ◌==◌, if◌then◌else◌, get_elem?, length, set,
}
use yo_rha.Base.Outcome.{Outcome, ok, fault, ◌>>=◌, in_bounds}
use yo_rha.Base.Word.{u32, add32, sub32, shl32, add64, sign_extend}
use yo_rha.Fs.State.{
  FileSystem, FileSystemInode, FileDescriptorEntry, block_bytes, minus_one,
  descriptor_not_allocated, write_block,
}
use yo_rha.Fs.Path.{push_error}
use yo_rha.Fs.Inode.{store_elem}

-- The loop of `read`, with `left` bytes still wanted: the bytes in the order they are copied, and
-- the cursor.
pub read_loop : List ℕ → ℕ → ℕ → ℕ → Outcome (List ℕ × ℕ)
read_loop block size zero read_pos = ok ([], read_pos)
read_loop block size (suc left) read_pos =
    let step = in_bounds (get_elem? block read_pos) >>= λ byte.
    read_loop block size left (add64 read_pos 1) >>= λ (rest : List ℕ × ℕ).
    ok (byte ∷ rest.0, rest.1) in
    if ltb read_pos size then step else ok ([], read_pos)

-- The bytes that `read` copies; `bytes_read` is their number.
pub read_data : FileSystem → ℕ → ℕ → Outcome (List ℕ × FileSystem)
read_data fs fd count = in_bounds (get_elem? fs.fd_entries fd) >>= λ entry.
    in_bounds (get_elem? fs.inode_table entry.inode_num) >>= λ inode.
    read_loop (fs.disk inode.data_block_start) inode.size count entry.read_pos
    >>= λ (bytes : List ℕ × ℕ). ok (
      bytes.0,
      record fs { fd_entries = set fs.fd_entries fd (record entry { read_pos = bytes.1 }) },
    )

-- The state of the loop of `write`.
pub record Writing : Type 0 where
  pub block : List ℕ
  pub write_pos : ℕ
  pub size : ℕ
  pub bytes_written : ℕ

-- The loop of `write` over the bytes that are left to write.
pub write_loop : List ℕ → Writing → Writing
write_loop [] w = w
write_loop (byte ∷ bytes) w =
    let rest = write_loop bytes (record {
      block = set w.block w.write_pos byte;
      write_pos = add64 w.write_pos 1;
      size = add32 w.size 1;
      bytes_written = add32 w.bytes_written 1;
    }) in
    if ltb w.write_pos block_bytes then rest else w

-- `buf` holds the `count` bytes.
pub write_data : FileSystem → ℕ → List ℕ → Outcome (ℕ × FileSystem)
write_data fs fd buf = in_bounds (get_elem? fs.fd_entries fd) >>= λ entry.
    in_bounds (get_elem? fs.inode_table entry.inode_num) >>= λ inode.
    (let w = write_loop buf (record {
      block = fs.disk inode.data_block_start;
      write_pos = entry.write_pos;
      size = inode.size;
      bytes_written = 0;
    }) in
      ok (
        w.bytes_written,
        write_block
            (record fs {
              fd_entries = set fs.fd_entries fd (record entry { write_pos = w.write_pos });
              inode_table = set fs.inode_table entry.inode_num (record inode { size = w.size });
            })
            inode.data_block_start w.block,
      ))

-- SEEK_SET, SEEK_CUR, SEEK_END and any other number.
pub data SeekParam : Type 0 where
  seek_set : SeekParam
  seek_cur : SeekParam
  seek_end : SeekParam
  seek_other : SeekParam

-- The switch of `seek`. An `offset` and what `seek` returns are unsigned numbers of an `int32_t`.
pub move_cursors : FileDescriptorEntry → ℕ → ℕ → SeekParam → FileDescriptorEntry
move_cursors entry size offset seek_set = record entry {
  read_pos = sign_extend offset;
  write_pos = sign_extend offset;
}
move_cursors entry size offset seek_cur = record entry {
  read_pos = add64 entry.read_pos (sign_extend offset);
  write_pos = add64 entry.write_pos (sign_extend offset);
}
move_cursors entry size offset seek_end = record entry {
  read_pos = sub32 size offset;
  write_pos = sub32 size offset;
}
move_cursors entry size offset seek_other = entry

-- The size of the inode is read only for SEEK_END.
pub seek_size : FileSystem → FileDescriptorEntry → SeekParam → Outcome ℕ
seek_size fs entry seek_end =
    in_bounds (get_elem? fs.inode_table entry.inode_num) >>= λ inode. ok inode.size
seek_size fs entry seek_set = ok 0
seek_size fs entry seek_cur = ok 0
seek_size fs entry seek_other = ok 0

pub seek : FileSystem → ℕ → ℕ → SeekParam → Outcome (ℕ × FileSystem)
seek fs fd offset param = in_bounds (get_elem? fs.fd_bitmap 0) >>= λ w.
    (let moved = in_bounds (get_elem? fs.fd_entries fd) >>= λ entry.
    seek_size fs entry param >>= λ size.
    (let entry' = move_cursors entry size offset param in
      ok (u32 entry'.read_pos, record fs { fd_entries = set fs.fd_entries fd entry' })) in
      if bit_and w (shl32 1 (31 + 2 ^ 64 - fd)) == 0
      then ok (minus_one, push_error fs descriptor_not_allocated)
      else moved)
