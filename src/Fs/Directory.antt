-- ===== src/Fs/Directory.antt =====
-- `search_dir`, `link_file_in_dir` and `unlink_file_in_dir` of src/fs.c.
pub mod Contents
pub mod Unlink
pub mod Sample
mod Tests
use yo_rha.Base.{
  ℕ, zero, suc, Option, none, some, ◌+◌, ◌/◌, List, ◌++◌, Bool, true, false, ◌==◌, if◌then◌else◌,
  get_elem?, set, take,
}
use yo_rha.Base.Outcome.{Outcome, ok, ◌>>=◌, ◌>>◌, assert, in_bounds}
use yo_rha.Base.Word.{add32, sub32}
use yo_rha.Cstring.{strcpy}
use yo_rha.Fs.State.{
  FileSystem, FileSystemInode, dir_entry_size, minus_one, untraceable_path, write_block,
  number_bytes, entry_inode, entry_bytes, set_entry_bytes,
}
use yo_rha.Fs.Path.{find_entry, push_error}

-- The inode number of a file in a directory, or -1.
pub search_dir : FileSystem → ℕ → List ℕ → Outcome (ℕ × FileSystem)
search_dir fs dir_inode_num filename =
    in_bounds (get_elem? fs.inode_table dir_inode_num) >>= λ dir_inode.
    assert (dir_inode.file_type == 0)
    >> (find_entry (fs.disk dir_inode.data_block_start) filename (dir_inode.size / dir_entry_size) 0
        >>= λ found. ok (elim found [
          | none ↦ (minus_one, push_error fs untraceable_path)
          | some inode_num ↦ (inode_num, fs)
        ]))

-- `strcpy` writes on from the name into the inode number of the entry if it does not fit: `fault`.
pub new_entry : List ℕ → ℕ → List ℕ → Outcome (List ℕ)
new_entry old file_inode_num name =
    strcpy (take 32 old) name >>= λ name'. ok (name' ++ number_bytes file_inode_num)

pub link_file_in_dir : FileSystem → ℕ → ℕ → Outcome FileSystem
link_file_in_dir fs dir_inode_num file_inode_num =
    in_bounds (get_elem? fs.inode_table dir_inode_num) >>= λ dir_inode.
    in_bounds (get_elem? fs.inode_table file_inode_num) >>= λ file_inode.
    (let block = fs.disk dir_inode.data_block_start in
      let last = dir_inode.size / dir_entry_size in
      entry_bytes block last >>= λ old. new_entry old file_inode_num file_inode.name >>= λ bytes.
      set_entry_bytes block last bytes >>= λ block'. ok (
        write_block
          (record fs {
            inode_table =
                set fs.inode_table dir_inode_num
                  (record dir_inode { size = add32 dir_inode.size dir_entry_size });
          })
          dir_inode.data_block_start block'))

-- The inner loop: each of the `left` entries from `entry` on is replaced by the next one.
shift_entries : List ℕ → ℕ → ℕ → Outcome (List ℕ)
shift_entries block zero entry = ok block
shift_entries block (suc left) entry = entry_bytes block (entry + 1) >>= λ next.
    set_entry_bytes block entry next >>= λ block'. shift_entries block' left (entry + 1)

-- The outer loop, with `left` entries to go: the block, and whether an entry was taken out.
remove_entry : List ℕ → ℕ → ℕ → ℕ → Outcome (List ℕ × Bool)
remove_entry block file_inode_num zero entry = ok (block, false)
remove_entry block file_inode_num (suc left) entry = entry_inode block entry >>= λ n.
    (let rest = remove_entry block file_inode_num left (entry + 1) in
      if n == file_inode_num
      then (shift_entries block (suc left) entry >>= λ block'. ok (block', true))
      else rest)

pub unlink_file_in_dir : FileSystem → ℕ → ℕ → Outcome FileSystem
unlink_file_in_dir fs dir_inode_num file_inode_num =
    in_bounds (get_elem? fs.inode_table dir_inode_num) >>= λ dir_inode.
    remove_entry (fs.disk dir_inode.data_block_start) file_inode_num
      (dir_inode.size / dir_entry_size) 0
    >>= λ (removed : List ℕ × Bool).
        (let dir_inode' : FileSystemInode = record dir_inode {
          size = if removed.1 then sub32 dir_inode.size dir_entry_size else dir_inode.size;
        } in
          ok (
            write_block (record fs { inode_table = set fs.inode_table dir_inode_num dir_inode' })
              dir_inode.data_block_start removed.0))
