-- ===== src/Fs/Create.antt =====
-- `create_filetype`, `create`, `mkdir`, `open`, `close` and `unlink` of src/fs.c. A descriptor is
-- returned as the unsigned number of the `int32_t`, so that -1 is `minus_one`.
pub mod Close
use yo_rha.Base.{ℕ, zero, suc, List, [], Bool, true, false, not, ◌==◌, if◌then◌else◌, get_elem?}
use yo_rha.Base.Outcome.{Outcome, ok, fault, ◌>>=◌, in_bounds}
use yo_rha.Bitmap.{BitRange, dealloc_bitrange}
use yo_rha.Heap.{AllocArray, kfree}
use yo_rha.Fs.State.{
  FileSystem, Message, file_type_dir, file_type_normal, minus_one, relative_addressing,
  inode_not_allocated, no_such_file,
}
use yo_rha.Fs.Path.{ParsedPath, HeapPath, parse_path, make_path, push_error, seek_directory}
use yo_rha.Fs.Directory.{search_dir, link_file_in_dir, unlink_file_in_dir}
use yo_rha.Fs.Inode.{DirInodePair, allocate_inode, allocate_file_descriptor}

-- The two calls of `kfree` on a parsed path.
free_path : FileSystem → HeapPath → Outcome FileSystem
free_path fs path = kfree fs.heap path.dir_ptr >>= λ heap.
    kfree heap path.filename_ptr >>= λ heap'. ok (record fs { heap = heap' })

-- Without a descriptor the file is taken out of the directory again, and the block and the inode
-- with number `inode_pair.valid`, which is 1, are freed.
cleanup : FileSystem → DirInodePair → Outcome FileSystem
cleanup fs pair = unlink_file_in_dir fs pair.dir_inode_num pair.file_inode_num >>= λ unlinked.
    in_bounds (get_elem? unlinked.inode_table pair.file_inode_num) >>= λ inode.
    dealloc_bitrange unlinked.dbmap (record { start = inode.data_block_start; length = 1 })
    >>= λ dbmap.
        dealloc_bitrange unlinked.ibmap (record { start = if pair.valid then 1 else 0; length = 1 })
        >>= λ ibmap. ok (record unlinked { dbmap = dbmap; ibmap = ibmap })

-- `allocate_file_descriptor` if it is asked for.
descriptor : FileSystem → ParsedPath → ℕ → Bool → Outcome (ℕ × FileSystem)
descriptor fs path file_inode_num false = ok (0, fs)
descriptor fs path file_inode_num true = allocate_file_descriptor fs file_inode_num path.filename

-- What follows a valid pair.
link_and_open : FileSystem → HeapPath → DirInodePair → Bool → Outcome (ℕ × FileSystem)
link_and_open fs path pair allocate_fd =
    link_file_in_dir fs pair.dir_inode_num pair.file_inode_num >>= λ linked.
    descriptor linked path.parsed pair.file_inode_num allocate_fd >>= λ (fd : ℕ × FileSystem).
    free_path fd.1 path >>= λ freed.
    (let cleaned = cleanup freed pair >>= λ fs'. ok (fd.0, fs') in
      if fd.0 == minus_one then cleaned else ok (fd.0, freed))

pub create_filetype : (ℕ → List ℕ) → FileSystem → List ℕ → ℕ → Bool → Outcome (ℕ × FileSystem)
create_filetype junk fs path file_type allocate_fd = in_bounds (get_elem? path 0) >>= λ first.
    (let absolute = make_path junk fs.heap path >>= λ (parsed : HeapPath × AllocArray).
    allocate_inode (record fs { heap = parsed.1 }) parsed.0.parsed file_type (not (file_type == 2))
    >>= λ (pair : DirInodePair × FileSystem).
        (let linked = link_and_open pair.1 parsed.0 pair.0 allocate_fd in
          let refused = free_path pair.1 parsed.0 >>= λ fs'.
          ok (minus_one, push_error fs' inode_not_allocated) in
          if pair.0.valid then linked else refused) in
      if first == b'/' then absolute else ok (minus_one, push_error fs relative_addressing))

pub create : (ℕ → List ℕ) → FileSystem → List ℕ → Outcome (ℕ × FileSystem)
create junk fs path = create_filetype junk fs path file_type_normal true

pub mkdir : (ℕ → List ℕ) → FileSystem → List ℕ → Outcome (ℕ × FileSystem)
mkdir junk fs path = create_filetype junk fs path file_type_dir false

-- `open` is a name of the language: this is the function of fs.c.
pub open_file : (ℕ → List ℕ) → FileSystem → List ℕ → Outcome (ℕ × FileSystem)
open_file junk fs path = make_path junk fs.heap path >>= λ (parsed : HeapPath × AllocArray).
    seek_directory (record fs { heap = parsed.1 }) parsed.0.parsed.dir_path
    >>= λ (dir : ℕ × FileSystem).
        search_dir dir.1 dir.0 parsed.0.parsed.filename >>= λ (file : ℕ × FileSystem).
        (let absent =
            free_path (push_error file.1 no_such_file) parsed.0 >>= λ fs'. ok (minus_one, fs') in
          let opened =
            allocate_file_descriptor file.1 file.0 parsed.0.parsed.filename
            >>= λ (fd : ℕ × FileSystem). free_path fd.1 parsed.0 >>= λ fs'. ok (fd.0, fs') in
          if file.0 == minus_one then absent else opened)

-- -1 whether or not the descriptor was in use.
pub close : FileSystem → ℕ → Outcome (ℕ × FileSystem)
close fs fd = dealloc_bitrange fs.fd_bitmap (record { start = fd; length = 1 }) >>= λ fd_bitmap.
    ok (minus_one, record fs { fd_bitmap = fd_bitmap })

-- `dir_path` and `filename` give what the two arrays on the stack hold at first, `strlen(path)` and
-- 32 bytes.
pub unlink : FileSystem → List ℕ → List ℕ → List ℕ → Outcome (ℕ × FileSystem)
unlink fs path dir_path filename = parse_path path dir_path filename >>= λ parsed.
    seek_directory fs parsed.dir_path >>= λ (dir : ℕ × FileSystem).
    search_dir dir.1 dir.0 parsed.filename >>= λ (file : ℕ × FileSystem).
    (let present = unlink_file_in_dir file.1 dir.0 file.0 >>= λ unlinked.
    in_bounds (get_elem? unlinked.inode_table file.0) >>= λ inode.
    dealloc_bitrange unlinked.dbmap (record { start = inode.data_block_start; length = 1 })
    >>= λ dbmap.
        dealloc_bitrange unlinked.ibmap (record { start = file.0; length = 1 }) >>= λ ibmap.
        ok (0, record unlinked { dbmap = dbmap; ibmap = ibmap }) in
      if file.0 == minus_one then ok (minus_one, push_error file.1 no_such_file) else present)
