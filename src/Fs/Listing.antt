-- ===== src/Fs/Listing.antt =====
-- `list_dir` and `str_list_dir` of src/fs.c.
pub mod Written
pub mod Text
mod Tests
use yo_rha.Base.{
  ℕ, zero, suc, ◌+◌, ◌*◌, ◌/◌, List, [], ◌∷◌, ◌++◌, Option, none, some, ◌==◌, if◌then◌else◌,
  get_elem?, take, drop, replicate,
}
use yo_rha.Base.Outcome.{Outcome, ok, ◌>>=◌, in_bounds}
use yo_rha.Base.Word.{u32}
use yo_rha.Cstring.{strcat, strlen}
use yo_rha.Heap.{AllocArray, kmalloc}
use yo_rha.Fs.State.{FileSystem, FileSystemInode, dir_entry_size, minus_one, entry_name}
use yo_rha.Fs.Path.{store_char, parse_path, seek_directory}

-- The buffer that is written, and how far.
pub record Output : Type 0 where
  pub buffer : List ℕ
  pub pos : ℕ

-- `buf += strcat(text, buf)`
pub put_text : Output → List ℕ → Outcome Output
put_text o text = strcat text (drop o.pos o.buffer) >>= λ (r : ℕ × List ℕ).
    ok (record { buffer = take o.pos o.buffer ++ r.1; pos = o.pos + r.0 })

-- `*(buf++) = c`
pub put_char : Output → ℕ → Outcome Output
put_char o c =
    store_char o.buffer o.pos c >>= λ buffer. ok (record { buffer = buffer; pos = o.pos + 1 })

-- The loop of `list_dir`, with `left` entries left.
pub list_entries : List ℕ → List ℕ → ℕ → ℕ → Output → Outcome Output
list_entries path block zero file o = ok o
list_entries path block (suc left) file o = put_text o path >>= λ o1.
    entry_name block file >>= λ name.
    put_text o1 name >>= λ o2. put_char o2 10 >>= λ o3. list_entries path block left (file + 1) o3

-- `dir_path` and `filename` give what the two arrays on the stack hold at first.
pub list_dir : FileSystem → List ℕ → List ℕ → List ℕ → List ℕ → Outcome (List ℕ × FileSystem)
list_dir fs path dir_path filename buf = parse_path path dir_path filename >>= λ parsed.
    seek_directory fs parsed.dir_path >>= λ (dir : ℕ × FileSystem).
    in_bounds (get_elem? dir.1.inode_table dir.0) >>= λ inode.
    list_entries path (dir.1.disk inode.data_block_start) (inode.size / dir_entry_size) 0
      (record { buffer = buf; pos = 0 })
    >>= λ o. ok (o.buffer, dir.1)

-- The loop of `str_list_dir`.
pub str_entries : List ℕ → List ℕ → ℕ → ℕ → Output → Outcome Output
str_entries path block zero file o = ok o
str_entries path block (suc left) file o = (if file == 0 then ok o else put_char o 10) >>= λ o1.
    put_text o1 path >>= λ o2. entry_name block file >>= λ name.
    put_text o2 name >>= λ o3. str_entries path block left (file + 1) o3

-- The block of a listing, and its bytes, for a directory that was found.
pub list_inode :
    (ℕ → List ℕ) → FileSystem → List ℕ → FileSystemInode → Outcome ((ℕ × List ℕ) × FileSystem)
list_inode junk fs path inode =
    let files_contained = inode.size / dir_entry_size in
    let size = u32 (files_contained * 32 + 1) in
    kmalloc fs.heap size >>= λ (base : ℕ × AllocArray).
    str_entries path (fs.disk inode.data_block_start) files_contained 0
      (record { buffer = take size (junk base.0); pos = 0 })
    >>= λ o. put_char o 0 >>= λ o'. ok ((base.0, o'.buffer), record fs { heap = base.1 })

-- `none` is the null pointer.
pub str_list_dir : (ℕ → List ℕ) → FileSystem → List ℕ → Outcome (Option (ℕ × List ℕ) × FileSystem)
str_list_dir junk fs path = seek_directory fs path >>= λ (dir : ℕ × FileSystem).
    (let listed = in_bounds (get_elem? dir.1.inode_table dir.0) >>= λ inode.
    list_inode junk dir.1 path inode >>= λ (r : (ℕ × List ℕ) × FileSystem). ok (some r.0, r.1) in
      if dir.0 == minus_one then ok (none, dir.1) else listed)
