-- ===== src/Fs/Path.antt =====
-- `Path`, `parse_path` and `seek_directory` of src/fs.c.
pub mod Split
pub mod Lookup
pub mod Root
mod Tests
use yo_rha.Base.{
  ℕ, zero, suc, ◌+◌, ◌/◌, List, [], ◌∷◌, Bool, true, false, not, ◌&&◌, ◌||◌, ltb, ◌==◌,
  if◌then◌else◌, get_elem?, length, set, take, drop, replicate, Option, none, some,
}
use yo_rha.Base.Int.{ℤ, pos, negsuc}
use yo_rha.Base.Outcome.{Outcome, ok, fault, ◌>>=◌, in_bounds}
use yo_rha.Base.Word.{u16, u32}
use yo_rha.Cstring.{strlen, strcmp, strcpy}
use yo_rha.Heap.{AllocArray, kmalloc}
use yo_rha.Fs.State.{
  FileSystem, Message, dir_entry_size, minus_one, entry_name, entry_inode, relative_indexing,
  untraceable_path, not_a_directory,
}

-- The scan for the last slash, with `i` characters passed.
pub last_slash_from : ℕ → ℕ → List ℕ → Outcome ℕ
last_slash_from i last [] = fault
last_slash_from i last (c ∷ cs) =
    let rest = last_slash_from (i + 1) (if c == b'/' then i else last) cs in
    if c == 0 then ok last else rest

-- A write into an array.
abbrev pub store_char : List ℕ → ℕ → ℕ → Outcome (List ℕ)
store_char buffer i c = if ltb i (length buffer) then ok (set buffer i c) else fault

pub record ParsedPath : Type 0 where
  pub dir_path : List ℕ
  pub filename : List ℕ

-- The body that `Path` and `parse_path` share, over the two arrays. They may be longer than the
-- path; what they hold at first is overwritten or stands behind the terminating zeros.
pub split_path : List ℕ → List ℕ → List ℕ → Outcome ParsedPath
split_path path dir_buffer name_buffer = strcpy dir_buffer path >>= λ dir_path.
    last_slash_from 0 0 path >>= λ last_slash.
    strcpy name_buffer (drop (last_slash + 1) dir_path) >>= λ filename.
    store_char dir_path (last_slash + 1) 0 >>= λ cut.
    ok (record { dir_path = cut; filename = filename })

pub parse_path : List ℕ → List ℕ → List ℕ → Outcome ParsedPath
parse_path path dir_path filename = split_path path dir_path filename

-- A parsed path in two blocks of the heap.
pub record HeapPath : Type 0 where
  pub dir_ptr : ℕ
  pub filename_ptr : ℕ
  pub parsed : ParsedPath

-- The bytes of a new block are not initialised: `junk` gives them.
pub make_path : (ℕ → List ℕ) → AllocArray → List ℕ → Outcome (HeapPath × AllocArray)
make_path junk heap path = strlen path >>= λ len. kmalloc heap (u32 (len + 1)) >>= λ dir.
    kmalloc dir.1 (u32 (len + 1)) >>= λ name.
    split_path path (take (len + 1) (junk dir.0)) (take (len + 1) (junk name.0)) >>= λ parsed.
    ok (record { dir_ptr = dir.0; filename_ptr = name.0; parsed = parsed }, name.1)

-- The loop over the entries of a directory: the number of the first one with the name, if any.
pub find_entry : List ℕ → List ℕ → ℕ → ℕ → Outcome (Option ℕ)
find_entry block name zero file = ok none
find_entry block name (suc left) file = entry_name block file >>= λ n.
    strcmp n name >>= λ difference. elim difference [
      | pos zero ↦ entry_inode block file >>= λ inode_num. ok (some inode_num)
      | _ ↦ find_entry block name left (file + 1)
    ]

abbrev pub push_error : FileSystem → Message → FileSystem
push_error fs message = record fs { error_msg = message }

-- The end of one component of the path: the directory that it names in the current one.
enter_directory : FileSystem → ℕ → List ℕ → Outcome ℕ
enter_directory fs current next_dir = in_bounds (get_elem? fs.inode_table current) >>= λ dir_inode.
    find_entry (fs.disk dir_inode.data_block_start) next_dir (dir_inode.size / dir_entry_size) 0
    >>= λ found. ok (elim found [ none ↦ minus_one | some inode_num ↦ inode_num ])

-- The last character of a path that does not end with a slash belongs to the name.
last_char : List ℕ → ℕ → ℕ → Bool → Outcome (List ℕ × ℕ)
last_char next_dir char_index c false = ok (next_dir, char_index)
last_char next_dir char_index c true =
    store_char next_dir char_index c >>= λ next_dir'. ok (next_dir', u16 (char_index + 1))

-- The loop of `seek_directory` over the rest of the path. The result is the last inode number, or
-- -1 for a path that cannot be traced.
walk : FileSystem → ℕ → List ℕ → ℕ → List ℕ → Outcome ℕ
walk fs current next_dir char_index [] = fault
walk fs current next_dir char_index (c ∷ []) = if c == 0 then ok current else fault
walk fs current next_dir char_index (c ∷ ahead ∷ cs) =
    let go_on = store_char next_dir char_index c >>= λ next_dir'.
    walk fs current next_dir' (u16 (char_index + 1)) (ahead ∷ cs) in
    let component = last_char next_dir char_index c (not (c == b'/') && (ahead == 0)) >>= λ name.
    store_char name.0 name.1 0 >>= λ next_dir'.
    enter_directory fs current next_dir' >>= λ file_inode_number.
    (let rest = walk fs file_inode_number next_dir' 0 (ahead ∷ cs) in
      if file_inode_number == minus_one then ok minus_one else rest) in
    if c == 0 then ok current else (if (c == b'/') || (ahead == 0) then component else go_on)

pub seek_directory : FileSystem → List ℕ → Outcome (ℕ × FileSystem)
seek_directory fs dir_path = in_bounds (get_elem? dir_path 0) >>= λ first.
    (let traced = walk fs 0 (replicate 32 0) 0 (drop 1 dir_path) >>= λ current.
    (let checked = in_bounds (get_elem? fs.inode_table current) >>= λ inode.
    if inode.file_type == 0
    then ok (current, fs)
    else ok (minus_one, push_error fs not_a_directory) in
      if current == minus_one then ok (minus_one, push_error fs untraceable_path) else checked) in
      if first == b'/' then traced else ok (minus_one, push_error fs relative_indexing))
