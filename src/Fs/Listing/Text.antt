-- ===== src/Fs/Listing/Text.antt =====
-- The text of a listing.
use mathlib.Core.List.{append_assoc, append-nil}
use yo_rha.Base.{
  ℕ, zero, suc, ◌+◌, ◌*◌, ◌/◌, ◌≤◌, ◌<◌, ◌≡◌, ◌≢◌, refl, sym, ap, ◌∙◌, false, List, [], ◌∷◌, ◌++◌,
  some, arith, ◌==◌, if◌then◌else◌, length, length-append, length-take, get_elem?, take,
}
use yo_rha.Base.Outcome.{ok}
use yo_rha.Base.Word.{u32}
use yo_rha.Cstring.Laws.{IsText, terminated}
use yo_rha.Heap.{AllocArray, kmalloc}
use yo_rha.Fs.State.{
  FileSystem, FileSystemInode, dir_file_count_max, dir_entry_size, minus_one, entry_name,
}
use yo_rha.Fs.State.Entries.{
  DirEntry, AreDirEntries, bytes_of, directory_bytes, length-bytes_of, entry_name_lem,
}
use yo_rha.Fs.Path.{seek_directory}
use yo_rha.Fs.Directory.Contents.{IsDirectory}
use yo_rha.Fs.Listing.{Output, put_text, put_char, str_entries, list_inode, str_list_dir}
use yo_rha.Fs.Listing.Written.{IsOutput, IsPut, put_text_lem, put_char_lem}

abbrev pub separator : ℕ → List ℕ
separator zero = []
separator (suc file) = 10 ∷ []

-- The path and the name of each entry, with newlines between them; `file` is the number of the
-- first one.
abbrev pub listing : List ℕ → ℕ → List DirEntry → List ℕ
listing path file [] = []
listing path file (e ∷ es) = separator file ++ (path ++ (e.name ++ listing path (file + 1) es))

separator_lem :
    (total : ℕ) (o : Output) (written : List ℕ) (file : ℕ)
    → IsOutput total o written
    → length written + length (separator file) ≤ total
    → IsPut total (written ++ separator file) (if file == 0 then ok o else put_char o 10)
separator_lem total o written zero v le = record {
  out = o;
  returns = refl;
  valid = rw (append-nil written) v;
}
separator_lem total o written (suc file) v le =
    let test : (suc file == 0) ≡ false = ground arith in
    rw test (put_char_lem total o written v 10 (omega arith))

str_entries-suc :
    (path block name : List ℕ) (left file : ℕ) (o o1 o2 o3 : Output)
    → (if file == 0 then ok o else put_char o 10) ≡ ok o1
    → put_text o1 path ≡ ok o2
    → entry_name block file ≡ ok name
    → put_text o2 name ≡ ok o3
    → str_entries path block (suc left) file o ≡ str_entries path block left (file + 1) o3
unfolding str_entries
str_entries-suc path block name left file o o1 o2 o3 e1 e2 e3 e4 = rw (e1, e2, e3, e4) (refl)

module _ (path prest spare : List ℕ) (named : IsText path) (total : ℕ) where
  str_entries_lem :
      (es : List DirEntry) (before : List ℕ) (file : ℕ) (o : Output) (written : List ℕ)
      → file * 36 ≡ length before
      → file + length es ≤ dir_file_count_max
      → AreDirEntries es
      → IsOutput total o written
      → length written + length (listing path file es) < total
      → IsPut total (written ++ listing path file es) (
          str_entries
            (terminated path prest)
            (before ++ (directory_bytes es ++ spare))
            (length es)
            file
            o)
  unfolding str_entries
  str_entries_lem [] before file o written at fits valid v lt = record {
    out = o;
    returns = refl;
    valid = rw (append-nil written) v;
  }
  str_entries_lem (e ∷ es) before file o written at fits valid v lt =
      let more = listing path (file + 1) es in
      let after = directory_bytes es ++ spare in
      let l1 = length-append (separator file) (path ++ (e.name ++ more)) in
      let l2 = length-append path (e.name ++ more) in
      let l3 = length-append e.name more in
      let p1 = separator_lem total o written file v (omega (arith, l1)) in
      let w1 = written ++ separator file in
      let k1 = length-append written (separator file) in
      let p2 =
        put_text_lem total p1.out w1 p1.valid path prest named (omega (arith, l1, l2, l3, k1)) in
      let w2 = w1 ++ path in
      let k2 = length-append w1 path in
      let p3 =
        put_text_lem total p2.out w2 p2.valid e.name e.junk valid.0.named
          (omega (arith, l1, l2, l3, k1, k2)) in
      let w3 = w2 ++ e.name in
      let k3 = length-append w2 e.name in
      let name = entry_name_lem before after e file at (omega arith) valid.0 in
      let rest =
        str_entries_lem es (before ++ bytes_of e) (file + 1) p3.out w3
          (omega (arith, at, length-append before (bytes_of e), length-bytes_of e valid.0))
          (omega arith) valid.1 p3.valid (omega (arith, l1, l2, l3, k1, k2, k3)) in
      let moved = append_assoc before (bytes_of e) after in
      let split =
        ap (λ (b : List ℕ). before ++ b) (append_assoc (bytes_of e) (directory_bytes es) spare) in
      let all =
        append_assoc w2 e.name more
        ∙ append_assoc w1 path (e.name ++ more)
        ∙ append_assoc written (separator file) (path ++ (e.name ++ more)) in
      record {
        out = rest.out;
        returns =
            ap (λ (b : List ℕ). str_entries (terminated path prest) b (suc (length es)) file o)
              split
            ∙ str_entries-suc (terminated path prest) (before ++ (bytes_of e ++ after))
                (terminated e.name e.junk) (length es) file o p1.out p2.out p3.out p1.returns
                p2.returns name p3.returns
            ∙ ap
                (λ (b : List ℕ).
                  str_entries (terminated path prest) b (length es) (file + 1) p3.out)
                (sym moved)
            ∙ rest.returns;
        valid = rw all at rest.valid;
      }

list_inode_returns :
    (junk : ℕ → List ℕ) (fs : FileSystem) (path block : List ℕ) (inode : FileSystemInode)
    (count base : ℕ) (heap : AllocArray) (o o' : Output)
    → inode.size / dir_entry_size ≡ count
    → u32 (count * 32 + 1) ≡ count * 32 + 1
    → fs.disk inode.data_block_start ≡ block
    → kmalloc fs.heap (count * 32 + 1) ≡ ok (base, heap)
    → str_entries path block count 0
        (record { buffer = take (count * 32 + 1) (junk base); pos = 0 })
      ≡ ok o
    → put_char o 0 ≡ ok o'
    → list_inode junk fs path inode ≡ ok ((base, o'.buffer), record fs { heap = heap })
unfolding list_inode
list_inode_returns junk fs path block inode count base heap o o' e1 e2 e3 e4 e5 e6 =
    rw (e1, e2, e3, e4, e5, e6) (refl)

str_list_dir_returns :
    (junk : ℕ → List ℕ) (fs fs' fs'' : FileSystem) (path text : List ℕ) (d base : ℕ)
    (inode : FileSystemInode)
    → seek_directory fs path ≡ ok (d, fs')
    → d ≢ minus_one
    → get_elem? fs'.inode_table d ≡ some inode
    → list_inode junk fs' path inode ≡ ok ((base, text), fs'')
    → str_list_dir junk fs path ≡ ok (some (base, text), fs'')
unfolding str_list_dir
str_list_dir_returns junk fs fs' fs'' path text d base inode found some_dir known listed =
    let test : (d == minus_one) ≡ false = ground (arith, some_dir) in
    rw (found, test, known, listed) (refl)

-- `str_list_dir` of a path that `seek_directory` leads to a directory, where `kmalloc` returns a
-- block of 32 bytes for each entry and one more, and the text has at most 32 characters for each
-- entry: it returns this block with the path and the name of each entry, one entry on a line, and a
-- zero, and changes only the heap. The path is not counted in the size of the block.
pub str_list_dir_lem :
    (junk : ℕ → List ℕ) (fs fs' : FileSystem) (path prest : List ℕ) (d base : ℕ) (heap : AllocArray)
    (es : List DirEntry)
    → IsText path
    → seek_directory fs (terminated path prest) ≡ ok (d, fs')
    → d ≢ minus_one
    → IsDirectory fs' d es
    → kmalloc fs'.heap (length es * 32 + 1) ≡ ok (base, heap)
    → length es * 32 + 1 ≤ length (junk base)
    → length (listing path 0 es) ≤ length es * 32
    → (rest : List ℕ) × (str_list_dir junk fs (terminated path prest)
        ≡ ok (some (base, terminated (listing path 0 es) rest), record fs' { heap = heap }))
str_list_dir_lem junk fs fs' path prest d base heap es named found some_dir v got enough fits =
    let size = length es * 32 + 1 in
    let count : v.inode.size / dir_entry_size ≡ length es = omega (arith, v.size) in
    let bytes : u32 (length es * 32 + 1) ≡ size = omega (arith, v.fits) in
    let start : IsOutput size (record { buffer = take size (junk base); pos = 0 }) [] = record {
      free = take size (junk base);
      bytes = refl;
      at = refl;
      whole = omega (arith, length-take size (junk base) enough);
    } in
    let listed =
      str_entries_lem path prest v.spare named size es [] 0
        (record { buffer = take size (junk base); pos = 0 }) [] refl (omega (arith, v.fits))
        v.entries start (omega arith) in
    let ended = put_char_lem size listed.out (listing path 0 es) listed.valid 0 (omega arith) in
    let text = listing path 0 es in
    let bytes_behind : ended.out.buffer ≡ terminated text ended.valid.free =
      ended.valid.bytes ∙ append_assoc text (0 ∷ []) ended.valid.free in
    (
      ended.valid.free,
      str_list_dir_returns junk fs fs' (record fs' { heap = heap }) (terminated path prest)
          (terminated text ended.valid.free) d base v.inode found some_dir v.known
          (list_inode_returns junk fs' (terminated path prest) (directory_bytes es ++ v.spare)
              v.inode (length es) base heap listed.out ended.out count bytes v.block got
              listed.returns ended.returns
            ∙ ap (λ (b : List ℕ). ok ((base, b), record fs' { heap = heap })) bytes_behind),
    )
