-- ===== src/Fs/Directory/Unlink.antt =====
-- What `unlink_file_in_dir` takes out of a directory.
use mathlib.Core.List.{append_assoc, append-nil}
use yo_rha.Base.{
  ℕ, suc, ◌+◌, ◌*◌, ◌/◌, ◌≤◌, ◌<◌, ◌≡◌, ◌≢◌, refl, sym, ap, ◌∙◌, arith, true, false, List, [], ◌∷◌,
  ◌++◌, ◌==◌, length, length-append, length-take, take-drop, take, drop, get_elem?-set_self,
  get_elem?-lt, set,
}
use yo_rha.Base.Outcome.{ok}
use yo_rha.Base.Word.{sub32}
use yo_rha.Fs.State.{
  FileSystem, FileSystemInode, dir_file_count_max, dir_entry_size, write_block, entry_bytes,
  entry_inode,
}
use yo_rha.Fs.State.Entries.{
  DirEntry, IsDirEntry, AreDirEntries, bytes_of, directory_bytes, length-bytes_of,
  length-directory_bytes, entry_bytes_lem, set_entry_bytes_lem, entry_inode_lem,
}
use yo_rha.Fs.State.Append.{spare_long}
use yo_rha.Fs.Directory.{shift_entries, remove_entry, unlink_file_in_dir}
use yo_rha.Fs.Directory.Contents.{IsDirectory, same_block}

-- The bytes behind the entries when each of them has moved down by one.
abbrev refilled : List ℕ → List ℕ
refilled spare = take 36 spare ++ spare

-- One round of the loop: entry `file` is replaced by the next one.
shift_step :
    (before old next after : List ℕ) (left file : ℕ)
    → file * 36 ≡ length before
    → suc file < dir_file_count_max
    → length old ≡ 36
    → length next ≡ 36
    → shift_entries (before ++ (old ++ (next ++ after))) (suc left) file
      ≡ shift_entries (before ++ (next ++ (next ++ after))) left (file + 1)
unfolding shift_entries
shift_step before old next after left file at inside whole whole' =
    let moved : before ++ (old ++ (next ++ after)) ≡ (before ++ old) ++ (next ++ after) =
      sym (append_assoc before old (next ++ after)) in
    let read : entry_bytes (before ++ (old ++ (next ++ after))) (file + 1) ≡ ok next =
      ap (λ b. entry_bytes b (file + 1)) moved
      ∙ entry_bytes_lem (before ++ old) next after (file + 1)
          (omega (arith, length-append before old)) (omega arith) whole' in
    let written = set_entry_bytes_lem before old (next ++ after) file at (omega arith) next whole in
    rw (read, written) (refl)

-- The inner loop takes the first of the entries out.
shift_entries_lem :
    (before spare : List ℕ) (e : DirEntry) (es : List DirEntry) (file : ℕ)
    → file * 36 ≡ length before
    → file + suc (length es) < dir_file_count_max
    → IsDirEntry e
    → AreDirEntries es
    → 36 ≤ length spare
    → shift_entries (before ++ (directory_bytes (e ∷ es) ++ spare)) (suc (length es)) file
      ≡ ok (before ++ (directory_bytes es ++ refilled spare))
shift_entries_lem before spare e [] file at inside v vs long =
    let block : before ++ (directory_bytes (e ∷ []) ++ spare)
        ≡ before ++ (bytes_of e ++ (take 36 spare ++ drop 36 spare)) =
      ap (λ (l : List ℕ). before ++ l)
        (ap (λ (l : List ℕ). l ++ spare) (append-nil (bytes_of e))
          ∙ ap (λ (l : List ℕ). bytes_of e ++ l) (take-drop 36 spare)) in
    ap (λ b. shift_entries b 1 file) block
    ∙ shift_step before (bytes_of e) (take 36 spare) (drop 36 spare) 0 file at (omega arith)
        (length-bytes_of e v) (length-take 36 spare long)
    ∙ unfold shift_entries in
      ap (λ (l : List ℕ). ok (before ++ (take 36 spare ++ l))) (sym (take-drop 36 spare))
shift_entries_lem before spare e (y ∷ ys) file at inside v vs long =
    let rest = directory_bytes ys ++ spare in
    let block : before ++ (directory_bytes (e ∷ y ∷ ys) ++ spare)
        ≡ before ++ (bytes_of e ++ (bytes_of y ++ rest)) =
      ap (λ (l : List ℕ). before ++ l)
        (append_assoc (bytes_of e) (directory_bytes (y ∷ ys)) spare
          ∙ ap (λ (l : List ℕ). bytes_of e ++ l)
              (append_assoc (bytes_of y) (directory_bytes ys) spare)) in
    let moved : before ++ (bytes_of y ++ (bytes_of y ++ rest))
        ≡ (before ++ bytes_of y) ++ (directory_bytes (y ∷ ys) ++ spare) =
      sym (append_assoc before (bytes_of y) (bytes_of y ++ rest))
      ∙ ap (λ (l : List ℕ). (before ++ bytes_of y) ++ l)
          (sym (append_assoc (bytes_of y) (directory_bytes ys) spare)) in
    let back : (before ++ bytes_of y) ++ (directory_bytes ys ++ refilled spare)
        ≡ before ++ (directory_bytes (y ∷ ys) ++ refilled spare) =
      append_assoc before (bytes_of y) (directory_bytes ys ++ refilled spare)
      ∙ ap (λ (l : List ℕ). before ++ l)
          (sym (append_assoc (bytes_of y) (directory_bytes ys) (refilled spare))) in
    ap (λ b. shift_entries b (suc (suc (length ys))) file) block
    ∙ shift_step before (bytes_of e) (bytes_of y) rest (suc (length ys)) file at (omega arith)
        (length-bytes_of e v) (length-bytes_of y vs.0)
    ∙ ap (λ b. shift_entries b (suc (length ys)) (file + 1)) moved
    ∙ shift_entries_lem (before ++ bytes_of y) spare y ys (file + 1)
        (omega (arith, length-append before (bytes_of y), length-bytes_of y vs.0)) (omega arith)
        vs.0 vs.1 long
    ∙ ap ok back

-- `fs` is `es` without the first entry that has the inode number.
pub data IsRemoved (f : ℕ) : List DirEntry → List DirEntry → Type 0 where
  taken : {e : DirEntry} {es : List DirEntry} → e.inode_num ≡ f → IsRemoved f (e ∷ es) es
  kept :
      {e : DirEntry} {es fs : List DirEntry}
      → e.inode_num ≢ f
      → IsRemoved f es fs
      → IsRemoved f (e ∷ es) (e ∷ fs)

length-removed : {f : ℕ} {es fs : List DirEntry} → IsRemoved f es fs → length es ≡ suc (length fs)
length-removed (taken _) = refl
length-removed (kept _ r) = ap suc (length-removed r)

AreDirEntries-removed :
    {f : ℕ} {es fs : List DirEntry} → IsRemoved f es fs → AreDirEntries es → AreDirEntries fs
AreDirEntries-removed (taken _) v = v.1
AreDirEntries-removed (kept _ r) v = (v.0, AreDirEntries-removed r v.1)

remove_entry_lem :
    (before spare : List ℕ) (f file : ℕ) (es fs : List DirEntry)
    → IsRemoved f es fs
    → file * 36 ≡ length before
    → file + length es < dir_file_count_max
    → AreDirEntries es
    → 36 ≤ length spare
    → remove_entry (before ++ (directory_bytes es ++ spare)) f (length es) file
      ≡ ok (before ++ (directory_bytes fs ++ refilled spare), true)
unfolding remove_entry
remove_entry_lem before spare f file [] fs r at inside v long = elim r [ ]
remove_entry_lem before spare f file (e ∷ es) fs (taken same) at inside v long =
    let shape =
      ap (λ (l : List ℕ). before ++ l) (append_assoc (bytes_of e) (directory_bytes es) spare) in
    let number =
      ap (λ b. entry_inode b file) shape
      ∙ entry_inode_lem before (directory_bytes es ++ spare) e file at (omega arith) v.0 in
    let test : (e.inode_num == f) ≡ true = ground (arith, same) in
    rw (number, test, shift_entries_lem before spare e es file at inside v.0 v.1 long) (refl)
remove_entry_lem before spare f file (e ∷ es) (_ ∷ fs) (kept other r) at inside v long =
    let shape =
      ap (λ (l : List ℕ). before ++ l) (append_assoc (bytes_of e) (directory_bytes es) spare) in
    let number =
      ap (λ b. entry_inode b file) shape
      ∙ entry_inode_lem before (directory_bytes es ++ spare) e file at (omega arith) v.0 in
    let test : (e.inode_num == f) ≡ false = ground (arith, other) in
    let moved = shape ∙ sym (append_assoc before (bytes_of e) (directory_bytes es ++ spare)) in
    let back : (before ++ bytes_of e) ++ (directory_bytes fs ++ refilled spare)
        ≡ before ++ (directory_bytes (e ∷ fs) ++ refilled spare) =
      append_assoc before (bytes_of e) (directory_bytes fs ++ refilled spare)
      ∙ ap (λ (l : List ℕ). before ++ l)
          (sym (append_assoc (bytes_of e) (directory_bytes fs) (refilled spare))) in
    let rest =
      remove_entry_lem (before ++ bytes_of e) spare f (file + 1) es fs r
        (omega (arith, length-append before (bytes_of e), length-bytes_of e v.0)) (omega arith) v.1
        long in
    rw (number, test)
      (ap (λ b. remove_entry b f (length es) (file + 1)) moved ∙ rest ∙ ap (λ b. ok (b, true)) back)

-- `unlink_file_in_dir` returns in a directory with fewer than 113 entries of which one has the inode
-- number: the first such entry is gone, and the others stand in their order.
pub unlink_file_in_dir-IsDirectory :
    (fs : FileSystem) (d f : ℕ) (es left : List DirEntry)
    → IsDirectory fs d es
    → IsRemoved f es left
    → length es < dir_file_count_max
    → (out : FileSystem) × (unlink_file_in_dir fs d f ≡ ok out) × IsDirectory out d left
unlink_file_in_dir-IsDirectory fs d f es left v r room =
    let long = spare_long es v.spare v.entries v.whole room in
    let removed =
      remove_entry_lem [] v.spare f 0 es left r (omega arith) (omega (arith, room)) v.entries
        long in
    let count : v.inode.size / dir_entry_size ≡ length es = omega (arith, v.size) in
    let bytes = directory_bytes left ++ refilled v.spare in
    let inode : FileSystemInode = record v.inode { size = sub32 v.inode.size dir_entry_size } in
    let fewer = length-removed r in
    (
      write_block (record fs { inode_table = set fs.inode_table d inode }) v.inode.data_block_start
          bytes,
      unfold unlink_file_in_dir in rw (v.known, v.block, count, removed) (refl),
      record {
        inode = inode;
        spare = refilled v.spare;
        known = get_elem?-set_self fs.inode_table d inode (get_elem?-lt fs.inode_table d v.known);
        directory = v.directory;
        block = rw (same_block v.inode.data_block_start) (refl);
        whole = omega (
          arith,
          v.whole,
          length-append (directory_bytes es) v.spare,
          length-append (directory_bytes left) (refilled v.spare),
          length-append (take 36 v.spare) v.spare,
          length-take 36 v.spare long,
          length-directory_bytes es v.entries,
          length-directory_bytes left (AreDirEntries-removed r v.entries),
          fewer,
        );
        size = omega (arith, v.size, fewer, room);
        fits = omega (arith, v.fits, fewer);
        entries = AreDirEntries-removed r v.entries;
      },
    )
