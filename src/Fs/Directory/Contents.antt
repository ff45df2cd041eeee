-- ===== src/Fs/Directory/Contents.antt =====
-- A directory as the list of its entries: what `search_dir` finds and `link_file_in_dir` adds.
use yo_rha.Base.{
  ℕ, suc, ◌*◌, ◌/◌, ◌^◌, ◌≤◌, ◌<◌, ◌≡◌, ◌≢◌, refl, ◌∙◌, arith, true, List, [], ◌∷◌, ◌++◌, Option,
  none, some, ◌==◌, length, length-append, length-take, length-drop, take, drop, get_elem?,
  get_elem?-set_self, get_elem?-lt, set, ap,
}
use yo_rha.Base.Outcome.{ok}
use yo_rha.Base.Word.{add32}
use yo_rha.Cstring.Laws.{IsText, terminated, strcpy_lem}
use yo_rha.Fs.State.{
  FileSystem, FileSystemInode, block_bytes, dir_file_count_max, dir_entry_size, minus_one,
  untraceable_path, write_block,
}
use yo_rha.Fs.State.Entries.{DirEntry, IsDirEntry, AreDirEntries, bytes_of, directory_bytes}
use yo_rha.Fs.State.Append.{
  AreDirEntries-snoc, spare_long, old_entry_lem, appended_lem, appended_whole,
}
use yo_rha.Fs.Path.{push_error}
use yo_rha.Fs.Path.Lookup.{IsLookup, first, later, find_entry_lem}
use yo_rha.Fs.Directory.{search_dir, new_entry, link_file_in_dir}

-- Inode `d` is a directory with these entries, whose block ends with `spare`.
pub record IsDirectory (fs : FileSystem) (d : ℕ) (es : List DirEntry) : Type 0 where
  pub inode : FileSystemInode
  pub spare : List ℕ
  pub known : get_elem? fs.inode_table d ≡ some inode
  pub directory : inode.file_type ≡ 0
  pub block : fs.disk inode.data_block_start ≡ directory_bytes es ++ spare
  pub whole : length (directory_bytes es ++ spare) ≡ block_bytes
  pub size : inode.size ≡ length es * 36
  pub fits : length es ≤ dir_file_count_max
  pub entries : AreDirEntries es

-- The result for what was found.
abbrev pub searched : FileSystem → Option ℕ → ℕ × FileSystem
searched fs none = (minus_one, record fs { error_msg = untraceable_path })
searched fs (some inode_num) = (inode_num, fs)

-- `search_dir` of a text in a directory returns the inode number of the first entry with the name
-- and changes nothing, or it returns -1 and leaves a message if no entry has the name.
pub search_dir_lem :
    (fs : FileSystem) (d : ℕ) (es : List DirEntry) (t rest : List ℕ)
    → IsDirectory fs d es
    → IsText t
    → (n : Option ℕ) × IsLookup t es n × (search_dir fs d (terminated t rest) ≡ ok (searched fs n))
search_dir_lem fs d es t rest v vt =
    let found =
      find_entry_lem [] es v.spare t rest 0 (omega arith) (omega (arith, v.fits)) v.entries vt in
    let test : (v.inode.file_type == 0) ≡ true = ground (arith, v.directory) in
    let count : v.inode.size / dir_entry_size ≡ length es = omega (arith, v.size) in
    (
      found.0,
      found.1,
      (unfold search_dir in rw (v.known, test, v.block, count, found.2) (shown found.0)),
    )
  where
    shown :
        (n : Option ℕ)
        → ok (elim n [
          | none ↦ (minus_one, push_error fs untraceable_path)
          | some inode_num ↦ (inode_num, fs)
        ])
          ≡ ok (searched fs n)
    shown none = refl
    shown (some i) = refl

-- The new entry for a name, over the 36 bytes that it replaces.
abbrev entry_over : List ℕ → List ℕ → ℕ → DirEntry
entry_over old t f = record { name = t; junk = drop (suc (length t)) (take 32 old); inode_num = f }

module _ (old t rest : List ℕ) (f : ℕ) (long : length old ≡ 36) (vt : IsText t)
    (short : length t < 32) (word : f < 2 ^ 32) where
  entry_over-IsDirEntry : IsDirEntry (entry_over old t f)
  entry_over-IsDirEntry = record {
    named = vt;
    name_bytes = omega (
      arith,
      length-take 32 old (omega arith),
      length-drop (suc (length t)) (take 32 old) (omega (arith, length-take 32 old (omega arith))),
    );
    word = word;
  }

  new_entry_lem : new_entry old f (terminated t rest) ≡ ok (bytes_of (entry_over old t f))
  unfolding new_entry
  new_entry_lem =
      rw (strcpy_lem (take 32 old) t rest vt (omega (arith, length-take 32 old (omega arith))))
        (refl)

pub same_block : (b : ℕ) → (b == b) ≡ true
same_block b = ground arith

-- The directory and the file are known, and the file's name fits in an entry.
pub record IsLinked (fs : FileSystem) (d f : ℕ) (es : List DirEntry) (t : List ℕ) : Type 0 where
  pub out : FileSystem
  pub entry : DirEntry
  pub returns : link_file_in_dir fs d f ≡ ok out
  pub directory : IsDirectory out d (es ++ entry ∷ [])
  pub name : entry.name ≡ t
  pub number : entry.inode_num ≡ f

-- `link_file_in_dir` of a file whose name has fewer than 32 characters, in a directory with fewer
-- than 113 entries, returns, and the directory then has the entries that it had and behind them one
-- with the name and the number of the file.
pub link_file_in_dir-IsLinked :
    (fs : FileSystem) (d f : ℕ) (es : List DirEntry) (t rest : List ℕ) (file : FileSystemInode)
    → IsDirectory fs d es
    → get_elem? fs.inode_table f ≡ some file
    → file.name ≡ terminated t rest
    → IsText t
    → length t < 32
    → f < 2 ^ 32
    → length es < dir_file_count_max
    → IsLinked fs d f es t
link_file_in_dir-IsLinked fs d f es t rest file v known named vt short word room =
    let old = take 36 v.spare in
    let long = length-take 36 v.spare (spare_long es v.spare v.entries v.whole room) in
    let e = entry_over old t f in
    let w = entry_over-IsDirEntry old t rest f long vt short word in
    let count : v.inode.size / dir_entry_size ≡ length es = omega (arith, v.size) in
    let bytes = directory_bytes (es ++ e ∷ []) ++ drop 36 v.spare in
    let inode : FileSystemInode = record v.inode { size = add32 v.inode.size dir_entry_size } in
    let longer : length (es ++ e ∷ []) ≡ suc (length es) =
      omega (arith, length-append es (e ∷ [])) in
    record {
      out =
          write_block (record fs { inode_table = set fs.inode_table d inode })
            v.inode.data_block_start bytes;
      entry = e;
      returns =
          unfold link_file_in_dir in
          rw
            (
              v.known,
              known,
              v.block,
              count,
              old_entry_lem es v.spare v.entries v.whole room,
              named,
              new_entry_lem old t rest f long vt short word,
              appended_lem es v.spare v.entries v.whole room e,
            )
            (refl);
      directory = record {
        inode = inode;
        spare = drop 36 v.spare;
        known = get_elem?-set_self fs.inode_table d inode (get_elem?-lt fs.inode_table d v.known);
        directory = v.directory;
        block = rw (same_block v.inode.data_block_start) (refl);
        whole = appended_whole es v.spare v.entries v.whole room e w;
        size = omega (arith, v.size, longer);
        fits = omega (arith, longer);
        entries = AreDirEntries-snoc es e v.entries w;
      };
      name = refl;
      number = refl;
    }

-- No entry has the name.
abbrev pub NoName : List ℕ → List DirEntry → Type 0
NoName t [] = Unit
NoName t (e ∷ es) = (e.name ≢ t) × NoName t es

lookup_last :
    (t : List ℕ) (es : List DirEntry) (e : DirEntry) {n : Option ℕ}
    → NoName t es
    → e.name ≡ t
    → IsLookup t (es ++ e ∷ []) n
    → n ≡ some e.inode_num
lookup_last t [] e h same (first _) = refl
lookup_last t [] e h same (later other _) = absurd (other same)
lookup_last t (x ∷ xs) e h same (first eq) = absurd (h.0 eq)
lookup_last t (x ∷ xs) e h same (later _ l) = lookup_last t xs e h.1 same l

-- `link_file_in_dir` of a file whose name has fewer than 32 characters, in a directory with fewer
-- than 113 entries and none with this name, returns, and `search_dir` then finds the file under its
-- name and changes nothing.
pub search_dir-link_file_in_dir :
    (fs : FileSystem) (d f : ℕ) (es : List DirEntry) (t rest more : List ℕ) (file : FileSystemInode)
    → IsDirectory fs d es
    → get_elem? fs.inode_table f ≡ some file
    → file.name ≡ terminated t rest
    → IsText t
    → length t < 32
    → f < 2 ^ 32
    → length es < dir_file_count_max
    → NoName t es
    → (out : FileSystem) × (link_file_in_dir fs d f ≡ ok out)
      × (search_dir out d (terminated t more) ≡ ok (f, out))
search_dir-link_file_in_dir fs d f es t rest more file v known named vt short word room new =
    let l = link_file_in_dir-IsLinked fs d f es t rest file v known named vt short word room in
    let found = search_dir_lem l.out d (es ++ l.entry ∷ []) t more l.directory vt in
    let number : found.0 ≡ some f =
      lookup_last t es l.entry new l.name found.1 ∙ ap (λ (n : ℕ). some n) l.number in
    (l.out, l.returns, found.2 ∙ ap (λ (n : Option ℕ). ok (searched l.out n)) number)
