-- ===== src/Fs/State/Entries.antt =====
-- A directory block as the list of its entries.
use mathlib.Core.List.{append_assoc}
use yo_rha.Base.{
  ℕ, ◌+◌, ◌*◌, ◌^◌, ◌<◌, ◌≡◌, refl, sym, ap, ◌∙◌, arith, true, List, [], ◌∷◌, ◌++◌, ltb, length,
  length-append, drop, take-append, drop-append, get_or, get_or-append,
}
use yo_rha.Base.Outcome.{ok}
use yo_rha.Cstring.Laws.{IsText, terminated}
use yo_rha.Fs.State.{
  dir_file_count_max, number_bytes, entry_name, entry_inode, entry_bytes, set_entry_bytes,
}

-- `junk` stands behind the zero of the name.
pub record DirEntry : Type 0 where
  pub name : List ℕ
  pub junk : List ℕ
  pub inode_num : ℕ

pub record IsDirEntry (e : DirEntry) : Type 0 where
  pub named : IsText e.name
  pub name_bytes : length e.name + (1 + length e.junk) ≡ 32
  pub word : e.inode_num < 2 ^ 32

abbrev pub AreDirEntries : List DirEntry → Type 0
AreDirEntries [] = Unit
AreDirEntries (e ∷ es) = IsDirEntry e × AreDirEntries es

abbrev pub bytes_of : DirEntry → List ℕ
bytes_of e = terminated e.name e.junk ++ number_bytes e.inode_num

abbrev pub directory_bytes : List DirEntry → List ℕ
directory_bytes [] = []
directory_bytes (e ∷ es) = bytes_of e ++ directory_bytes es

pub length-terminated : (e : DirEntry) → IsDirEntry e → length (terminated e.name e.junk) ≡ 32
length-terminated e v = omega (arith, length-append e.name (0 ∷ e.junk), v.name_bytes)

pub length-bytes_of : (e : DirEntry) → IsDirEntry e → length (bytes_of e) ≡ 36
length-bytes_of e v = omega (
  arith,
  length-append (terminated e.name e.junk) (number_bytes e.inode_num),
  length-terminated e v,
)

pub length-directory_bytes :
    (es : List DirEntry) → AreDirEntries es → length (directory_bytes es) ≡ length es * 36
length-directory_bytes [] v = refl
length-directory_bytes (e ∷ es) v = omega (
  arith,
  length-append (bytes_of e) (directory_bytes es),
  length-bytes_of e v.0,
  length-directory_bytes es v.1,
)

-- An entry between what stands before it and behind it.
module _ (before bytes after : List ℕ) (file : ℕ) (at : file * 36 ≡ length before)
    (inside : file < dir_file_count_max) where
  in_array : ltb file dir_file_count_max ≡ true
  in_array = ground arith

  pub entry_bytes_lem : length bytes ≡ 36 → entry_bytes (before ++ (bytes ++ after)) file ≡ ok bytes
  unfolding entry_bytes
  entry_bytes_lem whole =
      rw
        (
          in_array,
          drop-append before (bytes ++ after) (file * 36) at,
          take-append bytes after 36 (sym whole),
        )
        (refl)

  pub set_entry_bytes_lem :
      (new : List ℕ)
      → length bytes ≡ 36
      → set_entry_bytes (before ++ (bytes ++ after)) file new ≡ ok (before ++ (new ++ after))
  unfolding set_entry_bytes
  set_entry_bytes_lem new whole =
      let past : drop (file * 36 + 36) (before ++ (bytes ++ after)) ≡ after =
        rw (sym (append_assoc before bytes after)) (
          drop-append (before ++ bytes) after (file * 36 + 36)
            (omega (arith, length-append before bytes))) in
      rw (in_array, take-append before (bytes ++ after) (file * 36) at, past) (refl)

module _ (before after : List ℕ) (e : DirEntry) (file : ℕ) (at : file * 36 ≡ length before)
    (inside : file < dir_file_count_max) (v : IsDirEntry e) where
  pub entry_name_lem :
      entry_name (before ++ (bytes_of e ++ after)) file ≡ ok (terminated e.name e.junk)
  unfolding entry_name
  entry_name_lem =
      let test : ltb file dir_file_count_max ≡ true = ground arith in
      rw
        (
          test,
          drop-append before (bytes_of e ++ after) (file * 36) at,
          append_assoc (terminated e.name e.junk) (number_bytes e.inode_num) after,
          take-append (terminated e.name e.junk) (number_bytes e.inode_num ++ after) 32
              (sym (length-terminated e v)),
        )
        (refl)

  pub entry_inode_lem : entry_inode (before ++ (bytes_of e ++ after)) file ≡ ok e.inode_num
  unfolding entry_inode
  entry_inode_lem =
      let test : ltb file dir_file_count_max ≡ true = ground arith in
      let n = e.inode_num in
      let prefix = before ++ terminated e.name e.junk in
      let start : length prefix ≡ file * 36 + 32 =
        omega (arith, length-append before (terminated e.name e.junk), length-terminated e v) in
      let split : before ++ (bytes_of e ++ after) ≡ prefix ++ (number_bytes n ++ after) =
        ap (λ (l : List ℕ). before ++ l)
          (append_assoc (terminated e.name e.junk) (number_bytes n) after)
        ∙ sym (append_assoc before (terminated e.name e.junk) (number_bytes n ++ after)) in
      let byte : (i : ℕ)
          → i < 4
          → get_or (prefix ++ (number_bytes n ++ after)) (file * 36 + 32 + i) 0
            ≡ get_or (number_bytes n ++ after) i 0 =
        λ i lt.
          get_or-append prefix (number_bytes n ++ after) i (file * 36 + 32 + i) 0
            (omega (arith, start)) in
      let first =
        get_or-append prefix (number_bytes n ++ after) 0 (file * 36 + 32) 0
          (omega (arith, start)) in
      rw (test, split, first, byte 1 (omega arith), byte 2 (omega arith), byte 3 (omega arith))
        (ap ok (omega (arith, v.word)))
