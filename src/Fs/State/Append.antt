-- ===== src/Fs/State/Append.antt =====
-- An entry more in a directory block.
use mathlib.Core.List.{append_assoc, append-nil}
use yo_rha.Base.{
  ℕ, ◌≤◌, ◌<◌, ◌≡◌, refl, sym, ap, ◌∙◌, arith, List, [], ◌∷◌, ◌++◌, length, length-append,
  length-take, length-drop, take-drop, take, drop,
}
use yo_rha.Base.Outcome.{ok}
use yo_rha.Fs.State.{block_bytes, dir_file_count_max, entry_bytes, set_entry_bytes}
use yo_rha.Fs.State.Entries.{
  DirEntry, IsDirEntry, AreDirEntries, bytes_of, directory_bytes, length-bytes_of,
  length-directory_bytes, entry_bytes_lem, set_entry_bytes_lem,
}

pub directory_bytes-append :
    (xs ys : List DirEntry) → directory_bytes (xs ++ ys) ≡ directory_bytes xs ++ directory_bytes ys
directory_bytes-append [] ys = refl
directory_bytes-append (x ∷ xs) ys =
    ap (λ (l : List ℕ). bytes_of x ++ l) (directory_bytes-append xs ys)
    ∙ sym (append_assoc (bytes_of x) (directory_bytes xs) (directory_bytes ys))

pub AreDirEntries-snoc :
    (es : List DirEntry) (e : DirEntry)
    → AreDirEntries es
    → IsDirEntry e
    → AreDirEntries (es ++ e ∷ [])
AreDirEntries-snoc [] e v w = (w, tt)
AreDirEntries-snoc (x ∷ xs) e v w = (v.0, AreDirEntries-snoc xs e v.1 w)

-- A directory block with the entry behind the last one written over.
module _ (es : List DirEntry) (spare : List ℕ) (v : AreDirEntries es)
    (whole : length (directory_bytes es ++ spare) ≡ block_bytes)
    (room : length es < dir_file_count_max) where
  pub spare_long : 36 ≤ length spare
  spare_long =
      omega (arith, whole, length-append (directory_bytes es) spare, length-directory_bytes es v)

  split_spare : directory_bytes es ++ spare ≡ directory_bytes es ++ (take 36 spare ++ drop 36 spare)
  split_spare = ap (λ (l : List ℕ). directory_bytes es ++ l) (take-drop 36 spare)

  pub old_entry_lem : entry_bytes (directory_bytes es ++ spare) (length es) ≡ ok (take 36 spare)
  old_entry_lem = rw split_spare (
      entry_bytes_lem (directory_bytes es) (take 36 spare) (drop 36 spare) (length es)
        (sym (length-directory_bytes es v)) room (length-take 36 spare spare_long))

  joined :
      (e : DirEntry)
      → directory_bytes es ++ (bytes_of e ++ drop 36 spare)
        ≡ directory_bytes (es ++ e ∷ []) ++ drop 36 spare
  joined e =
      sym (append_assoc (directory_bytes es) (bytes_of e) (drop 36 spare))
      ∙ ap (λ (l : List ℕ). l ++ drop 36 spare)
          (ap (λ (l : List ℕ). directory_bytes es ++ l) (sym (append-nil (bytes_of e)))
            ∙ sym (directory_bytes-append es (e ∷ [])))

  pub appended_lem :
      (e : DirEntry)
      → set_entry_bytes (directory_bytes es ++ spare) (length es) (bytes_of e)
        ≡ ok (directory_bytes (es ++ e ∷ []) ++ drop 36 spare)
  appended_lem e = rw split_spare (
      set_entry_bytes_lem (directory_bytes es) (take 36 spare) (drop 36 spare) (length es)
        (sym (length-directory_bytes es v)) room (bytes_of e) (length-take 36 spare spare_long)
      ∙ ap ok (joined e))

  pub appended_whole :
      (e : DirEntry)
      → IsDirEntry e
      → length (directory_bytes (es ++ e ∷ []) ++ drop 36 spare) ≡ block_bytes
  appended_whole e w = omega (
    arith,
    ap (λ (l : List ℕ). length l) (joined e),
    length-append (directory_bytes es) (bytes_of e ++ drop 36 spare),
    length-append (bytes_of e) (drop 36 spare),
    length-bytes_of e w,
    length-drop 36 spare spare_long,
    whole,
    length-append (directory_bytes es) spare,
  )
