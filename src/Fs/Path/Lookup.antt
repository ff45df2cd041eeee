-- ===== src/Fs/Path/Lookup.antt =====
-- The search for a name in a directory block.
use mathlib.Core.List.{append_assoc}
use yo_rha.Base.{
  ℕ, zero, suc, ◌+◌, ◌*◌, ◌≤◌, ◌<◌, ◌≡◌, ◌≢◌, refl, sym, ap, ◌∙◌, ◌⊎◌, inl, inr, arith, Option,
  none, some, List, [], ◌∷◌, ◌++◌, length, length-append,
}
use yo_rha.Base.Int.{ℤ, pos, negsuc}
use yo_rha.Base.Outcome.{ok}
use yo_rha.Cstring.{strcmp}
use yo_rha.Cstring.Laws.{IsText, terminated, strcmp_cases}
use yo_rha.Fs.State.{dir_file_count_max, entry_name, entry_inode}
use yo_rha.Fs.State.Entries.{
  DirEntry, AreDirEntries, bytes_of, directory_bytes, length-bytes_of, entry_name_lem,
  entry_inode_lem,
}
use yo_rha.Fs.Path.{find_entry}

-- `n` is the inode number of the first entry with the name, `none` if there is no such entry.
pub data IsLookup (t : List ℕ) : List DirEntry → Option ℕ → Type 0 where
  absent : IsLookup t [] none
  first : {e : DirEntry} {es : List DirEntry} → e.name ≡ t → IsLookup t (e ∷ es) (some e.inode_num)
  later :
      {e : DirEntry} {es : List DirEntry} {n : Option ℕ}
      → e.name ≢ t
      → IsLookup t es n
      → IsLookup t (e ∷ es) n

-- The step of the loop.
module _ (block : List ℕ) (left file inode_num : ℕ) (t rest u junk : List ℕ)
    (name : entry_name block file ≡ ok (terminated u junk))
    (inode : entry_inode block file ≡ ok inode_num) (vt : IsText t) (vu : IsText u) where
  pub find_entry_step :
      (u ≡ t) × (find_entry block (terminated t rest) (suc left) file ≡ ok (some inode_num))
      ⊎ (u ≢ t)
        × (find_entry block (terminated t rest) (suc left) file
            ≡ find_entry block (terminated t rest) left (file + 1))
  unfolding find_entry
  find_entry_step =
      go ((strcmp_cases u t junk rest vu vt).0) (strcmp_cases u t junk rest vu vt).1
        (strcmp_cases u t junk rest vu vt).2
    where
      go :
          (z : ℤ)
          → strcmp (terminated u junk) (terminated t rest) ≡ ok z
          → ((z ≡ pos 0) → (u ≡ t)) × ((u ≡ t) → (z ≡ pos 0))
          → (u ≡ t) × (find_entry block (terminated t rest) (suc left) file ≡ ok (some inode_num))
            ⊎ (u ≢ t)
              × (find_entry block (terminated t rest) (suc left) file
                  ≡ find_entry block (terminated t rest) left (file + 1))
      go (pos zero) e same = inl (same.0 refl, rw (name, e, inode) (refl))
      go (pos (suc k)) e same = inr (λ eq. ground (arith, same.1 eq), rw (name, e) (refl))
      go (negsuc k) e same = inr (λ eq. ground (arith, same.1 eq), rw (name, e) (refl))

-- The loop finds what there is to find, and so does the search for it in the abstract list.
pub find_entry_lem :
    (before : List ℕ) (es : List DirEntry) (spare t rest : List ℕ) (file : ℕ)
    → file * 36 ≡ length before
    → file + length es ≤ dir_file_count_max
    → AreDirEntries es
    → IsText t
    → (n : Option ℕ) × IsLookup t es n
      × (find_entry (before ++ (directory_bytes es ++ spare)) (terminated t rest) (length es) file
          ≡ ok n)
find_entry_lem before [] spare t rest file at room v vt = (none, absent, unfold find_entry in refl)
find_entry_lem before (e ∷ es) spare t rest file at room v vt =
    let block = before ++ (directory_bytes (e ∷ es) ++ spare) in
    let shape : block ≡ before ++ (bytes_of e ++ (directory_bytes es ++ spare)) =
      ap (λ (l : List ℕ). before ++ l) (append_assoc (bytes_of e) (directory_bytes es) spare) in
    let moved : block ≡ (before ++ bytes_of e) ++ (directory_bytes es ++ spare) =
      shape ∙ sym (append_assoc before (bytes_of e) (directory_bytes es ++ spare)) in
    let inside : file < dir_file_count_max = omega arith in
    let name =
      ap (λ b. entry_name b file) shape
      ∙ entry_name_lem before (directory_bytes es ++ spare) e file at inside v.0 in
    let inode =
      ap (λ b. entry_inode b file) shape
      ∙ entry_inode_lem before (directory_bytes es ++ spare) e file at inside v.0 in
    let more =
      find_entry_lem (before ++ bytes_of e) es spare t rest (file + 1)
        (omega (arith, length-append before (bytes_of e), length-bytes_of e v.0)) (omega arith) v.1
        vt in
    elim (find_entry_step block (length es) file e.inode_num t rest e.name e.junk name inode vt
      v.0.named) [
        | inl (same, found) ↦ (some e.inode_num, first same, found)
        | inr (other, next) ↦ (
          more.0,
          later other more.1,
          next ∙ ap (λ b. find_entry b (terminated t rest) (length es) (file + 1)) moved ∙ more.2,
        )
      ]
