-- ===== src/Fs/Listing/Tests.antt =====
-- The listing of a root directory with two files.
use yo_rha.Base.{ℕ, ◌≡◌, refl, arith, List, [], ◌∷◌, some, length, length-replicate, replicate}
use yo_rha.Base.Outcome.{ok}
use yo_rha.Cstring.Laws.{terminated}
use yo_rha.Heap.Sample.{new_block}
use yo_rha.Fs.Path.Root.{seek_directory-root}
use yo_rha.Fs.Directory.Sample.{files, inode, disk, disk-IsDirectory}
use yo_rha.Fs.Listing.{str_list_dir}
use yo_rha.Fs.Listing.Text.{listing, str_list_dir_lem}

-- `/a` and `/b` on two lines.
listing-files : listing (b'/' ∷ []) 0 files ≡ b'/' ∷ b'a' ∷ 10 ∷ b'/' ∷ b'b' ∷ []
listing-files = refl

junk : ℕ → List ℕ
junk p = replicate 65 7

junk_bytes : (p : ℕ) → length (junk p) ≡ 65
unfolding junk
junk_bytes p = length-replicate {A = ℕ} 65 7

str_list_dir_lem_example :
    (rest : List ℕ) × (str_list_dir junk disk (b'/' ∷ 0 ∷ [])
      ≡ ok (
        some (new_block.entry.base_ptr, terminated (listing (b'/' ∷ []) 0 files) rest),
        record disk { heap = new_block.out },
      ))
str_list_dir_lem_example =
    str_list_dir_lem junk disk disk (b'/' ∷ []) [] 0 new_block.entry.base_ptr new_block.out files
      (omega arith) (seek_directory-root disk (inode (0 ∷ []) 0 72) [] refl refl) (λ e. omega arith)
      disk-IsDirectory new_block.returns (omega (arith, junk_bytes new_block.entry.base_ptr))
      (omega arith)
