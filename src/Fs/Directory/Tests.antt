-- ===== src/Fs/Directory/Tests.antt =====
-- The theorems about directories, at a root directory with two files.
use yo_rha.Base.{ℕ, Option, ◌≡◌, refl, arith, [], ◌∷◌}
use yo_rha.Base.Outcome.{ok}
use yo_rha.Fs.State.{FileSystem}
use yo_rha.Fs.Path.Lookup.{IsLookup}
use yo_rha.Fs.Directory.{search_dir, link_file_in_dir, unlink_file_in_dir}
use yo_rha.Fs.Directory.Contents.{
  IsDirectory, IsLinked, searched, search_dir_lem, link_file_in_dir-IsLinked,
  search_dir-link_file_in_dir,
}
use yo_rha.Fs.Directory.Unlink.{taken, kept, unlink_file_in_dir-IsDirectory}
use yo_rha.Fs.Directory.Sample.{named, files, inode, disk, disk-IsDirectory}

search_dir_lem_example :
    (n : Option ℕ) × IsLookup (b'b' ∷ []) files n
    × (search_dir disk 0 (b'b' ∷ 0 ∷ []) ≡ ok (searched disk n))
search_dir_lem_example =
    search_dir_lem disk 0 files (b'b' ∷ []) [] disk-IsDirectory (λ e. omega arith, omega arith, tt)

link_file_in_dir-IsLinked_example : IsLinked disk 0 3 files (b'c' ∷ [])
link_file_in_dir-IsLinked_example =
    link_file_in_dir-IsLinked disk 0 3 files (b'c' ∷ []) [] (inode (b'c' ∷ 0 ∷ []) 1 0)
      disk-IsDirectory refl refl (λ e. omega arith, omega arith, tt) (omega arith) (omega arith)
      (omega arith)

search_dir-link_file_in_dir_example :
    (out : FileSystem) × (link_file_in_dir disk 0 3 ≡ ok out)
    × (search_dir out 0 (b'c' ∷ 0 ∷ []) ≡ ok (3, out))
search_dir-link_file_in_dir_example =
    search_dir-link_file_in_dir disk 0 3 files (b'c' ∷ []) [] [] (inode (b'c' ∷ 0 ∷ []) 1 0)
      disk-IsDirectory refl refl (λ e. omega arith, omega arith, tt) (omega arith) (omega arith)
      (omega arith) (λ e. ground arith, (λ e. ground arith, tt))

unlink_file_in_dir-IsDirectory_example :
    (out : FileSystem) × (unlink_file_in_dir disk 0 2 ≡ ok out)
    × IsDirectory out 0 (named b'a' 1 ∷ [])
unlink_file_in_dir-IsDirectory_example =
    unlink_file_in_dir-IsDirectory disk 0 2 files (named b'a' 1 ∷ []) disk-IsDirectory
      (kept (λ e. omega arith) (taken refl)) (omega arith)
