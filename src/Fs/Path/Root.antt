-- ===== src/Fs/Path/Root.antt =====
-- The path of the root directory.
use yo_rha.Base.{ℕ, ◌≡◌, refl, true, arith, List, [], ◌∷◌, some, ◌==◌, get_elem?}
use yo_rha.Base.Outcome.{ok}
use yo_rha.Fs.State.{FileSystem, FileSystemInode}
use yo_rha.Fs.Path.{walk, seek_directory}

-- "/" leads to inode 0, if that is a directory.
pub seek_directory-root :
    (fs : FileSystem) (inode : FileSystemInode) (rest : List ℕ)
    → get_elem? fs.inode_table 0 ≡ some inode
    → inode.file_type ≡ 0
    → seek_directory fs (b'/' ∷ 0 ∷ rest) ≡ ok (0, fs)
unfolding seek_directory walk
seek_directory-root fs inode [] known directory =
    let test : (inode.file_type == 0) ≡ true = ground (arith, directory) in rw (known, test) (refl)
seek_directory-root fs inode (r ∷ rest) known directory =
    let test : (inode.file_type == 0) ≡ true = ground (arith, directory) in rw (known, test) (refl)
