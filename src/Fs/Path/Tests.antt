-- ===== src/Fs/Path/Tests.antt =====
-- The parts of a path.
use yo_rha.Base.{ℕ, ◌≡◌, arith, List, [], ◌∷◌, replicate}
use yo_rha.Base.Outcome.{ok}
use yo_rha.Cstring.Laws.{terminated}
use yo_rha.Fs.Path.{split_path}
use yo_rha.Fs.Path.Split.{split_path_lem}

abbrev buffer : List ℕ
buffer = replicate 8 7

-- `/a/b` is the file `b` of the directory `/a/`.
split_path_lem_example :
    (d n : List ℕ) × (split_path (b'/' ∷ b'a' ∷ b'/' ∷ b'b' ∷ 0 ∷ []) buffer buffer
      ≡ ok (record {
        dir_path = terminated (b'/' ∷ b'a' ∷ b'/' ∷ []) d;
        filename = terminated (b'b' ∷ []) n;
      }))
split_path_lem_example =
    split_path_lem (b'/' ∷ b'a' ∷ []) (b'b' ∷ []) [] buffer buffer (omega arith) (omega arith)
      (omega arith) (omega arith)
