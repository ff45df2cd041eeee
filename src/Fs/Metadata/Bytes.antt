-- ===== src/Fs/Metadata/Bytes.antt =====
-- The structs of the metadata and their bytes.
use mathlib.Core.List.{append_assoc}
use yo_rha.Base.{
  ℕ, ◌+◌, ◌*◌, ◌/◌, ◌%◌, ◌^◌, ◌<◌, ◌≡◌, refl, sym, ap, List, [], ◌∷◌, ◌++◌, arith, length,
  length-append, get_or-append, take-append, drop-append,
}
use yo_rha.Fs.State.{FileSystemSuper, FileSystemInode, number_at}
use yo_rha.Fs.Metadata.{
  super_numbers, super_bytes, super_at, words_bytes, words_at, inode_size, inode_numbers,
  inode_bytes, inode_at, table_bytes, table_at,
}

abbrev pub AreWords : List ℕ → Type 0
AreWords [] = Unit
AreWords (w ∷ ws) = (w < 2 ^ 32) × AreWords ws

-- The name has the 32 bytes of its array, and the numbers have 32 bits.
pub record IsInode (i : FileSystemInode) : Type 0 where
  pub name_bytes : length i.name ≡ 32
  pub block_word : i.data_block_start < 2 ^ 32
  pub size_word : i.size < 2 ^ 32
  pub parent_word : i.parent_inode_num < 2 ^ 32

abbrev pub AreInodes : List FileSystemInode → Type 0
AreInodes [] = Unit
AreInodes (i ∷ is) = IsInode i × AreInodes is

pub record IsSuper (s : FileSystemSuper) : Type 0 where
  pub indicator_bytes : length s.format_indicator ≡ 16
  pub size_word : s.disk_size < 2 ^ 64
  pub sector_word : s.sector_count < 2 ^ 32
  pub block_word : s.block_count < 2 ^ 32
  pub i_bmap_word : s.i_bmap_start < 2 ^ 32
  pub d_bmap_word : s.d_bmap_start < 2 ^ 32
  pub table_word : s.inode_table_start < 2 ^ 32
  pub used_word : s.used_inodes < 2 ^ 32
  pub data_word : s.data_start < 2 ^ 32

number_at-append :
    (xs ys : List ℕ) (i n : ℕ) → n ≡ length xs + i → number_at (xs ++ ys) n ≡ number_at ys i
number_at-append xs ys i n at =
    rw
      (
        get_or-append xs ys i n 0 at,
        get_or-append xs ys (i + 1) (n + 1) 0 (omega (arith, at)),
        get_or-append xs ys (i + 2) (n + 2) 0 (omega (arith, at)),
        get_or-append xs ys (i + 3) (n + 3) 0 (omega (arith, at)),
      )
      (refl)

-- The four bytes of a number are the number.
number_lem :
    (n : ℕ)
    → n < 2 ^ 32
    → n % 256
        + 2 ^ 8 * (n / 2 ^ 8 % 256)
        + 2 ^ 16 * (n / 2 ^ 16 % 256)
        + 2 ^ 24 * (n / 2 ^ 24 % 256)
      ≡ n
number_lem n small = omega arith

pub words_at-words_bytes :
    (ws rest : List ℕ) → AreWords ws → words_at (length ws) (words_bytes ws ++ rest) ≡ ws
unfolding words_at
words_at-words_bytes [] rest small = refl
words_at-words_bytes (w ∷ ws) rest small =
    rw (number_lem w small.0) (ap (λ (l : List ℕ). w ∷ l) (words_at-words_bytes ws rest small.1))

pub inode_at-inode_bytes :
    (i : FileSystemInode) (rest : List ℕ) → IsInode i → inode_at (inode_bytes i ++ rest) ≡ i
unfolding inode_at
inode_at-inode_bytes i rest v =
    let behind = inode_numbers i ++ rest in
    rw
      (
        append_assoc i.name (inode_numbers i) rest,
        take-append i.name behind 32 (sym v.name_bytes),
        get_or-append i.name behind 0 32 0 (omega (arith, v.name_bytes)),
        number_at-append i.name behind 4 36 (omega (arith, v.name_bytes)),
        number_at-append i.name behind 8 40 (omega (arith, v.name_bytes)),
        number_at-append i.name behind 12 44 (omega (arith, v.name_bytes)),
        number_lem i.data_block_start v.block_word,
        number_lem i.size v.size_word,
        number_lem i.parent_inode_num v.parent_word,
      )
      (refl)

length-inode_bytes : (i : FileSystemInode) → IsInode i → length (inode_bytes i) ≡ 48
length-inode_bytes i v = omega (arith, length-append i.name (inode_numbers i), v.name_bytes)

pub table_at-table_bytes :
    (is : List FileSystemInode) (rest : List ℕ)
    → AreInodes is
    → table_at (length is) (table_bytes is ++ rest) ≡ is
unfolding table_at
table_at-table_bytes [] rest v = refl
table_at-table_bytes (i ∷ is) rest v =
    rw
      (
        append_assoc (inode_bytes i) (table_bytes is) rest,
        inode_at-inode_bytes i (table_bytes is ++ rest) v.0,
        drop-append (inode_bytes i) (table_bytes is ++ rest) inode_size
            (sym (length-inode_bytes i v.0)),
        table_at-table_bytes is rest v.1,
      )
      (refl)

pub length-words_bytes : (ws : List ℕ) → length (words_bytes ws) ≡ 4 * length ws
length-words_bytes [] = refl
length-words_bytes (w ∷ ws) = omega (arith, length-words_bytes ws)

pub length-table_bytes :
    (is : List FileSystemInode) → AreInodes is → length (table_bytes is) ≡ 48 * length is
length-table_bytes [] v = refl
length-table_bytes (i ∷ is) v = omega (
  arith,
  length-append (inode_bytes i) (table_bytes is),
  length-inode_bytes i v.0,
  length-table_bytes is v.1,
)

pub super_at-super_bytes :
    (s : FileSystemSuper) (rest : List ℕ) → IsSuper s → super_at (super_bytes s ++ rest) ≡ s
unfolding super_at
super_at-super_bytes s rest v =
    let behind = super_numbers s ++ rest in
    let field : (i n : ℕ)
        → n ≡ 16 + i
        → number_at (s.format_indicator ++ behind) n ≡ number_at behind i =
      λ i n at.
        number_at-append s.format_indicator behind i n (omega (arith, at, v.indicator_bytes)) in
    let high : s.disk_size / 2 ^ 32 < 2 ^ 32 = omega (arith, v.size_word) in
    let low = number_lem (s.disk_size % 2 ^ 32) (omega arith) in
    rw
      (
        append_assoc s.format_indicator (super_numbers s) rest,
        take-append s.format_indicator behind 16 (sym v.indicator_bytes),
        field 0 16 refl,
        field 4 20 refl,
        field 8 24 refl,
        field 12 28 refl,
        field 16 32 refl,
        field 20 36 refl,
        field 24 40 refl,
        field 28 44 refl,
        field 32 48 refl,
        number_lem (s.disk_size / 2 ^ 32) high,
        number_lem s.sector_count v.sector_word,
        number_lem s.block_count v.block_word,
        number_lem s.i_bmap_start v.i_bmap_word,
        number_lem s.d_bmap_start v.d_bmap_word,
        number_lem s.inode_table_start v.table_word,
        number_lem s.used_inodes v.used_word,
        number_lem s.data_start v.data_word,
      )
      (ap (λ (n : ℕ). record s { disk_size = n }) (omega (arith, v.size_word)))

pub length-super_bytes : (s : FileSystemSuper) → IsSuper s → length (super_bytes s) ≡ 52
length-super_bytes s v =
    omega (arith, length-append s.format_indicator (super_numbers s), v.indicator_bytes)
