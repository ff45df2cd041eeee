-- ===== src/Fs/Metadata/RoundTrip.antt =====
-- The metadata that is written is the metadata that is read.
use mathlib.Core.List.{append-nil}
use yo_rha.Base.{
  ℕ, zero, suc, ◌+◌, ◌*◌, ◌≤◌, ◌<◌, ◌≡◌, refl, sym, ap, ◌∙◌, ◌⊎◌, inl, inr, true, false, List, [],
  ◌∷◌, ◌++◌, arith, ◌==◌, length, length-append, length-drop, take, drop, take-drop,
}
use yo_rha.Fs.State.{FileSystem, block_bytes, write_block}
use yo_rha.Fs.Metadata.{
  inode_count, bitmap_words, super_bytes, super_at, words_bytes, words_at, table_bytes, table_at,
  write_blocks, read_blocks, Behind, write_metadata, read_super, read_metadata,
}
use yo_rha.Fs.Metadata.Bytes.{
  AreWords, AreInodes, IsSuper, words_at-words_bytes, table_at-table_bytes, length-words_bytes,
  length-table_bytes, super_at-super_bytes, length-super_bytes,
}

pub write_blocks-other :
    (count : ℕ) (fs : FileSystem) (block j : ℕ) (bytes : List ℕ)
    → (j < block) ⊎ (block + count ≤ j)
    → (write_blocks count fs block bytes).disk j ≡ fs.disk j
unfolding write_blocks
write_blocks-other zero fs block j bytes apart = refl
write_blocks-other (suc count) fs block j bytes apart =
    let elsewhere : (j == block) ≡ false = ground arith in
    write_blocks-other count (write_block fs block (take block_bytes bytes)) (block + 1) j
      (drop block_bytes bytes) (next apart)
    ∙ rw elsewhere (refl)
  where
    next : (j < block) ⊎ (block + suc count ≤ j) → (j < block + 1) ⊎ (block + 1 + count ≤ j)
    next (inl lt) = inl (omega arith)
    next (inr le) = inr (omega arith)

read_blocks-write_blocks :
    (count : ℕ) (fs : FileSystem) (block : ℕ) (bytes : List ℕ)
    → length bytes ≡ count * block_bytes
    → read_blocks count (write_blocks count fs block bytes) block ≡ bytes
unfolding read_blocks write_blocks
read_blocks-write_blocks zero fs block [] whole = refl
read_blocks-write_blocks zero fs block (b ∷ bs) whole = absurd (omega arith)
read_blocks-write_blocks (suc count) fs block bytes whole =
    let fs' = write_block fs block (take block_bytes bytes) in
    let here : (block == block) ≡ true = ground arith in
    let first : (write_blocks count fs' (block + 1) (drop block_bytes bytes)).disk block
        ≡ take block_bytes bytes =
      write_blocks-other count fs' (block + 1) block (drop block_bytes bytes) (inl (omega arith))
      ∙ rw here (refl) in
    let rest =
      read_blocks-write_blocks count fs' (block + 1) (drop block_bytes bytes)
        (omega (arith, length-drop block_bytes bytes (omega arith), whole)) in
    rw (first, rest) (sym (take-drop block_bytes bytes))

read_blocks_same :
    (count : ℕ) (f g : FileSystem) (block : ℕ)
    → ((j : ℕ) → block ≤ j → j < block + count → f.disk j ≡ g.disk j)
    → read_blocks count f block ≡ read_blocks count g block
unfolding read_blocks
read_blocks_same zero f g block same = refl
read_blocks_same (suc count) f g block same =
    rw
      (
        same block (omega arith) (omega arith),
        read_blocks_same count f g (block + 1) (λ j lo hi. same j (omega arith) (omega arith)),
      )
      (refl)

pub take-append_more :
    (xs ys : List ℕ) (n k : ℕ) → n ≡ length xs + k → take n (xs ++ ys) ≡ xs ++ take k ys
take-append_more [] ys n k e = ap (λ (m : ℕ). take m ys) (omega (arith, e))
take-append_more (x ∷ xs) ys zero k e = absurd (omega (arith, e))
take-append_more (x ∷ xs) ys (suc n) k e =
    ap (λ (l : List ℕ). x ∷ l) (take-append_more xs ys n k (omega (arith, e)))

-- The sizes of the arrays, and the places of the metadata on the disk: one behind the other.
pub record IsMetadata (fs : FileSystem) : Type 0 where
  pub super_valid : IsSuper fs.super
  pub ibmap_words : length fs.ibmap ≡ bitmap_words
  pub ibmap_valid : AreWords fs.ibmap
  pub dbmap_words : length fs.dbmap ≡ bitmap_words
  pub dbmap_valid : AreWords fs.dbmap
  pub table_length : length fs.inode_table ≡ inode_count
  pub table_valid : AreInodes fs.inode_table
  pub behind_super : 0 < fs.super.i_bmap_start
  pub behind_ibmap : fs.super.i_bmap_start < fs.super.d_bmap_start
  pub behind_dbmap : fs.super.d_bmap_start < fs.super.inode_table_start

-- Whole blocks are written.
pub record AreWholeBlocks (behind : Behind) : Type 0 where
  pub super_block : 52 + length behind.behind_super ≡ block_bytes
  pub table_blocks : 48 * inode_count + length behind.behind_table ≡ 5 * block_bytes

module _ (behind : Behind) (fs : FileSystem) (v : IsMetadata fs) (w : AreWholeBlocks behind) where
  abbrev s1 : FileSystem
  s1 = write_blocks 1 fs 0 (super_bytes fs.super ++ behind.behind_super)

  abbrev s2 : FileSystem
  s2 = write_blocks 1 s1 fs.super.i_bmap_start (words_bytes fs.ibmap)

  abbrev s3 : FileSystem
  s3 = write_blocks 1 s2 fs.super.d_bmap_start (words_bytes fs.dbmap)

  abbrev s4 : FileSystem
  s4 =
      write_blocks 5 s3 fs.super.inode_table_start
        (table_bytes fs.inode_table ++ behind.behind_table)

  from_s3 : (j : ℕ) → j < fs.super.inode_table_start → s4.disk j ≡ s3.disk j
  from_s3 j lt =
      write_blocks-other 5 s3 fs.super.inode_table_start j
        (table_bytes fs.inode_table ++ behind.behind_table) (inl lt)

  from_s2 : (j : ℕ) → j < fs.super.d_bmap_start → s4.disk j ≡ s2.disk j
  from_s2 j lt =
      from_s3 j (omega (arith, v.behind_dbmap))
      ∙ write_blocks-other 1 s2 fs.super.d_bmap_start j (words_bytes fs.dbmap) (inl lt)

  super_disk : s4.disk 0 ≡ super_bytes fs.super ++ behind.behind_super
  super_disk =
      from_s2 0 (omega (arith, v.behind_ibmap))
      ∙ write_blocks-other 1 s1 fs.super.i_bmap_start 0 (words_bytes fs.ibmap) (inl v.behind_super)
      ∙ sym (append-nil (s1.disk 0))
      ∙ (unfold read_blocks in
          read_blocks-write_blocks 1 fs 0 (super_bytes fs.super ++ behind.behind_super) (
            omega (
              arith,
              length-append (super_bytes fs.super) behind.behind_super,
              length-super_bytes fs.super v.super_valid,
              w.super_block,
            )))

  -- The disk after `write_metadata`, under other statics.
  module _ (boot : FileSystem) where
    abbrev mounted : FileSystem
    mounted = read_metadata (read_super (record boot { disk = s4.disk }))

    super_read : super_at (take 512 (s4.disk 0)) ≡ fs.super
    super_read =
        rw
          (
            super_disk,
            take-append_more (super_bytes fs.super) behind.behind_super 512 460
                (omega (arith, length-super_bytes fs.super v.super_valid)),
          )
          (super_at-super_bytes fs.super (take 460 behind.behind_super) v.super_valid)

    pub read_super-write_metadata :
        (read_super (record boot { disk = (write_metadata behind fs).disk })).super ≡ fs.super
    unfolding read_super write_metadata
    read_super-write_metadata = super_read

    -- The blocks of a bitmap or of the table, whatever the other statics are.
    from_disk :
        (x g : FileSystem) (count block : ℕ)
        → ((j : ℕ) → x.disk j ≡ s4.disk j)
        → ((j : ℕ) → block ≤ j → j < block + count → s4.disk j ≡ g.disk j)
        → read_blocks count x block ≡ read_blocks count g block
    from_disk x g count block disk same =
        read_blocks_same count x g block (λ j lo hi. disk j ∙ same j lo hi)

    words_read :
        (ws : List ℕ)
        → length ws ≡ bitmap_words
        → AreWords ws
        → words_at bitmap_words (words_bytes ws) ≡ ws
    words_read ws many small =
        ap (λ (n : ℕ). words_at n (words_bytes ws)) (sym many)
        ∙ ap (λ (b : List ℕ). words_at (length ws) b) (sym (append-nil (words_bytes ws)))
        ∙ words_at-words_bytes ws [] small

    table_read :
        table_at inode_count (table_bytes fs.inode_table ++ behind.behind_table) ≡ fs.inode_table
    table_read =
        ap (λ (n : ℕ). table_at n (table_bytes fs.inode_table ++ behind.behind_table))
          (sym v.table_length)
        ∙ table_at-table_bytes fs.inode_table behind.behind_table v.table_valid

    -- What `shutdown` writes to the disk, from metadata whose numbers fit their fields and whose
    -- blocks stand one behind the other, is what the next start reads back into the superblock, the
    -- two bitmaps and the inode table, whatever these held; nothing else changes.
    pub read_metadata-write_metadata :
        read_metadata (read_super (record boot { disk = (write_metadata behind fs).disk }))
        ≡ record boot {
          super = fs.super;
          ibmap = fs.ibmap;
          dbmap = fs.dbmap;
          inode_table = fs.inode_table;
          disk = (write_metadata behind fs).disk;
        }
    unfolding read_metadata read_super write_metadata
    read_metadata-write_metadata =
        let x : FileSystem = record boot { disk = s4.disk } in
        let ibmap_read =
          from_disk (record x { super = fs.super }) s2 1 fs.super.i_bmap_start (λ j. refl)
            (λ j lo hi. from_s2 j (omega (arith, v.behind_ibmap)))
          ∙ read_blocks-write_blocks 1 s1 fs.super.i_bmap_start (words_bytes fs.ibmap)
              (omega (arith, length-words_bytes fs.ibmap, v.ibmap_words)) in
        let dbmap_read =
          from_disk (record x { super = fs.super }) s3 1 fs.super.d_bmap_start (λ j. refl)
            (λ j lo hi. from_s3 j (omega (arith, v.behind_dbmap)))
          ∙ read_blocks-write_blocks 1 s2 fs.super.d_bmap_start (words_bytes fs.dbmap)
              (omega (arith, length-words_bytes fs.dbmap, v.dbmap_words)) in
        let blocks_read =
          from_disk (record x { super = fs.super }) s4 5 fs.super.inode_table_start (λ j. refl)
            (λ j lo hi. refl)
          ∙ read_blocks-write_blocks 5 s3 fs.super.inode_table_start
              (table_bytes fs.inode_table ++ behind.behind_table)
              (omega (
                arith,
                length-append (table_bytes fs.inode_table) behind.behind_table,
                length-table_bytes fs.inode_table v.table_valid,
                v.table_length,
                w.table_blocks,
              )) in
        rw
          (
            super_read,
            ibmap_read,
            dbmap_read,
            blocks_read,
            words_read fs.ibmap v.ibmap_words v.ibmap_valid,
            words_read fs.dbmap v.dbmap_words v.dbmap_valid,
            table_read,
          )
          (refl)
