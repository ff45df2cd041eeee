-- ===== src/System/Start/Mount.antt =====
-- A start after a shutdown.
use yo_rha.Base.{ℕ, ◌≡◌, refl, ap, ◌∙◌, List, [], ◌∷◌, ◌++◌, true, false, arith}
use yo_rha.Base.Int.{pos}
use yo_rha.Base.Outcome.{ok, ◌>>=◌, bind_ok}
use yo_rha.Cstring.{strcmp}
use yo_rha.Cstring.Laws.{IsText, terminated, strcmp_cases}
use yo_rha.Port.{Ports}
use yo_rha.Printf.{kprintf}
use yo_rha.Fs.State.{FileSystem, FileSystemSuper}
use yo_rha.Fs.Create.{close}
use yo_rha.Fs.Create.Close.{close_lem}
use yo_rha.Fs.Metadata.{write_metadata, read_super}
use yo_rha.Fs.Metadata.RoundTrip.{
  IsMetadata, AreWholeBlocks, read_super-write_metadata, read_metadata-write_metadata,
}
use yo_rha.System.{System}
use yo_rha.System.Start.{
  yorha, disk_recognized, shutting_down, clearing, syncing, open_system_files, Surroundings,
  is_recognized, initalize_file_system, close_files, shutdown,
}

close_files_lem :
    (fds : List ℕ) (fs fs' : FileSystem)
    → close_files fds fs ≡ ok fs'
    → fs' ≡ record fs { fd_bitmap = fs'.fd_bitmap }
unfolding close_files
close_files_lem [] fs fs' e = cc
close_files_lem (fd ∷ fds) fs fs' e =
    let b = bind_ok (close fs fd) (λ (r : ℕ × FileSystem). close_files fds r.1) fs' e in
    cc (close_files_lem fds b.0.1 fs' b.2, close_lem fs fd b.0 b.1)

pub yorha-IsText : IsText yorha
yorha-IsText = omega arith

pub recognized_lem :
    (fs : FileSystem) (rest : List ℕ)
    → fs.super.format_indicator ≡ terminated yorha rest
    → is_recognized fs ≡ ok true
unfolding is_recognized
recognized_lem fs rest marked =
    let compared = strcmp_cases yorha yorha rest [] yorha-IsText yorha-IsText in
    let equal : strcmp (terminated yorha rest) (yorha ++ 0 ∷ []) ≡ ok (pos 0) =
      compared.1 ∙ ap ok (compared.2.1 refl) in
    rw (marked, equal) (refl)

closed-IsMetadata :
    (fs fs' : FileSystem)
    → fs' ≡ record fs { fd_bitmap = fs'.fd_bitmap }
    → IsMetadata fs
    → IsMetadata fs'
closed-IsMetadata fs fs' e v = rw e (record {
  super_valid = v.super_valid;
  ibmap_words = v.ibmap_words;
  ibmap_valid = v.ibmap_valid;
  dbmap_words = v.dbmap_words;
  dbmap_valid = v.dbmap_valid;
  table_length = v.table_length;
  table_valid = v.table_valid;
  behind_super = v.behind_super;
  behind_ibmap = v.behind_ibmap;
  behind_dbmap = v.behind_dbmap;
})

-- What `shutdown` did when it returned.
record IsShut {D : Type 0} (around : Surroundings) (k k1 : System D) : Type 0 where
  fs : FileSystem
  closed : fs ≡ record k.fs { fd_bitmap = fs.fd_bitmap }
  written : k1.fs ≡ write_metadata around.behind fs

shutdown-IsShut :
    {D : Type 0} (around : Surroundings) (k k1 : System D)
    → shutdown around k ≡ ok k1
    → IsShut around k k1
unfolding shutdown
shutdown-IsShut around k k1 e =
    let a = bind_ok (kprintf around.stack k.screen (shutting_down ++ 0 ∷ []) []) _ k1 e in
    let b = bind_ok (kprintf around.stack a.0 (clearing ++ 0 ∷ []) []) _ k1 a.2 in
    let c = bind_ok (close_files k.system_fds k.fs) _ k1 b.2 in
    let d = bind_ok (kprintf around.stack b.0 (syncing ++ 0 ∷ []) []) _ k1 c.2 in
    record { fs = c.0; closed = close_files_lem k.system_fds k.fs c.0 c.1; written = cc (d.2) }

-- `initalize_file_system(false)` on the disk that a `shutdown` left, where the indicator was
-- "Yorha" and the metadata fitted its fields, recognises the disk: it goes on to open the system
-- files with the superblock, the bitmaps and the inode table that there were at the shutdown.
pub initalize_file_system-shutdown :
    {D : Type 0} (junk : ℕ → List ℕ) (ports : Ports D) (around : Surroundings)
    (k k1 boot : System D) (rest : List ℕ)
    → IsMetadata k.fs
    → AreWholeBlocks around.behind
    → k.fs.super.format_indicator ≡ terminated yorha rest
    → shutdown around k ≡ ok k1
    → initalize_file_system junk ports around false
        (record boot { fs = record boot.fs { disk = k1.fs.disk } })
      ≡ (kprintf around.stack boot.screen (disk_recognized ++ 0 ∷ []) [] >>= λ screen.
          open_system_files junk ports (record boot {
            fs = record boot.fs {
              super = k.fs.super;
              ibmap = k.fs.ibmap;
              dbmap = k.fs.dbmap;
              inode_table = k.fs.inode_table;
              disk = k1.fs.disk;
            };
            screen = screen;
          }))
unfolding initalize_file_system
initalize_file_system-shutdown junk ports around k k1 boot rest v w marked e =
    let s = shutdown-IsShut around k k1 e in
    let disk : k1.fs.disk ≡ (write_metadata around.behind s.fs).disk =
      ap (λ (f : FileSystem). f.disk) s.written in
    let valid = closed-IsMetadata k.fs s.fs s.closed v in
    let back = read_metadata-write_metadata around.behind s.fs valid w boot.fs in
    let found = read_super-write_metadata around.behind s.fs valid w boot.fs in
    let super : s.fs.super ≡ k.fs.super = ap (λ (f : FileSystem). f.super) s.closed in
    let known =
      recognized_lem
        (read_super (record boot.fs { disk = (write_metadata around.behind s.fs).disk })) rest
        (ap (λ (x : FileSystemSuper). x.format_indicator) (found ∙ super) ∙ marked) in
    rw
      (
        disk,
        known,
        back,
        super,
        ap (λ (f : FileSystem). f.ibmap) s.closed,
        ap (λ (f : FileSystem). f.dbmap) s.closed,
        ap (λ (f : FileSystem). f.inode_table) s.closed,
      )
      (refl)
