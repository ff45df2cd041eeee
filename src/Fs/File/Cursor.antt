-- ===== src/Fs/File/Cursor.antt =====
-- `seek` on every branch.
use yo_rha.Base.{ℕ, ◌+◌, ◌-◌, ◌^◌, ◌<◌, ◌≡◌, ◌⊎◌, ◌≤◌}
use yo_rha.Fs.File.{SeekParam, seek_set, seek_cur, seek_end, seek_other}

-- Where a cursor at `pos` stands after a move by the `int32_t` with the unsigned number `offset`:
-- the offset from the start, or on from `pos` or back from it, or back from the end of the file.
abbrev pub IsMoved : (size offset : ℕ) → SeekParam → (pos pos' : ℕ) → Type 0
IsMoved size offset seek_set pos pos' = (offset < 2 ^ 31) × (pos' ≡ offset)
IsMoved size offset seek_cur pos pos' =
    (offset < 2 ^ 31) × (pos' ≡ pos + offset) × (pos' < 2 ^ 64)
    ⊎ (2 ^ 31 ≤ offset) × (offset < 2 ^ 32) × (pos < 2 ^ 64) × (pos' + (2 ^ 32 - offset) ≡ pos)
IsMoved size offset seek_end pos pos' = (size < 2 ^ 32) × (pos' + offset ≡ size)
IsMoved size offset seek_other pos pos' = pos' ≡ pos
