-- ===== src/Paging/Invariant.antt =====
-- What the operations keep of the tables.
use yo_rha.Base.{ℕ, ◌+◌, ◌*◌, ◌/◌, ◌%◌, ◌^◌, ◌<◌, ◌≡◌, ◌≢◌, some}
use yo_rha.Paging.{Space}
use yo_rha.Paging.Window.{IsRecursive}
use yo_rha.Paging.Walk.{translate}

-- Words of 32 bits, a directory that leads to itself, and no table in two places.
pub record IsPaged (s : Space) : Type 0 where
  pub recursive : IsRecursive s
  pub distinct :
      (q r : ℕ)
      → q < 1024
      → r < 1024
      → q ≢ r
      → s.frames s.cr3 q % 2 ≡ 1
      → s.frames s.cr3 r % 2 ≡ 1
      → s.frames s.cr3 q / 4096 ≢ s.frames s.cr3 r / 4096
  pub small : (f i : ℕ) → s.frames f i < 2 ^ 32

-- The other pages, but for the window through which the tables are seen.
abbrev pub SameElsewhere : Space → Space → ℕ → Type 0
SameElsewhere s out va =
    (a : ℕ)
    → a < 2 ^ 32
    → a / 4096 ≢ va / 4096
    → a / 2 ^ 22 ≢ 1023
    → translate out a ≡ translate s a

-- `out` is `s` with the page of `va` mapped to the frame at `phys`.
pub record IsMapped (s : Space) (va phys : ℕ) (out : Space) : Type 0 where
  pub paged : IsPaged out
  pub same_cr3 : out.cr3 ≡ s.cr3
  pub page : (off : ℕ) → off < 4096 → translate out (va / 4096 * 4096 + off) ≡ some (phys + off)
  pub others : SameElsewhere s out va
