-- ===== src/Startup/Ready.antt =====
-- What `initialize_allocator` leaves behind.
use yo_rha.Base.{ℕ, ◌≡◌, false, some, length, get_elem?}
use yo_rha.Base.Outcome.{Outcome, ok}
use yo_rha.Bitmap.{bit_at}
use yo_rha.Heap.{AllocEntry, AllocArray}
use yo_rha.Heap.Malloc.{IsHeap}
use yo_rha.Paging.{Space}
use yo_rha.Paging.Invariant.{IsMapped}

-- An allocator as the kernel finds it: nothing is taken, and no entry is in use.
pub record IsZeroed (words : ℕ) (a : AllocArray) : Type 0 where
  pub size : length a.bitmap ≡ words
  pub bits : (p : ℕ) → bit_at a.bitmap p ≡ 0
  pub slots : length a.entries ≡ 256
  pub unused : (i : ℕ) (e : AllocEntry) → get_elem? a.entries i ≡ some e → e.utilized ≡ false

pub record IsReady (s : Space) (result : Outcome (AllocArray × AllocArray × Space)) : Type 0 where
  pub pages : AllocArray
  pub kernel : AllocArray
  pub space : Space
  pub returns : result ≡ ok (pages, kernel, space)
  pub heap : IsHeap kernel
  pub bottom : kernel.bottom ≡ 0x40_0000
  pub mapped : IsMapped s 0x40_0000 0x40_0000 space
