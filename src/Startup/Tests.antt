-- ===== src/Startup/Tests.antt =====
-- The kernel at its start, with nothing but its page directory.
use yo_rha.Base.{ℕ, List, false, ◌==◌, ◌&&◌, if◌then◌else◌, replicate}
use yo_rha.Heap.{AllocEntry, AllocArray}
use yo_rha.Paging.{Space}

abbrev unused : AllocEntry
unused = record { base_ptr = 0; range = record { start = 0; length = 0 }; utilized = false }

zeros : ℕ → List ℕ
zeros n = replicate n 0

zeroed : ℕ → AllocArray
zeroed words = record {
  bottom = 0;
  entries = replicate 256 unused;
  bitmap = zeros words;
  active = false;
}

abbrev directory : Space
directory = record { frames = λ f i. if (f == 1) && (i == 1023) then 0x1003 else 0; cr3 = 1 }
