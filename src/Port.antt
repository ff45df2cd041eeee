-- ===== src/Port.antt =====
-- The I/O ports of include/asm/cpu_io.h. What a device answers is not in the repository: the output
-- of the kernel to it is a trace of events, the oldest first.
use yo_rha.Base.{ℕ, List}

pub data PortEvent : Type 0 where
  outb : ℕ → ℕ → PortEvent
  outw : ℕ → ℕ → PortEvent

abbrev pub Trace : Type 0
Trace = List PortEvent

-- A device with state `D` behind the ports: `inb`, `inw`, `outb` and `outsw` of cpu_io.h.
pub record Ports (D : Type 0) : Type 0 where
  pub inb : D → ℕ → ℕ × D
  pub inw : D → ℕ → ℕ × D
  pub write_byte : D → ℕ → ℕ → D
  pub write_word : D → ℕ → ℕ → D
