-- ===== src/Strings.antt =====
-- The growing strings of include/alloc.h and src/alloc.c: `APPEND` of a character, and `concat`. The
-- characters are bytes of memory, in a block of the kernel heap.
pub mod Append
pub mod Growing
pub mod Split
mod Tests
use yo_rha.Base.{ℕ, ◌+◌, ◌*◌, ◌%◌, ◌^◌, List, [], ◌∷◌, ◌==◌, if◌then◌else◌}
use yo_rha.Base.Outcome.{Outcome, ok, fault, ◌>>=◌}
use yo_rha.Base.Word.{u8, u32}
use yo_rha.Memory.{Memory, store}
use yo_rha.Heap.{AllocArray, kcalloc, krealloc}

pub record String : Type 0 where
  pub len : ℕ
  pub capacity : ℕ
  pub contents : ℕ

abbrev pub Strings : Type 0
Strings = AllocArray × Memory × String

pub append : AllocArray → Memory → String → ℕ → Outcome Strings
append a m s c =
    let started = kcalloc a m 2 1 >>= λ (b : ℕ × AllocArray × Memory).
    ok (b.1, store b.2 b.0 (u8 c), record { len = 1; capacity = 2; contents = b.0 }) in
    let grown = krealloc a m s.contents (u32 (s.capacity * 2)) >>= λ (b : ℕ × AllocArray × Memory).
    ok (
      b.1,
      store b.2 (b.0 + s.len) (u8 c),
      record { len = u32 (s.len + 1); capacity = u32 (s.capacity * 2); contents = b.0 },
    ) in
    let stored = ok (a, store m (s.contents + s.len) (u8 c), record s { len = u32 (s.len + 1) }) in
    if s.capacity == 0 then started else if s.len == s.capacity then grown else stored

pub concat : AllocArray → Memory → String → List ℕ → Outcome Strings
concat a m dst [] = fault
concat a m dst (c ∷ src) =
    let rest = append a m dst c >>= λ (r : Strings). concat r.0 r.1 r.2 src in
    if c == 0 then ok (a, m, dst) else rest
