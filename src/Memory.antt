-- ===== src/Memory.antt =====
-- `memcpy`, `memset` and `memmove` of src/string.c on the flat memory of the kernel. An address
-- holds a byte; the arguments are taken not to run past the end of the address space.
pub mod Laws
mod Tests
use yo_rha.Base.{ℕ, zero, suc, ◌+◌, Bool, true, false, ltb, ◌==◌, if◌then◌else◌}
use yo_rha.Base.Word.{u8}

abbrev pub Memory : Type 0
Memory = ℕ → ℕ

abbrev pub store : Memory → ℕ → ℕ → Memory
store m p v q = if q == p then v else m q

-- `for (byte = i; byte < i + left; byte++) dst[byte] = src[byte];`
pub copy_up : ℕ → ℕ → ℕ → ℕ → Memory → Memory
copy_up dst src zero i m = m
copy_up dst src (suc left) i m = copy_up dst src left (i + 1) (store m (dst + i) (m (src + i)))

-- `for (i = left; i > 0; i--) dst[i - 1] = src[i - 1];`
pub copy_down : ℕ → ℕ → ℕ → Memory → Memory
copy_down dst src zero m = m
copy_down dst src (suc i) m = copy_down dst src i (store m (dst + i) (m (src + i)))

pub memcpy : ℕ → ℕ → ℕ → Memory → Memory
memcpy dst src count m = copy_up dst src count 0 m

pub fill : ℕ → ℕ → ℕ → ℕ → Memory → Memory
fill dst val zero i m = m
fill dst val (suc left) i m = fill dst val left (i + 1) (store m (dst + i) val)

-- `val` is a `uint8_t` parameter.
pub memset : ℕ → ℕ → ℕ → Memory → Memory
memset dst val count m = fill dst (u8 val) count 0 m

-- The result is `dst`, which the callers here use as such.
pub memmove : ℕ → ℕ → ℕ → Memory → Memory
memmove dst src count m =
    if ltb dst src
    then copy_up dst src count 0 m
    else (if ltb src dst then copy_down dst src count m else m)
