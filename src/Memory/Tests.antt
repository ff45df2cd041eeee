-- ===== src/Memory/Tests.antt =====
-- The block operations on a small memory.
use yo_rha.Base.{◌≡◌, refl}
use yo_rha.Memory.Laws.{memmove_lem}
use yo_rha.Memory.{Memory, copy_up, copy_down, fill, memcpy, memset, memmove}

-- Each byte holds its own address.
abbrev counting : Memory
counting p = p

-- An overlapping copy upwards: `memmove` keeps the bytes that `memcpy` repeats.
overlapping : (memmove 12 10 4 counting 15 ≡ 13) × (memcpy 12 10 4 counting 15 ≡ 11)
unfolding memmove memcpy copy_up copy_down
overlapping = (refl, refl)

memset_block : (memset 3 257 2 counting 4 ≡ 1) × (memset 3 257 2 counting 5 ≡ 5)
unfolding memset fill
memset_block = (refl, refl)

memmove_lem_example : memmove 12 10 4 counting 15 ≡ 13
memmove_lem_example = memmove_lem 12 10 4 counting 15
