-- ===== src/Memory/Laws.antt =====
-- What the block operations leave at each address.
use yo_rha.Base.{
  ℕ, zero, suc, ◌+◌, ◌-◌, ◌≤◌, ◌≡◌, ap, ◌⊎◌, ◌&&◌, arith, ltb, leb, if◌then◌else◌, ℕ_discrete,
}
use yo_rha.Base.Word.{u8}
use yo_rha.Memory.{Memory, store, copy_up, copy_down, fill, memcpy, memset, memmove}

copy_up_lem :
    (dst src left i : ℕ) (m : Memory) (p : ℕ)
    → (dst ≤ src) ⊎ (src + i + left ≤ dst + i)
    → copy_up dst src left i m p
      ≡ (if leb (dst + i) p && ltb p (dst + i + left) then m (src + (p - dst)) else m p)
unfolding copy_up
copy_up_lem dst src zero i m p h = ground arith
copy_up_lem dst src (suc left) i m p h = elim (ℕ_discrete p (dst + i)) [
  | yes e ↦ ground (
    arith,
    copy_up_lem dst src left (i + 1) (store m (dst + i) (m (src + i))) p,
    ap (λ t. m (src + (t - dst))) e,
    cancel,
  )
  | no ne ↦ ground (arith, copy_up_lem dst src left (i + 1) (store m (dst + i) (m (src + i))) p)
]
  where
    cancel : m (src + (dst + i - dst)) ≡ m (src + i)
    cancel = let e : dst + i - dst ≡ i = omega arith in rw e

copy_down_lem :
    (dst src count : ℕ) (m : Memory) (p : ℕ)
    → src ≤ dst
    → copy_down dst src count m p
      ≡ (if leb dst p && ltb p (dst + count) then m (src + (p - dst)) else m p)
unfolding copy_down
copy_down_lem dst src zero m p h = ground arith
copy_down_lem dst src (suc i) m p h = elim (ℕ_discrete p (dst + i)) [
  | yes e ↦ ground (
    arith,
    copy_down_lem dst src i (store m (dst + i) (m (src + i))) p,
    ap (λ t. m (src + (t - dst))) e,
    cancel,
  )
  | no ne ↦ ground (arith, copy_down_lem dst src i (store m (dst + i) (m (src + i))) p)
]
  where
    cancel : m (src + (dst + i - dst)) ≡ m (src + i)
    cancel = let e : dst + i - dst ≡ i = omega arith in rw e

-- `memmove` leaves in the destination what the source held before the call, also where the two
-- overlap, and changes nothing else.
pub memmove_lem :
    (dst src count : ℕ) (m : Memory) (p : ℕ)
    → memmove dst src count m p
      ≡ (if leb dst p && ltb p (dst + count) then m (src + (p - dst)) else m p)
unfolding memmove
memmove_lem dst src count m p = elim (ℕ_discrete dst src) [
  | yes same ↦ ground (arith, same_place)
  | no ne ↦ ground (arith, copy_up_lem dst src count 0 m p, copy_down_lem dst src count m p)
]
  where
    same_place : dst ≡ src → dst ≤ p → m (src + (p - dst)) ≡ m p
    same_place e h = let back : src + (p - dst) ≡ p = omega arith in rw back

-- `memcpy` leaves in the destination what the source held before the call, and changes nothing
-- else, where the destination does not start inside the source, behind its first byte.
pub memcpy_lem :
    (dst src count : ℕ) (m : Memory) (p : ℕ)
    → (dst ≤ src) ⊎ (src + count ≤ dst)
    → memcpy dst src count m p
      ≡ (if leb dst p && ltb p (dst + count) then m (src + (p - dst)) else m p)
unfolding memcpy
memcpy_lem dst src count m p h = ground (arith, copy_up_lem dst src count 0 m p)

fill_lem :
    (dst val left i : ℕ) (m : Memory) (p : ℕ)
    → fill dst val left i m p ≡ (if leb (dst + i) p && ltb p (dst + i + left) then val else m p)
unfolding fill
fill_lem dst val zero i m p = ground arith
fill_lem dst val (suc left) i m p =
    ground (arith, fill_lem dst val left (i + 1) (store m (dst + i) val) p)

-- `memset` stores the byte at each address of the block and nowhere else.
pub memset_lem :
    (dst val count : ℕ) (m : Memory) (p : ℕ)
    → memset dst val count m p ≡ (if leb dst p && ltb p (dst + count) then u8 val else m p)
unfolding memset
memset_lem dst val count m p = ground (arith, fill_lem dst (u8 val) count 0 m p)
