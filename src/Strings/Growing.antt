-- ===== src/Strings/Growing.antt =====
-- `String` and `StringList` of include/alloc.h as arrays of any elements, and `APPEND`. The elements
-- that have been stored in the block stand in a list; the heap keeps the block at `block`.
pub mod Push
use yo_rha.Base.{ℕ, suc, ◌+◌, ◌*◌, ◌^◌, List, [], ◌∷◌, ◌++◌, ◌==◌, if◌then◌else◌, take, drop}
use yo_rha.Base.Outcome.{Outcome, ok, ◌>>=◌}
use yo_rha.Base.Word.{u32}
use yo_rha.Memory.{Memory}
use yo_rha.Heap.{AllocArray, kcalloc, krealloc}

-- `capacity` counts elements; the elements behind the first `len` are stale.
pub record Growing {ℓ} (A : Type ℓ) : Type ℓ where
  pub len : ℕ
  pub capacity : ℕ
  pub block : ℕ
  pub contents : List A

-- The bytes of a block are its elements: no other memory is kept here.
abbrev pub no_memory : Memory
no_memory = λ p. 0

module _ {ℓ} {A : Type ℓ} where
  -- `{0}`
  abbrev pub empty : Growing A
  empty = record { len = 0; capacity = 0; block = 0; contents = [] }

  -- `contents[i] = x`, for an `i` up to the number of stored elements.
  abbrev pub store_element : List A → ℕ → A → List A
  store_element xs i x = take i xs ++ (x ∷ drop (suc i) xs)

  -- `APPEND`, with elements of `size` bytes.
  unfoldable pub push : ℕ → AllocArray → Growing A → A → Outcome (AllocArray × Growing A)
  push size a s x =
      let started = kcalloc a no_memory 2 size >>= λ (b : ℕ × AllocArray × Memory).
      ok (b.1, record { len = 1; capacity = 2; block = b.0; contents = x ∷ [] }) in
      let grown =
        krealloc a no_memory s.block (u32 (size * s.capacity * 2))
        >>= λ (b : ℕ × AllocArray × Memory). ok (
          b.1,
          record {
            len = u32 (s.len + 1);
            capacity = u32 (s.capacity * 2);
            block = b.0;
            contents = store_element s.contents s.len x;
          },
        ) in
      let stored =
        ok (a, record s { len = u32 (s.len + 1); contents = store_element s.contents s.len x }) in
      if s.capacity == 0 then started else if s.len == s.capacity then grown else stored
