-- ===== src/Strings/Growing/Push.antt =====
-- What `APPEND` does to the elements of an array, and to the other blocks of the heap.
use mathlib.Core.List.{append_assoc}
use yo_rha.Base.{
  ℕ, zero, suc, ◌+◌, ◌*◌, ◌^◌, ◌≤◌, ◌<◌, ◌≡◌, ◌≢◌, refl, sym, ap, ◌∙◌, ◌⊎◌, inl, inr, true, false,
  List, [], ◌∷◌, ◌++◌, Option, none, some, arith, ◌==◌, length, length-append, length-take, take,
  drop, take-append, get_elem?, get_elem?-set_ne, ℕ_discrete, ◌%◌,
}
use yo_rha.Base.Outcome.{Outcome, ok, panicked}
use yo_rha.Base.Word.{u32}
use yo_rha.Heap.{AllocEntry, AllocArray, krealloc}
use yo_rha.Heap.Slots.{retire}
use yo_rha.Heap.Invariant.{Live}
use yo_rha.Heap.Malloc.{IsHeap}
use yo_rha.Heap.Contents.{IsRealloced, krealloc_cases, kcalloc_cases, kept-Live, NoRoom}
use yo_rha.Strings.Growing.{Growing, no_memory, store_element, push}

-- The blocks in use, but for the one of `slot`, are in use as before.
abbrev pub Keeps : AllocArray → AllocArray → Option ℕ → Type 0
Keeps a b slot = (k : ℕ) (f : AllocEntry) → Live a.entries k f → slot ≢ some k → Live b.entries k f

le-mul : (n m : ℕ) → 0 < n → m ≤ n * m
le-mul zero m pos = absurd (omega arith)
le-mul (suc n) m pos = omega arith

module _ {ℓ} {A : Type ℓ} where
  -- The array is in the block of slot `slot` of the heap, and its elements are `xs`.
  pub record IsArray (size : ℕ) (a : AllocArray) (s : Growing A) (xs : List A) (slot : ℕ)
      : Type ℓ where
    pub entry : AllocEntry
    pub live : Live a.entries slot entry
    pub based : entry.base_ptr ≡ s.block
    pub sized : entry.range.length ≡ size * s.capacity
    pub nonempty : 0 < s.capacity
    pub counted : s.len ≡ length xs
    pub fits : s.len ≤ s.capacity
    pub stored : s.len ≤ length s.contents
    pub elements : take s.len s.contents ≡ xs

  -- `slot` is the slot of the array's block, `none` before the first `APPEND`.
  abbrev pub Holds : ℕ → AllocArray → Growing A → List A → Option ℕ → Type ℓ
  Holds size a s xs none = (s.capacity ≡ 0) × (xs ≡ [])
  Holds size a s xs (some slot) = IsArray size a s xs slot

  pub IsArray-Keeps :
      (size : ℕ) (a b : AllocArray) (s : Growing A) (xs : List A) (slot : ℕ) (other : Option ℕ)
      → Keeps a b other
      → other ≢ some slot
      → IsArray size a s xs slot
      → IsArray size b s xs slot
  IsArray-Keeps size a b s xs slot other keeps ne v = record {
    entry = v.entry;
    live = keeps slot v.entry v.live ne;
    based = v.based;
    sized = v.sized;
    nonempty = v.nonempty;
    counted = v.counted;
    fits = v.fits;
    stored = v.stored;
    elements = v.elements;
  }

  pub record IsPushed (size : ℕ) (a : AllocArray) (held : Option ℕ) (xs : List A)
      (result : Outcome (AllocArray × Growing A)) : Type ℓ where
    pub out : AllocArray
    pub array : Growing A
    pub slot : ℕ
    pub returns : result ≡ ok (out, array)
    pub heap : IsHeap out
    pub holds : IsArray size out array xs slot
    pub keeps : Keeps a out held
    pub fresh : (k : ℕ) (f : AllocEntry) → Live a.entries k f → held ≢ some k → slot ≢ k

  -- `APPEND` needs a new block: the first one, or one of twice the size when the array is full
  -- while the old block stands. There is no room for it in the heap.
  abbrev pub LacksRoom : ℕ → AllocArray → Growing A → Type 0
  LacksRoom size a s =
      (s.capacity ≡ 0) × NoRoom a (2 * size)
      ⊎ (s.len ≡ s.capacity) × NoRoom a (size * s.capacity * 2)

  take-store_element :
      (ys : List A) (n : ℕ) (x : A)
      → n ≤ length ys
      → take (suc n) (store_element ys n x) ≡ take n ys ++ (x ∷ [])
  take-store_element ys n x le = rw (sym (append_assoc (take n ys) (x ∷ []) (drop (suc n) ys))) (
      take-append (take n ys ++ (x ∷ [])) (drop (suc n) ys) (suc n)
        (omega (arith, length-append (take n ys) (x ∷ []), length-take n ys le)))

  length-store_element :
      (ys : List A) (n : ℕ) (x : A) → n ≤ length ys → suc n ≤ length (store_element ys n x)
  length-store_element ys n x le =
      omega (arith, length-append (take n ys) (x ∷ drop (suc n) ys), length-take n ys le)

  module _ (size : ℕ) (a : AllocArray) (heap : IsHeap a) (pos : 0 < size) (small : size < 64)
      (s : Growing A) (xs : List A) (x : A) where
    started :
        s.capacity ≡ 0
        → IsPushed size a none (x ∷ []) (push size a s x)
          ⊎ (push size a s x ≡ panicked) × LacksRoom size a s
    started none_yet =
        let test : (s.capacity == 0) ≡ true = ground (arith, none_yet) in
        let bytes : 2 * size % 2 ^ 32 ≡ 2 * size = omega (arith, small) in
        elim (kcalloc_cases a no_memory 2 size heap (omega arith)) [
          | inr (stops, why) ↦
              inr ((unfold push in rw (test, stops) (refl)), inl (none_yet, rw bytes at why))
          | inl (b, m, returns, _) ↦ inl (record {
            out = b.out;
            array = record { len = 1; capacity = 2; block = b.entry.base_ptr; contents = x ∷ [] };
            slot = b.slot;
            returns = unfold push in rw (test, returns) (refl);
            heap = b.heap;
            holds = record {
              entry = b.entry;
              live = b.live;
              based = refl;
              sized = omega (arith, b.full_length);
              nonempty = omega arith;
              counted = refl;
              fits = omega arith;
              stored = omega arith;
              elements = refl;
            };
            keeps = λ k f live _. kept-Live a k f live b;
            fresh = λ k f live _ same. b.unused f (rw same live);
          })
        ]

    module _ (slot : ℕ) (v : IsArray size a s xs slot) where
      some_capacity : (s.capacity == 0) ≡ false
      some_capacity = ground (arith, v.nonempty)

      room : size * s.capacity * 2 < 2 ^ 32
      room = omega (arith, (heap.consistent.block slot v.entry v.live).inside, v.sized)

      capacity_room : s.capacity * 2 < 2 ^ 32
      capacity_room = omega (arith, room, le-mul size s.capacity pos)

      longer : length (xs ++ x ∷ []) ≡ suc (length xs)
      longer = omega (arith, length-append xs (x ∷ []))

      next_elements : take (suc s.len) (store_element s.contents s.len x) ≡ xs ++ x ∷ []
      next_elements =
          take-store_element s.contents s.len x v.stored
          ∙ ap (λ (l : List A). l ++ x ∷ []) v.elements

      stored-IsPushed :
          s.len < s.capacity → IsPushed size a (some slot) (xs ++ x ∷ []) (push size a s x)
      stored-IsPushed lt =
          let test : (s.len == s.capacity) ≡ false = ground arith in
          let next : u32 (s.len + 1) ≡ suc s.len = omega (arith, capacity_room) in
          record {
            out = a;
            array = record s { len = suc s.len; contents = store_element s.contents s.len x };
            slot = slot;
            returns = unfold push in rw (some_capacity, test, next) (refl);
            heap = heap;
            holds = record {
              entry = v.entry;
              live = v.live;
              based = v.based;
              sized = v.sized;
              nonempty = v.nonempty;
              counted = omega (arith, v.counted, longer);
              fits = omega arith;
              stored = length-store_element s.contents s.len x v.stored;
              elements = next_elements;
            };
            keeps = λ k f live _. live;
            fresh = λ k f live ne same. ne (ap some same);
          }

      grown-IsPushed :
          s.len ≡ s.capacity
          → IsRealloced a no_memory slot v.entry
              (size * s.capacity * 2)
              (krealloc a no_memory v.entry.base_ptr (size * s.capacity * 2))
          → IsPushed size a (some slot) (xs ++ x ∷ []) (push size a s x)
      grown-IsPushed full r =
          let test : (s.len == s.capacity) ≡ true = ground (arith, full) in
          let bytes : u32 (size * s.capacity * 2) ≡ size * s.capacity * 2 = omega (arith, room) in
          let double : u32 (s.capacity * 2) ≡ s.capacity * 2 = omega (arith, capacity_room) in
          let next : u32 (s.len + 1) ≡ suc s.len = omega (arith, capacity_room, full, v.nonempty) in
          let call =
            ap (λ (p : ℕ). krealloc a no_memory p (u32 (size * s.capacity * 2))) (sym v.based)
            ∙ ap (λ (n : ℕ). krealloc a no_memory v.entry.base_ptr n) bytes
            ∙ r.returns in
          record {
            out = r.out;
            array = record {
              len = suc s.len;
              capacity = s.capacity * 2;
              block = r.block.entry.base_ptr;
              contents = store_element s.contents s.len x;
            };
            slot = r.block.slot;
            returns = unfold push in rw (some_capacity, test, call, next, double) (refl);
            heap = r.heap;
            holds = record {
              entry = r.block.entry;
              live = moved r.block.slot r.block.entry r.block.live (other refl);
              based = refl;
              sized = omega (arith, r.block.full_length);
              nonempty = omega (arith, v.nonempty);
              counted = omega (arith, v.counted, longer);
              fits = omega (arith, full, v.nonempty);
              stored = length-store_element s.contents s.len x v.stored;
              elements = next_elements;
            };
            keeps =
                λ k f live ne. moved k f (kept-Live a k f live r.block) (λ same. ne (ap some same));
            fresh = λ k f live _ same. r.block.unused f (rw same live);
          }
        where
          other : {k : ℕ} → k ≡ r.block.slot → slot ≢ k
          other here same = r.block.unused v.entry (rw (sym here, sym same) v.live)

          moved :
              (k : ℕ) (f : AllocEntry)
              → Live r.block.out.entries k f
              → slot ≢ k
              → Live r.out.entries k f
          moved k f live ne = (
            ap (λ t. get_elem? t k) r.entries
                ∙ get_elem?-set_ne r.block.out.entries slot k (retire v.entry) ne
                ∙ live.0,
            live.1,
          )

      held-IsPushed :
          IsPushed size a (some slot) (xs ++ x ∷ []) (push size a s x)
          ⊎ (push size a s x ≡ panicked) × LacksRoom size a s
      held-IsPushed = elim (ℕ_discrete s.len s.capacity) [
        | no free ↦ inl (stored-IsPushed (omega (arith, v.fits, free)))
        | yes full ↦
            elim (krealloc_cases a no_memory slot v.entry (size * s.capacity * 2) heap v.live
              (omega (arith, v.nonempty, le-mul size s.capacity pos))) [
                | inl r ↦ inl (grown-IsPushed full r)
                | inr (stops, why) ↦
                    let test : (s.len == s.capacity) ≡ true = ground (arith, full) in
                    let bytes : u32 (size * s.capacity * 2) ≡ size * s.capacity * 2 =
                      omega (arith, room) in
                    let call =
                      ap (λ (p : ℕ). krealloc a no_memory p (u32 (size * s.capacity * 2)))
                        (sym v.based)
                      ∙ ap (λ (n : ℕ). krealloc a no_memory v.entry.base_ptr n) bytes
                      ∙ stops in
                    inr ((unfold push in rw (some_capacity, test, call) (refl)), inr (full, why))
              ]
      ]

  -- `APPEND` on a consistent heap returns the array with the element behind the others, in a block
  -- of its own, or panics for want of room; the blocks of others stay in use.
  pub push_cases :
      (size : ℕ) (a : AllocArray) (s : Growing A) (xs : List A) (held : Option ℕ) (x : A)
      → IsHeap a
      → 0 < size
      → size < 64
      → Holds size a s xs held
      → IsPushed size a held (xs ++ x ∷ []) (push size a s x)
        ⊎ (push size a s x ≡ panicked) × LacksRoom size a s
  push_cases size a s xs none x heap pos small (none_yet, nothing) =
      rw nothing (started size a heap pos small s xs x none_yet)
  push_cases size a s xs (some slot) x heap pos small v =
      held-IsPushed size a heap pos small s xs x slot v
