-- ===== src/Strings/Append.antt =====
-- What `append` does to the text of a string.
use mathlib.Core.List.{append_assoc, append-nil}
use yo_rha.Cstring.Laws.{IsText, terminated}
use yo_rha.Base.{
  ℕ, zero, suc, ◌+◌, ◌-◌, ◌*◌, ◌^◌, ◌≤◌, ◌<◌, ◌≡◌, ◌≢◌, refl, sym, ap, ◌∙◌, ◌⊎◌, inl, inr, true,
  false, List, [], ◌∷◌, ◌++◌, arith, ltb, leb, ◌==◌, length, length-append, get_or, get_or-append,
  get_elem?, get_elem?-set_ne, ℕ_discrete,
}
use yo_rha.Base.Outcome.{Outcome, ok, panicked}
use yo_rha.Base.Word.{u8, u32}
use yo_rha.Memory.{Memory, store}
use yo_rha.Heap.{AllocEntry, AllocArray, krealloc}
use yo_rha.Heap.Slots.{retire}
use yo_rha.Heap.Invariant.{Live}
use yo_rha.Heap.Malloc.{IsHeap}
use yo_rha.Heap.Contents.{IsRealloced, krealloc_cases}
use yo_rha.Strings.{String, Strings, append, concat}

-- The string is in a block of the heap, of as many bytes as its capacity, and starts with these
-- characters.
pub record IsString (a : AllocArray) (m : Memory) (s : String) (cs : List ℕ) : Type 0 where
  pub heap : IsHeap a
  pub slot : ℕ
  pub entry : AllocEntry
  pub live : Live a.entries slot entry
  pub based : entry.base_ptr ≡ s.contents
  pub sized : entry.range.length ≡ s.capacity
  pub nonempty : 0 < s.capacity
  pub counted : s.len ≡ length cs
  pub fits : s.len ≤ s.capacity
  pub chars : (i : ℕ) → i < length cs → m (s.contents + i) ≡ get_or cs i 0

get_or-append_first :
    (xs ys : List ℕ) (i : ℕ) → i < length xs → get_or (xs ++ ys) i 0 ≡ get_or xs i 0
get_or-append_first [] ys i lt = absurd (omega arith)
get_or-append_first (x ∷ xs) ys zero lt = refl
get_or-append_first (x ∷ xs) ys (suc i) lt = get_or-append_first xs ys i (omega arith)

-- The characters after one is stored behind them.
chars_after :
    (m : Memory) (p c : ℕ) (cs : List ℕ)
    → c < 256
    → ((i : ℕ) → i < length cs → m (p + i) ≡ get_or cs i 0)
    → (i : ℕ) → i < length (cs ++ c ∷ [])
    → store m (p + length cs) (u8 c) (p + i) ≡ get_or (cs ++ c ∷ []) i 0
chars_after m p c cs small h i lt = elim (ℕ_discrete i (length cs)) [
  | yes same ↦
      let here : (p + i == p + length cs) ≡ true = ground (arith, same) in
      let last = get_or-append cs (c ∷ []) 0 i 0 (omega (arith, same)) in
      rw (here, last) (omega arith)
  | no other ↦
      let before : i < length cs = omega (arith, length-append cs (c ∷ []), other) in
      let elsewhere : (p + i == p + length cs) ≡ false = ground (arith, other) in
      rw (elsewhere, get_or-append_first cs (c ∷ []) i before) (h i before)
]

pub record IsAppended (cs : List ℕ) (result : Outcome Strings) : Type 0 where
  pub out : Strings
  pub returns : result ≡ ok out
  pub string : IsString out.0 out.1 out.2 cs

module _ (a : AllocArray) (m : Memory) (s : String) (c : ℕ) (cs : List ℕ) (v : IsString a m s cs)
    (small : c < 256) where
  -- A block of the heap is small.
  room : s.capacity * 2 < 2 ^ 32
  room = omega (arith, (v.heap.consistent.block v.slot v.entry v.live).inside, v.sized)

  some_capacity : (s.capacity == 0) ≡ false
  some_capacity = ground (arith, v.nonempty)

  longer : length (cs ++ c ∷ []) ≡ suc (length cs)
  longer = omega (arith, length-append cs (c ∷ []))

  stored-IsAppended : s.len < s.capacity → IsAppended (cs ++ c ∷ []) (append a m s c)
  stored-IsAppended lt =
      let test : (s.len == s.capacity) ≡ false = ground arith in
      let next : u32 (s.len + 1) ≡ s.len + 1 = omega (arith, room) in
      record {
        out = (a, store m (s.contents + s.len) (u8 c), record s { len = u32 (s.len + 1) });
        returns = unfold append in rw (some_capacity, test) (refl);
        string = record {
          heap = v.heap;
          slot = v.slot;
          entry = v.entry;
          live = v.live;
          based = v.based;
          sized = v.sized;
          nonempty = v.nonempty;
          counted = omega (arith, next, v.counted, longer);
          fits = omega (arith, next);
          chars = rw (v.counted) (chars_after m s.contents c cs small v.chars);
        };
      }

  grown-IsAppended :
      s.len ≡ s.capacity
      → IsRealloced a m v.slot v.entry
          (s.capacity * 2)
          (krealloc a m v.entry.base_ptr (s.capacity * 2))
      → IsAppended (cs ++ c ∷ []) (append a m s c)
  grown-IsAppended full r =
      let new = r.block.entry.base_ptr in
      let test : (s.len == s.capacity) ≡ true = ground (arith, full) in
      let double : u32 (s.capacity * 2) ≡ s.capacity * 2 = omega (arith, room) in
      let next : u32 (s.len + 1) ≡ s.len + 1 = omega (arith, full, v.nonempty, room) in
      let call : krealloc a m s.contents (u32 (s.capacity * 2)) ≡ ok (new, r.out, r.memory) =
        ap (λ (p : ℕ). krealloc a m p (u32 (s.capacity * 2))) (sym v.based)
        ∙ ap (λ (n : ℕ). krealloc a m v.entry.base_ptr n) double
        ∙ r.returns in
      let other : v.slot ≢ r.block.slot = λ same. r.block.unused v.entry (rw (sym same) v.live) in
      let copied : (i : ℕ) → i < length cs → r.memory (new + i) ≡ get_or cs i 0 = λ i lt.
        (let low : leb new (new + i) ≡ true = ground arith in
          let high : ltb (new + i) (new + v.entry.range.length) ≡ true =
            ground (arith, v.sized, full, v.counted) in
          let offset : v.entry.base_ptr + (new + i - new) ≡ s.contents + i =
            omega (arith, v.based) in
          r.bytes (new + i) ∙ rw (low, high, offset) (v.chars i lt)) in
      record {
        out = (
          r.out,
          store r.memory (new + s.len) (u8 c),
          record { len = u32 (s.len + 1); capacity = u32 (s.capacity * 2); contents = new },
        );
        returns = unfold append in rw (some_capacity, test, call) (refl);
        string = record {
          heap = r.heap;
          slot = r.block.slot;
          entry = r.block.entry;
          live = (
            ap (λ t. get_elem? t r.block.slot) r.entries
                ∙ get_elem?-set_ne r.block.out.entries v.slot r.block.slot (retire v.entry) other
                ∙ r.block.live.0,
            r.block.live.1,
          );
          based = refl;
          sized = r.block.full_length ∙ sym double;
          nonempty = omega (arith, double, v.nonempty);
          counted = omega (arith, next, v.counted, longer);
          fits = omega (arith, next, double, full, v.nonempty);
          chars = rw v.counted (chars_after r.memory new c cs small copied);
        };
      }

  -- `append` to a string in the heap returns a string in a consistent heap with the character behind
  -- the others, in a block of twice the size if the old one is full; or it panics, and then the old
  -- block was full.
  pub append_cases :
      IsAppended (cs ++ c ∷ []) (append a m s c)
      ⊎ (append a m s c ≡ panicked) × (s.len ≡ s.capacity)
  append_cases = elim (ℕ_discrete s.len s.capacity) [
    | no free ↦ inl (stored-IsAppended (omega (arith, v.fits, free)))
    | yes full ↦
        elim (krealloc_cases a m v.slot v.entry (s.capacity * 2) v.heap v.live
          (omega (arith, v.nonempty))) [
            | inl r ↦ inl (grown-IsAppended full r)
            | inr (stops, _) ↦
                let test : (s.len == s.capacity) ≡ true = ground (arith, full) in
                let double : u32 (s.capacity * 2) ≡ s.capacity * 2 = omega (arith, room) in
                let call : krealloc a m s.contents (u32 (s.capacity * 2)) ≡ panicked =
                  ap (λ (p : ℕ). krealloc a m p (u32 (s.capacity * 2))) (sym v.based)
                  ∙ ap (λ (n : ℕ). krealloc a m v.entry.base_ptr n) double
                  ∙ stops in
                inr (unfold append in rw (some_capacity, test, call) (refl), full)
          ]
  ]

-- `concat` of a terminated text to a string in the heap returns a string in a consistent heap with the
-- characters of the text behind its own, or it panics.
pub concat_cases :
    (src rest : List ℕ) (a : AllocArray) (m : Memory) (dst : String) (cs : List ℕ)
    → IsString a m dst cs
    → IsText src
    → IsAppended (cs ++ src) (concat a m dst (terminated src rest))
      ⊎ (concat a m dst (terminated src rest) ≡ panicked)
unfolding concat
concat_cases [] rest a m dst cs v t =
    inl (record { out = (a, m, dst); returns = refl; string = rw (append-nil cs) v })
concat_cases (c ∷ src) rest a m dst cs v t =
    let test : (c == 0) ≡ false = ground (arith, t.0) in
    elim (append_cases a m dst c cs v t.1) [
      | inr (stops, _) ↦ inr (rw (test, stops) (refl))
      | inl r ↦ elim (concat_cases src rest r.out.0 r.out.1 r.out.2 (cs ++ c ∷ []) r.string t.2) [
        | inr stops ↦ inr (rw (test, r.returns) stops)
        | inl more ↦ inl (record {
          out = more.out;
          returns = rw (test, r.returns) (more.returns);
          string = rw (sym (append_assoc cs (c ∷ []) src)) (more.string);
        })
      ]
    ]
