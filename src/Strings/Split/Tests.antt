-- ===== src/Strings/Split/Tests.antt =====
-- A line with a quoted word.
use yo_rha.Base.{Bool, ℕ, ◌≡◌, refl, ◌⊎◌, arith, true, false, List, [], ◌∷◌}
use yo_rha.Base.Outcome.{Outcome, fault, diverges, ok, panicked}
use yo_rha.Bitmap.{alloc_bitrange, apply_bitrange, dealloc_bitrange}
use yo_rha.Heap.{
  AllocEntry, AllocArray, kmalloc, place, claim_slot, kcalloc, krealloc, release_slot, kfree,
}
use yo_rha.Heap.Invariant.{Live}
use yo_rha.Strings.Growing.{Growing, push}
use yo_rha.Cstring.Laws.{terminated}
use yo_rha.Heap.Sample.{zeros, heap, heap-IsHeap}
use yo_rha.Strings.Split.{
  Text, finish_piece, split_char, split_loop, free_first, string_split, free_string_list,
}
use yo_rha.Strings.Split.Leak.{free_string_list-keeps}
use yo_rha.Strings.Split.Pieces.{join, ArePieces, pieces}
use yo_rha.Strings.Split.Steps.{start}
use yo_rha.Strings.Split.Refine.{IsSplit, string_split_cases, RunsOut}

-- `ls "a b" ` with a space at the end.
abbrev line : List ℕ
line = b'l' ∷ b's' ∷ b' ' ∷ b'"' ∷ b'a' ∷ b' ' ∷ b'b' ∷ b'"' ∷ b' ' ∷ []

line_pieces :
    pieces b' ' true false line
    ≡ (b'l' ∷ b's' ∷ [], (b'"' ∷ b'a' ∷ b' ' ∷ b'b' ∷ b'"' ∷ []) ∷ [] ∷ [])
line_pieces = refl

is_ok : {A : Type 0} → Outcome A → Bool
is_ok (ok a) = true
is_ok panicked = false
is_ok fault = false
is_ok diverges = false

-- The heap has room for the pieces.
string_split-line : is_ok (string_split heap (terminated line []) b' ' true) ≡ true
unfolding is_ok string_split split_loop split_char finish_piece push kcalloc krealloc kmalloc place
    claim_slot alloc_bitrange kfree release_slot dealloc_bitrange apply_bitrange zeros
string_split-line = refl

string_split_cases_example :
    ((head : List ℕ) × (tail : List (List ℕ)) × (join b' ' head tail ≡ line)
      × ArePieces b' ' true false head tail
      × IsSplit (head ∷ tail) (string_split heap (terminated line []) b' ' true))
    ⊎ (string_split heap (terminated line []) b' ' true ≡ panicked)
      × RunsOut b' ' true (start heap) line
string_split_cases_example =
    string_split_cases heap line [] b' ' true heap-IsHeap (omega arith) (omega arith)

-- A list of two strings: its own block is the third one of a small heap.
abbrev block : ℕ → ℕ → AllocEntry
block base_ptr start = record {
  base_ptr = base_ptr;
  range = record { start = start; length = 2 };
  utilized = true;
}

abbrev small_heap : AllocArray
small_heap = record {
  bottom = 100;
  entries = block 100 0 ∷ block 104 4 ∷ block 108 8 ∷ [];
  bitmap = 0xccc0_0000 ∷ 0 ∷ [];
  active = true;
}

abbrev text_at : ℕ → Text
text_at base = record { len = 2; capacity = 2; block = base; contents = b'a' ∷ 0 ∷ [] }

abbrev two_words : Growing Text
two_words = record { len = 2; capacity = 2; block = 108; contents = text_at 100 ∷ text_at 104 ∷ [] }

abbrev after_frees : AllocArray
after_frees = record small_heap {
  entries =
      record (block 100 0) { utilized = false }
      ∷ block 104 4
      ∷ record (block 108 8) { utilized = false }
      ∷ [];
  bitmap = 0x0c00_0000 ∷ 0 ∷ [];
}

two_words_freed : free_string_list small_heap two_words ≡ ok after_frees
unfolding free_string_list free_first kfree release_slot dealloc_bitrange apply_bitrange
two_words_freed = refl

-- The second word is still in use.
free_string_list-keeps_example : Live after_frees.entries 1 (block 104 4)
free_string_list-keeps_example =
    free_string_list-keeps two_words (text_at 100) refl 1 (block 104 4) (λ e. omega (arith, e))
      small_heap after_frees (λ e. omega (arith, e)) two_words_freed (refl, refl)
