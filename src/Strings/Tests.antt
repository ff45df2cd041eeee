-- ===== src/Strings/Tests.antt =====
-- A string with two characters in the block of the sample heap.
use yo_rha.Base.{
  ℕ, zero, suc, ◌+◌, ◌<◌, ◌≡◌, refl, arith, List, [], ◌∷◌, ◌==◌, if◌then◌else◌, get_or,
}
use yo_rha.Memory.{Memory}
use yo_rha.Heap.Sample.{first_block, heap, heap-IsHeap}
use yo_rha.Strings.{String}
use yo_rha.Strings.Append.{IsString}

abbrev text : List ℕ
text = b'l' ∷ b's' ∷ []

abbrev memory : Memory
memory = λ p. if p == 0x40_0000 then b'l' else b's'

abbrev command : String
command = record { len = 2; capacity = 8; contents = 0x40_0000 }

memory_text : (i : ℕ) → i < 2 → memory (0x40_0000 + i) ≡ get_or text i 0
memory_text zero lt = refl
memory_text (suc zero) lt = refl
memory_text (suc (suc i)) lt = absurd (omega arith)

command-IsString : IsString heap memory command text
command-IsString = record {
  heap = heap-IsHeap;
  slot = 0;
  entry = first_block;
  live = (refl, refl);
  based = refl;
  sized = refl;
  nonempty = omega arith;
  counted = refl;
  fits = omega arith;
  chars = memory_text;
}
