-- ===== src/Shell.antt =====
-- The commands of src/kernel.c. A command gets the words of its line; it returns the unsigned number
-- of its `int32_t`, so that -1 is `minus_one`.
pub mod Transfer
pub mod Loop
pub mod Edit
pub mod Words
mod Tests
use yo_rha.Base.{
  ℕ, zero, suc, ◌+◌, ◌-◌, ◌/◌, ◌%◌, List, [], ◌∷◌, ◌++◌, Bool, true, false, not, ◌&&◌, Option, none,
  some, ltb, leb, ◌==◌, if◌then◌else◌, get_elem?, get_or, length, take,
}
use yo_rha.Base.Int.{ℤ, pos, negsuc}
use yo_rha.Base.Outcome.{Outcome, ok, fault, diverges, ◌>>=◌, in_bounds}
use yo_rha.Base.Word.{u32}
use yo_rha.Cstring.{strlen, strcmp}
use yo_rha.Heap.{AllocArray, kfree}
use yo_rha.Port.{Ports}
use yo_rha.Strings.Growing.{Growing}
use yo_rha.Strings.Split.{Text}
use yo_rha.Fs.State.{FileSystem, file_type_dir, file_type_normal, minus_one}
use yo_rha.Fs.Create.{create_filetype, open_file, close, unlink}
use yo_rha.Fs.Listing.{str_list_dir}
use yo_rha.System.{System, read, write}

abbrev pub stdin : ℕ
stdin = 0

abbrev pub stdout : ℕ
stdout = 0

abbrev pub stderr : ℕ
stderr = 0

-- The first `count` bytes of a string literal, which has a zero behind its characters.
abbrev pub literal : List ℕ → ℕ → Outcome (List ℕ)
literal text count = if leb count (length text + 1) then ok (take count (text ++ 0 ∷ [])) else fault

-- `cmd.contents[i].contents`. Behind the words that were stored the pointers are null or were never
-- written: `fault`.
abbrev pub word : Growing Text → ℕ → Outcome (List ℕ)
word cmd i = in_bounds (get_elem? cmd.contents i) >>= λ s. ok s.contents

-- `strcmp(s, word) == 0`, in MATCH and PREFIX.
abbrev pub matches : List ℕ → List ℕ → Outcome Bool
matches s cstr = strcmp s (cstr ++ 0 ∷ []) >>= λ difference.
    ok (elim difference [ pos n ↦ n == 0 | negsuc n ↦ false ])

abbrev pub nib_to_hex : List ℕ
nib_to_hex =
    b'0' ∷ b'1' ∷ b'2' ∷ b'3' ∷ b'4' ∷ b'5' ∷ b'6' ∷ b'7' ∷ b'8' ∷ b'9' ∷ b'A' ∷ b'B' ∷ b'C' ∷ b'D'
    ∷ b'E' ∷ b'F' ∷ []

abbrev pub with_fs : {D : Type 0} → System D → FileSystem → System D
with_fs k fs = record k { fs = fs }

-- `junk` is what new blocks of the heap, and the arrays on the stack, hold at first.
module _ {D : Type 0} (junk : ℕ → List ℕ) (ports : Ports D) where
  -- `open` and `close` on the kernel's files.
  abbrev pub open_path : System D → List ℕ → Outcome (ℕ × System D)
  open_path k path = open_file junk k.fs path >>= λ (r : ℕ × FileSystem). ok (r.0, with_fs k r.1)

  abbrev pub close_fd : System D → ℕ → Outcome (System D)
  close_fd k fd = close k.fs fd >>= λ (r : ℕ × FileSystem). ok (with_fs k r.1)

  -- A message to a descriptor; the number of bytes written is not looked at.
  abbrev pub say : System D → ℕ → List ℕ → Outcome (System D)
  say k fd buf = write ports k fd buf >>= λ (r : ℕ × System D). ok r.1

  abbrev pub say_literal : System D → ℕ → List ℕ → ℕ → Outcome (System D)
  say_literal k fd text count = literal text count >>= λ buf. say k fd buf

  pub exec_ls : ℕ → Growing Text → System D → Outcome (ℕ × System D)
  exec_ls out cmd k = word cmd 1 >>= λ path.
      str_list_dir junk k.fs path >>= λ (r : Option (ℕ × List ℕ) × FileSystem). elim r.0 [
        | none ↦ ok (minus_one, with_fs k r.1)
        | some (ptr, text) ↦ strlen text >>= λ count.
            say (with_fs k r.1) out (take count text) >>= λ k1.
            kfree k1.fs.heap ptr >>= λ heap. ok (0, with_fs k1 (record k1.fs { heap = heap }))
      ]

  -- The two digits of a byte: `c` is a signed `char`, so that the index of the first digit is
  -- negative for a byte from 128 on.
  hex_digits : ℕ → Outcome (ℕ × ℕ)
  hex_digits c =
      if ltb c 128 then ok (get_or nib_to_hex (c / 16) 0, get_or nib_to_hex (c % 16) 0) else fault

  pub show_byte : ℕ → Bool → ℕ → System D → Outcome (System D)
  show_byte out false c k = say k out (c ∷ [])
  show_byte out true c k = say_literal k out (92 ∷ b'x' ∷ []) 2 >>= λ k1.
      hex_digits c >>= λ (d : ℕ × ℕ). say k1 out (d.0 ∷ []) >>= λ k2. say k2 out (d.1 ∷ [])

  -- The test of the loop's body: `cmd.len == 3 && MATCH(cmd.contents[1], "-b")`.
  pub is_binary : Growing Text → Outcome Bool
  is_binary cmd =
      let flag = word cmd 1 >>= λ s. matches s (b'-' ∷ b'b' ∷ []) in
      if cmd.len == 3 then flag else ok false

  -- The loop of `exec_cat`, one byte of the file at a time.
  pub cat_loop : ℕ → ℕ → Growing Text → ℕ → System D → Outcome (System D)
  cat_loop zero out cmd fd k = diverges
  cat_loop (suc fuel) out cmd fd k = read ports k fd 1 >>= λ (r : List ℕ × System D). elim r.0 [
    | [] ↦ ok r.1
    | c ∷ cs ↦
        is_binary cmd >>= λ binary. show_byte out binary c r.1 >>= λ k1. cat_loop fuel out cmd fd k1
  ]

  pub exec_cat : ℕ → ℕ → Growing Text → System D → Outcome (ℕ × System D)
  exec_cat fuel out cmd k = word cmd (cmd.len - 1) >>= λ path.
      open_path k path >>= λ (f : ℕ × System D).
      (let opened = cat_loop fuel out cmd f.0 f.1 >>= λ k1. close_fd k1 f.0 >>= λ k2. ok (0, k2) in
        if f.0 == minus_one then ok (minus_one, f.1) else opened)

  pub exec_echo : ℕ → Growing Text → System D → Outcome (ℕ × System D)
  exec_echo out cmd k = word cmd 1 >>= λ text. strlen text >>= λ count.
      write ports k out (take count text) >>= λ (r : ℕ × System D).
      ok (if r.0 == count then 0 else minus_one, r.1)

  pub exec_touch : Growing Text → System D → Outcome (ℕ × System D)
  exec_touch cmd k = word cmd 1 >>= λ path.
      create_filetype junk k.fs path file_type_normal false >>= λ (r : ℕ × FileSystem).
      ok (r.0, with_fs k r.1)

  pub exec_rm : Growing Text → System D → Outcome (ℕ × System D)
  exec_rm cmd k = word cmd 1 >>= λ path. strlen path >>= λ len.
      unlink k.fs path (take len (junk 0)) (take 32 (junk 0)) >>= λ (r : ℕ × FileSystem).
      ok (r.0, with_fs k r.1)

  pub exec_mkdir : Growing Text → System D → Outcome (ℕ × System D)
  exec_mkdir cmd k = word cmd 1 >>= λ path.
      create_filetype junk k.fs path file_type_dir false >>= λ (r : ℕ × FileSystem).
      ok (r.0, with_fs k r.1)

  -- No command of the shell calls it.
  pub exec_stat : Growing Text → System D → Outcome (ℕ × System D)
  exec_stat cmd k = word cmd 1 >>= λ path. open_path k path >>= λ (f : ℕ × System D).
      (let opened = close_fd f.1 f.0 >>= λ k1. ok (0, k1) in
        if f.0 == minus_one then ok (minus_one, f.1) else opened)
