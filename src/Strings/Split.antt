-- ===== src/Strings/Split.antt =====
-- `string_split` and the frees of strings (src/alloc.c).
pub mod Pieces
pub mod Steps
pub mod Refine
pub mod Leak
mod Tests
use yo_rha.Base.{
  ℕ, zero, suc, List, [], ◌∷◌, Bool, true, false, not, ◌&&◌, ◌||◌, ltb, ◌==◌, if◌then◌else◌,
  get_elem?,
}
use yo_rha.Base.Outcome.{Outcome, ok, fault, ◌>>=◌, in_bounds}
use yo_rha.Heap.{AllocArray, kfree}
use yo_rha.Strings.Growing.{Growing, empty, push}

abbrev pub Text : Type 0
Text = Growing ℕ

-- `sizeof(char)` and `sizeof(String)`.
abbrev pub char_size : ℕ
char_size = 1

abbrev pub string_size : ℕ
string_size = 12

-- What `string_split` keeps: the heap, `sl`, `curr` and `in_string`.
pub record Splitting : Type 0 where
  pub heap : AllocArray
  pub sl : Growing Text
  pub curr : Text
  pub in_string : Bool

-- `APPEND(curr, '\0'); APPEND(sl, curr);`
pub finish_piece : Splitting → Outcome Splitting
finish_piece st = push char_size st.heap st.curr 0 >>= λ (c : AllocArray × Text).
    push string_size c.0 st.sl c.1 >>= λ (l : AllocArray × Growing Text).
    ok (record st { heap = l.0; sl = l.1; curr = c.1 })

-- The body of the loop.
pub split_char : ℕ → Bool → Splitting → ℕ → Outcome Splitting
split_char delim reserve_quotes st c =
    let in_string = if c == b'"' then not st.in_string else st.in_string in
    let cut = finish_piece st >>= λ done.
    ok (record done { curr = record done.curr { capacity = 0 }; in_string = in_string }) in
    let kept = push char_size st.heap st.curr c >>= λ (p : AllocArray × Text).
    ok (record st { heap = p.0; curr = p.1; in_string = in_string }) in
    if (c == delim) && (not in_string || not reserve_quotes) then cut else kept

pub split_loop : ℕ → Bool → Splitting → List ℕ → Outcome Splitting
split_loop delim reserve_quotes st [] = fault
split_loop delim reserve_quotes st (c ∷ cs) =
    let rest =
      split_char delim reserve_quotes st c >>= λ st'. split_loop delim reserve_quotes st' cs in
    if c == 0 then ok st else rest

-- `curr.len` is reset by the next `APPEND`, not after a piece.
pub string_split : AllocArray → List ℕ → ℕ → Bool → Outcome (AllocArray × Growing Text)
string_split a s delim reserve_quotes =
    split_loop delim reserve_quotes
      (record { heap = a; sl = empty; curr = empty; in_string = false }) s
    >>= λ st.
        (let last = finish_piece st >>= λ done. ok (done.heap, done.sl) in
          if ltb 0 st.curr.len then last else ok (st.heap, st.sl))

-- The loop of `free_string_list`: each round frees the first string of the list.
pub free_first : ℕ → AllocArray → Growing Text → Outcome AllocArray
free_first zero a sl = ok a
free_first (suc left) a sl =
    in_bounds (get_elem? sl.contents 0) >>= λ s. kfree a s.block >>= λ a'. free_first left a' sl

pub free_string_list : AllocArray → Growing Text → Outcome AllocArray
free_string_list a sl = free_first sl.len a sl >>= λ a'. kfree a' sl.block

pub free_string : AllocArray → Text → Outcome AllocArray
free_string a s = kfree a s.block
