-- ===== src/Shell/Words.antt =====
-- The newline at the end of a line: the words that the command gets.
use mathlib.Core.List.{append_assoc}
use yo_rha.Base.{
  ℕ, ◌<◌, ◌≡◌, ◌≢◌, refl, ap, ◌∙◌, ◌⊎◌, inl, inr, true, false, List, [], ◌∷◌, ◌++◌, arith, ◌==◌,
  length, length-append, drop, take-drop,
}
use yo_rha.Base.Outcome.{Outcome, ok, panicked}
use yo_rha.Cstring.Laws.{IsText, terminated}
use yo_rha.Heap.{AllocArray}
use yo_rha.Port.{Ports}
use yo_rha.Strings.Growing.{Growing}
use yo_rha.Strings.Growing.Push.{push_cases}
use yo_rha.Strings.Split.{Text, char_size, string_split}
use yo_rha.Strings.Split.Pieces.{join, ArePieces}
use yo_rha.Strings.Split.Refine.{IsSplit, string_split_cases}
use yo_rha.Fs.State.{Message}
use yo_rha.System.{System}
use yo_rha.Shell.Loop.{Shell, Step, with_heap, add_char, process_words, process_line}
use yo_rha.Shell.Edit.{IsEditing}

-- The same list as another result.
abbrev moved_split :
    {ts : List (List ℕ)} {r q : Outcome (AllocArray × Growing Text)} (v : IsSplit ts r)
    → q ≡ ok (v.heap, v.sl)
    → IsSplit ts q
moved_split v e = record {
  heap = v.heap;
  sl = v.sl;
  returns = e;
  consistent = v.consistent;
  slot = v.slot;
  strings = v.strings;
  list = v.list;
  texts = v.texts;
}

module _ {D : Type 0} (junk : ℕ → List ℕ) (ports : Ports D) (timer : D → ℕ × D) (stack : List ℕ)
    (address fuel : ℕ) (message_text : Message → List ℕ)
    (run : Growing Text → System D → Outcome (ℕ × System D)) where
  abbrev pub line_result : Shell D → Outcome (Step D)
  line_result s = process_line junk ports timer stack address fuel message_text run s

  -- `result` is that of the command with these words, in a consistent heap.
  pub record RunsWords (s : Shell D) (words : List (List ℕ)) (result : Outcome (Step D))
      : Type 0 where
    pub heap : AllocArray
    pub line : Text
    pub split : IsSplit words (string_split heap line.contents b' ' true)
    pub runs :
        result
        ≡ process_words junk ports timer stack address fuel message_text run
            (record s { sys = with_heap s.sys split.heap; curr_command = line })
            split.sl

  -- A newline behind a line runs the command whose words are the pieces of the line between its
  -- spaces outside quotes, up to the first zero: when a redirection was refused, the line before it
  -- and its zero still stand at the start, and its words run again. Or it panics.
  pub process_line_cases :
      (P : System D → Type 0) (s : Shell D) (line t extra : List ℕ)
      → IsEditing ports P s line
      → line ++ 0 ∷ [] ≡ terminated t extra
      → IsText t
      → 0 < length t
      → ((head : List ℕ) × (tail : List (List ℕ)) × (join b' ' head tail ≡ t)
          × ArePieces b' ' true false head tail
          × RunsWords s (head ∷ tail) (line_result s))
        ⊎ (line_result s ≡ panicked)
  unfolding process_line add_char
  process_line_cases P s line t extra v begins text nonempty =
      let longer = ap (λ (l : List ℕ). length l) begins in
      let some_text : (s.curr_command.len == 0) ≡ false = ground (arith, enters) in
      elim (push_cases char_size s.sys.fs.heap s.curr_command line v.held 0 v.heap (omega arith)
        (omega arith) v.line) [
          | inr (stops, _) ↦ inr (rw (some_text, stops) (refl))
          | inl p ↦
              let stale = drop p.array.len p.array.contents in
              let whole : p.array.contents ≡ terminated t (extra ++ stale) =
                take-drop p.array.len p.array.contents
                ∙ ap (λ (l : List ℕ). l ++ stale) (p.holds.elements ∙ begins)
                ∙ append_assoc t (0 ∷ extra) stale in
              elim (string_split_cases p.out t (extra ++ stale) b' ' true p.heap text nonempty) [
                | inr (stops, _) ↦ inr (rw (some_text, p.returns, whole, stops) (refl))
                | inl (head, tail, joined, are, split) ↦
                    let same =
                      ap (λ (l : List ℕ). string_split p.out l b' ' true) whole ∙ split.returns in
                    inl (
                      head,
                      tail,
                      joined,
                      are,
                      record {
                        heap = p.out;
                        line = p.array;
                        split = moved_split split same;
                        runs = rw (some_text, p.returns, same) (refl);
                      },
                    )
              ]
        ]
    where
      enters : s.curr_command.len ≢ 0
      enters e = omega (
        arith,
        v.counted,
        e,
        ap (λ (l : List ℕ). length l) begins,
        length-append line (0 ∷ []),
        length-append t (0 ∷ extra),
        nonempty,
      )
