-- ===== src/Strings/Split/Refine.antt =====
-- `string_split` against the pieces of its text.
use mathlib.Core.List.{append_assoc, append-nil}
use yo_rha.Base.{
  ℕ, ◌<◌, ◌≡◌, ◌≢◌, refl, ap, ◌⊎◌, inl, inr, Bool, true, false, List, [], ◌∷◌, ◌++◌, map, arith,
  ltb, ◌==◌, if◌then◌else◌, length, Bool-cases, ◌∙◌,
}
use yo_rha.Base.Outcome.{Outcome, ok, panicked, ◌>>=◌}
use yo_rha.Cstring.Laws.{IsText, terminated}
use yo_rha.Heap.{AllocArray}
use yo_rha.Heap.Malloc.{IsHeap}
use yo_rha.Strings.Growing.{Growing}
use yo_rha.Strings.Growing.Push.{IsArray, LacksRoom}
use yo_rha.Strings.Split.{
  Text, string_size, Splitting, finish_piece, split_char, split_loop, string_split, char_size,
}
use yo_rha.Strings.Split.Pieces.{
  toggle, cuts, join, ArePieces, pieces, join-pieces, pieces-ArePieces,
}
use yo_rha.Strings.Split.Steps.{
  string_bytes, zero_ended, IsSplitting, finish_piece_cases, cut_cases, kept_cases, start,
  start-IsSplitting, LacksPieceRoom,
}

-- `result` is a list of strings in the heap, with the texts `ts` and a zero behind each.
pub record IsSplit (ts : List (List ℕ)) (result : Outcome (AllocArray × Growing Text))
    : Type 0 where
  pub heap : AllocArray
  pub sl : Growing Text
  pub returns : result ≡ ok (heap, sl)
  pub consistent : IsHeap heap
  pub slot : ℕ
  pub strings : List Text
  pub list : IsArray string_size heap sl strings slot
  pub texts : map string_bytes strings ≡ map zero_ended ts

-- The split from this state on comes to a character, or to the end of the text, at which it needs a
-- block for which there is no room in the heap that it has then.
abbrev pub RunsOut : ℕ → Bool → Splitting → List ℕ → Type 0
RunsOut delim reserve_quotes st [] = LacksPieceRoom st
RunsOut delim reserve_quotes st (c ∷ cs) =
    (cuts delim reserve_quotes st.in_string c ≡ true) × LacksPieceRoom st
    ⊎ ((cuts delim reserve_quotes st.in_string c ≡ false) × LacksRoom char_size st.heap st.curr
        ⊎ ((st' : Splitting) × (split_char delim reserve_quotes st c ≡ ok st')
            × RunsOut delim reserve_quotes st' cs))

-- What follows the loop.
abbrev finish_split : Splitting → Outcome (AllocArray × Growing Text)
finish_split st =
    let last = finish_piece st >>= λ done. ok (done.heap, done.sl) in
    if ltb 0 st.curr.len then last else ok (st.heap, st.sl)

module _ (delim : ℕ) (reserve_quotes : Bool) where
  abbrev whole : Splitting → List ℕ → List ℕ → Outcome (AllocArray × Growing Text)
  whole st cs rest = split_loop delim reserve_quotes st (terminated cs rest) >>= finish_split

  abbrev expected : List (List ℕ) → List ℕ → Bool → List ℕ → List (List ℕ)
  expected done t quoted cs =
      let p = pieces delim reserve_quotes quoted cs in done ++ (t ++ p.0) ∷ p.1

  last_cases :
      (st : Splitting) (done : List (List ℕ)) (t rest : List ℕ)
      → IsSplitting st done t
      → 0 < st.curr.len
      → IsSplit (done ++ t ∷ []) (whole st [] rest)
        ⊎ (whole st [] rest ≡ panicked) × LacksPieceRoom st
  last_cases st done t rest v started =
      let test : ltb 0 st.curr.len ≡ true = ground arith in
      elim (finish_piece_cases st done t v) [
        | inr (stops, why) ↦ inr ((unfold split_loop in rw (test, stops) (refl)), why)
        | inl f ↦ inl (record {
          heap = f.out.heap;
          sl = f.out.sl;
          returns = unfold split_loop in rw (test, f.returns) (refl);
          consistent = f.heap;
          slot = f.slot;
          strings = f.strings;
          list = f.sl;
          texts = f.texts;
        })
      ]

  whole-cons :
      (st st' : Splitting) (c : ℕ) (cs rest : List ℕ)
      → c ≢ 0
      → split_char delim reserve_quotes st c ≡ ok st'
      → whole st (c ∷ cs) rest ≡ whole st' cs rest
  whole-cons st st' c cs rest some_char e =
      let test : (c == 0) ≡ false = ground (arith, some_char) in
      unfold split_loop in rw (test, e) (refl)

  whole-panicked :
      (st : Splitting) (c : ℕ) (cs rest : List ℕ)
      → c ≢ 0
      → split_char delim reserve_quotes st c ≡ panicked
      → whole st (c ∷ cs) rest ≡ panicked
  whole-panicked st c cs rest some_char e =
      let test : (c == 0) ≡ false = ground (arith, some_char) in
      unfold split_loop in rw (test, e) (refl)

  abbrev Splits : Splitting → List ℕ → List ℕ → List (List ℕ) → Type 0
  Splits st cs rest ts =
      IsSplit ts (whole st cs rest)
      ⊎ (whole st cs rest ≡ panicked) × RunsOut delim reserve_quotes st cs

  whole_cases :
      (cs rest : List ℕ) (st : Splitting) (done : List (List ℕ)) (t : List ℕ) (quoted : Bool)
      → IsSplitting st done t
      → st.in_string ≡ quoted
      → (cs ≡ [] → 0 < st.curr.len)
      → IsText cs
      → Splits st cs rest (expected done t quoted cs)
  whole_cases [] rest st done t quoted v q started text =
      rw (append-nil t) (last_cases st done t rest v (started refl))
  whole_cases (c ∷ cs) rest st done t quoted v q started text =
      elim (Bool-cases (cuts delim reserve_quotes quoted c)) [
        | inl cut ↦ elim (cut_cases st done t v delim reserve_quotes c (rw q cut)) [
          | inr (stops, why) ↦ inr (whole-panicked st c cs rest text.0 stops, inl (rw q cut, why))
          | inl s ↦
              let more =
                whole_cases cs rest s.out (done ++ t ∷ []) [] (toggle quoted c) s.valid
                  (rw (s.quoted, q) (refl)) (λ _. s.started) text.2 in
              elim more [
                | inl split ↦ inl (
                    rw (whole-cons st s.out c cs rest text.0 s.returns, cut, append-nil t)
                      (rw (append_assoc done (t ∷ []) _) at split))
                | inr (stops, why) ↦ inr (
                  whole-cons st s.out c cs rest text.0 s.returns ∙ stops,
                  inr (inr (s.out, s.returns, why)),
                )
              ]
        ]
        | inr kept ↦ elim (kept_cases st done t v delim reserve_quotes c (rw q kept)) [
          | inr (stops, why) ↦
              inr (whole-panicked st c cs rest text.0 stops, inr (inl (rw q kept, why)))
          | inl s ↦
              let more =
                whole_cases cs rest s.out done (t ++ c ∷ []) (toggle quoted c) s.valid
                  (rw (s.quoted, q) (refl)) (λ _. s.started) text.2 in
              elim more [
                | inl split ↦ inl (
                    rw (whole-cons st s.out c cs rest text.0 s.returns, kept)
                      (rw
                        (append_assoc t (c ∷ [])
                          (pieces delim reserve_quotes (toggle quoted c) cs).0)
                        at split))
                | inr (stops, why) ↦ inr (
                  whole-cons st s.out c cs rest text.0 s.returns ∙ stops,
                  inr (inr (s.out, s.returns, why)),
                )
              ]
        ]
      ]

-- `string_split` of a nonempty text in a consistent heap returns zero-terminated strings in a
-- consistent heap: the pieces of the text, which are the text again with the delimiter between
-- them, each delimiter outside reserved quotes ends a piece and nothing else does; or it panics, and
-- then it comes to a place in the text where it needs a block for which the heap has no room.
pub string_split_cases :
    (a : AllocArray) (t rest : List ℕ) (delim : ℕ) (reserve_quotes : Bool)
    → IsHeap a
    → IsText t
    → 0 < length t
    → ((head : List ℕ) × (tail : List (List ℕ)) × (join delim head tail ≡ t)
        × ArePieces delim reserve_quotes false head tail
        × IsSplit (head ∷ tail) (string_split a (terminated t rest) delim reserve_quotes))
      ⊎ (string_split a (terminated t rest) delim reserve_quotes ≡ panicked)
        × RunsOut delim reserve_quotes (start a) t
unfolding string_split
string_split_cases a t rest delim reserve_quotes heap text nonempty =
    let p = pieces delim reserve_quotes false t in
    elim (whole_cases delim reserve_quotes t rest (start a) [] [] false (start-IsSplitting a heap)
      refl (λ e. omega (arith, ap (λ (l : List ℕ). length l) e)) text) [
        | inr stops ↦ inr stops
        | inl s ↦ inl (
          p.0,
          p.1,
          join-pieces delim reserve_quotes false t,
          pieces-ArePieces delim reserve_quotes false t,
          s,
        )
      ]
