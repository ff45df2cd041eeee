-- ===== src/Shell/Edit.antt =====
-- The line editor of `shell`: the characters of a line that is being typed.
use yo_rha.Base.{
  ℕ, zero, suc, ◌-◌, ◌≤◌, ◌≡◌, ◌≢◌, refl, sym, ap, ◌∙◌, ◌⊎◌, inl, inr, true, false, List, [], ◌∷◌,
  ◌++◌, Option, none, some, arith, ltb, ◌==◌, if◌then◌else◌, length, length-take, take, ℕ_discrete,
  dec_lt,
}
use yo_rha.Base.Outcome.{Outcome, ok, panicked, ◌>>=◌}
use yo_rha.Heap.{AllocArray}
use yo_rha.Heap.Malloc.{IsHeap}
use yo_rha.Port.{Ports}
use yo_rha.Strings.Growing.{Growing}
use yo_rha.Strings.Growing.Push.{IsArray, Holds, push_cases}
use yo_rha.Strings.Split.{Text, char_size}
use yo_rha.Fs.State.{Message}
use yo_rha.System.{System, write}
use yo_rha.Shell.{stdout}
use yo_rha.Shell.Loop.{Shell, Step, running, exited, with_heap, add_char, shell_char}

-- A backspace takes the last character away, if there is one.
abbrev pub edit : List ℕ → ℕ → List ℕ
edit t c = if c == 8 then take (length t - 1) t else t ++ (c ∷ [])

abbrev pub edits : List ℕ → List ℕ → List ℕ
edits t [] = t
edits t (c ∷ cs) = edits (edit t c) cs

abbrev pub AreTyped : List ℕ → Type 0
AreTyped [] = Unit
AreTyped (c ∷ cs) = (c ≢ 10) × AreTyped cs

take-take : {A : Type 0} (m n : ℕ) (xs : List A) → m ≤ n → take m (take n xs) ≡ take m xs
take-take zero n xs le = refl
take-take (suc m) zero xs le = absurd (omega arith)
take-take (suc m) (suc n) [] le = refl
take-take {A} (suc m) (suc n) (x ∷ xs) le =
    ap (λ (l : List A). x ∷ l) (take-take m n xs (omega arith))

shorter-IsArray :
    (a : AllocArray) (s : Text) (t : List ℕ) (slot : ℕ)
    → IsArray char_size a s t slot
    → IsArray char_size a (record s { len = s.len - 1 }) (take (length t - 1) t) slot
shorter-IsArray a s t slot v = record {
  entry = v.entry;
  live = v.live;
  based = v.based;
  sized = v.sized;
  nonempty = v.nonempty;
  counted = omega (arith, v.counted, length-take (length t - 1) t (omega arith));
  fits = omega (arith, v.fits);
  stored = omega (arith, v.stored);
  elements =
      sym (take-take (s.len - 1) s.len s.contents (omega arith))
      ∙ ap (λ (l : List ℕ). take (s.len - 1) l) v.elements
      ∙ ap (λ (n : ℕ). take (n - 1) t) v.counted;
}

module _ {D : Type 0} (ports : Ports D) where
  -- A character written to the terminal's descriptor returns, in states with `P`.
  pub record IsWriting (P : System D → Type 0) : Type 0 where
    pub next : System D → ℕ → ℕ × System D
    pub returns : (k : System D) (c : ℕ) → P k → write ports k stdout (c ∷ []) ≡ ok (next k c)
    pub keeps : (k : System D) (c : ℕ) → P k → P (next k c).1
    pub same_heap : (k : System D) (c : ℕ) → P k → (next k c).1.fs.heap ≡ k.fs.heap
    pub allocated : (k : System D) (heap : AllocArray) → P k → P (with_heap k heap)

  -- The line has the text `t`, in a block of a consistent heap.
  pub record IsEditing (P : System D → Type 0) (s : Shell D) (t : List ℕ) : Type 0 where
    pub writing : P s.sys
    pub heap : IsHeap s.sys.fs.heap
    pub held : Option ℕ
    pub line : Holds char_size s.sys.fs.heap s.curr_command t held
    pub counted : s.curr_command.len ≡ length t

  pub record IsEdited (P : System D → Type 0) (t : List ℕ) (result : Outcome (Step D))
      : Type 0 where
    pub out : Shell D
    pub returns : result ≡ ok (running out)
    pub valid : IsEditing P out t

module _ {D : Type 0} (junk : ℕ → List ℕ) (ports : Ports D) (timer : D → ℕ × D) (stack : List ℕ)
    (address fuel : ℕ) (message_text : Message → List ℕ)
    (run : Growing Text → System D → Outcome (ℕ × System D)) where
  abbrev pub typed_char : Shell D → ℕ → Outcome (Step D)
  typed_char s c = shell_char junk ports timer stack address fuel message_text run s c

  -- The characters of a line one after the other.
  abbrev pub type_chars : Shell D → List ℕ → Outcome (Step D)
  type_chars s [] = ok (running s)
  type_chars s (c ∷ cs) =
      typed_char s c >>= λ st. elim st [ running s' ↦ type_chars s' cs | exited k ↦ ok (exited k) ]

  module _ (P : System D → Type 0) (io : IsWriting ports P) (s : Shell D) (t : List ℕ)
      (v : IsEditing ports P s t) where
    backspace-IsEdited : (c : ℕ) → c ≡ 8 → IsEdited ports P (take (length t - 1) t) (typed_char s c)
    backspace-IsEdited c e =
        let test8 : (c == 8) ≡ true = ground (arith, e) in
        let k1 = (io.next s.sys 8).1 in
        let same = io.same_heap s.sys 8 v.writing in
        elim (dec_lt 0 s.curr_command.len) [
          | no none_left ↦
              let test : ltb 0 s.curr_command.len ≡ false = ground (arith, none_left) in
              record {
                out = s;
                returns = unfold shell_char in rw (test8, test) (refl);
                valid = rw (nothing t (omega (arith, v.counted, none_left))) v;
              }
          | yes left ↦
              let test : ltb 0 s.curr_command.len ≡ true = ground (arith, left) in
              record {
                out = record s {
                  sys = k1;
                  curr_command = record s.curr_command { len = s.curr_command.len - 1 };
                };
                returns =
                    unfold shell_char in rw (test8, test, io.returns s.sys 8 v.writing) (refl);
                valid = record {
                  writing = io.keeps s.sys 8 v.writing;
                  heap = rw same v.heap;
                  held = v.held;
                  line = rw same (shorter s.curr_command t v.held v.line);
                  counted = omega (arith, v.counted, length-take (length t - 1) t (omega arith));
                };
              }
        ]
      where
        nothing : (t : List ℕ) → length t ≡ 0 → take (length t - 1) t ≡ t
        nothing [] e = refl
        nothing (x ∷ xs) e = absurd (omega arith)

        shorter :
            (x : Text) (t : List ℕ) (held : Option ℕ)
            → Holds char_size s.sys.fs.heap x t held
            → Holds char_size s.sys.fs.heap
                (record x { len = x.len - 1 })
                (take (length t - 1) t)
                held
        shorter x t none (free, empty) = (free, rw empty (refl))
        shorter x t (some slot) h = shorter-IsArray s.sys.fs.heap x t slot h

    char-IsEdited :
        (c : ℕ)
        → c ≢ 8
        → c ≢ 10
        → IsEdited ports P (t ++ (c ∷ [])) (typed_char s c) ⊎ (typed_char s c ≡ panicked)
    char-IsEdited c other plain =
        let k1 = (io.next s.sys c).1 in
        let test8 : (c == 8) ≡ false = ground (arith, other) in
        let test10 : (c == 10) ≡ false = ground (arith, plain) in
        let same = io.same_heap s.sys c v.writing in
        let line : Holds char_size k1.fs.heap s.curr_command t v.held = rw same v.line in
        elim (push_cases char_size k1.fs.heap s.curr_command t v.held c (rw same v.heap)
          (omega arith) (omega arith) line) [
            | inr (stops, _) ↦ inr (
                unfold shell_char add_char in
                rw (test8, test10, io.returns s.sys c v.writing, stops) (refl))
            | inl p ↦ inl (record {
              out = record s { sys = with_heap k1 p.out; curr_command = p.array };
              returns =
                  unfold shell_char add_char in
                  rw (test8, test10, io.returns s.sys c v.writing, p.returns) (refl);
              valid = record {
                writing = io.allocated k1 p.out (io.keeps s.sys c v.writing);
                heap = p.heap;
                held = some p.slot;
                line = p.holds;
                counted = p.holds.counted;
              };
            })
          ]

    typed_char-IsEdited :
        (c : ℕ)
        → c ≢ 10
        → IsEdited ports P (edit t c) (typed_char s c) ⊎ (typed_char s c ≡ panicked)
    typed_char-IsEdited c plain = elim (ℕ_discrete c 8) [
      | yes e ↦
          let test : (c == 8) ≡ true = ground (arith, e) in inl (rw test (backspace-IsEdited c e))
      | no other ↦
          let test : (c == 8) ≡ false = ground (arith, other) in
          rw test (char-IsEdited c other plain)
    ]

  -- Typing the characters of a line, with backspaces among them and without a newline, in a state
  -- in which writes to the terminal return and leave the heap, returns with the text in
  -- `curr_command` that the edits make of it, in a consistent heap; or it panics.
  pub type_chars-IsEdited :
      (P : System D → Type 0) (cs : List ℕ) (s : Shell D) (t : List ℕ)
      → IsWriting ports P
      → IsEditing ports P s t
      → AreTyped cs
      → IsEdited ports P (edits t cs) (type_chars s cs) ⊎ (type_chars s cs ≡ panicked)
  type_chars-IsEdited P [] s t io v typed = inl (record { out = s; returns = refl; valid = v })
  type_chars-IsEdited P (c ∷ cs) s t io v typed = elim (typed_char-IsEdited P io s t v c typed.0) [
    | inr stops ↦ inr (rw stops (refl))
    | inl r ↦ rw r.returns (type_chars-IsEdited P cs r.out (edit t c) io r.valid typed.1)
  ]
