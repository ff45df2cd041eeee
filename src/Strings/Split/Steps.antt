-- ===== src/Strings/Split/Steps.antt =====
-- One character of `string_split`.
use mathlib.Core.List.{map-append}
use yo_rha.Base.{
  ℕ, ◌<◌, ◌≡◌, ◌≢◌, refl, sym, ap, ◌∙◌, ◌⊎◌, inl, inr, Bool, true, false, List, [], ◌∷◌, ◌++◌,
  Option, none, some, map, arith, length-append, take,
}
use yo_rha.Base.Outcome.{Outcome, ok, panicked}
use yo_rha.Heap.{AllocEntry, AllocArray}
use yo_rha.Heap.Invariant.{Live}
use yo_rha.Heap.Malloc.{IsHeap}
use yo_rha.Strings.Growing.{Growing, empty, push}
use yo_rha.Strings.Growing.Push.{
  IsArray, Holds, Keeps, IsArray-Keeps, IsPushed, push_cases, LacksRoom,
}
use yo_rha.Strings.Split.{Text, char_size, string_size, Splitting, finish_piece, split_char}
use yo_rha.Strings.Split.Pieces.{toggle, cuts}

-- The bytes of a string.
abbrev pub string_bytes : Text → List ℕ
string_bytes s = take s.len s.contents

abbrev pub zero_ended : List ℕ → List ℕ
zero_ended t = t ++ (0 ∷ [])

pub Holds-Keeps {ℓ} :
    {A : Type ℓ} (size : ℕ) (a b : AllocArray) (s : Growing A) (xs : List A) (held other : Option ℕ)
    → Keeps a b other
    → ((k : ℕ) → held ≡ some k → other ≢ some k)
    → Holds size a s xs held
    → Holds size b s xs held
Holds-Keeps size a b s xs none other keeps apart v = v
Holds-Keeps size a b s xs (some slot) other keeps apart v =
    IsArray-Keeps size a b s xs slot other keeps (apart slot refl) v

-- The state of the split with the finished pieces `done` and the piece `t` in progress.
pub record IsSplitting (st : Splitting) (done : List (List ℕ)) (t : List ℕ) : Type 0 where
  pub heap : IsHeap st.heap
  pub sl_slot : Option ℕ
  pub curr_slot : Option ℕ
  pub strings : List Text
  pub sl : Holds string_size st.heap st.sl strings sl_slot
  pub curr : Holds char_size st.heap st.curr t curr_slot
  pub apart : (k : ℕ) → sl_slot ≡ some k → curr_slot ≢ some k
  pub texts : map string_bytes strings ≡ map zero_ended done

-- One of the two `APPEND`s at the end of a piece needs a block for which there is no room.
abbrev pub LacksPieceRoom : Splitting → Type 0
LacksPieceRoom st =
    LacksRoom char_size st.heap st.curr
    ⊎ ((p : AllocArray × Text) × (push char_size st.heap st.curr 0 ≡ ok p)
        × LacksRoom string_size p.0 st.sl)

-- A slot of a held array is in use.
held-Live {ℓ} :
    {A : Type ℓ} (size : ℕ) (a : AllocArray) (s : Growing A) (xs : List A) (held : Option ℕ) (k : ℕ)
    → Holds size a s xs held
    → held ≡ some k
    → (f : AllocEntry) × Live a.entries k f
held-Live size a s xs none k v e = cc
held-Live size a s xs (some slot) k v e = rw (sym (some_path e)) (v.entry, v.live)
  where
    some_path : some slot ≡ some k → slot ≡ k
    some_path e = cc

pub record IsStepped (done : List (List ℕ)) (t : List ℕ) (result : Outcome Splitting) (q : Bool)
    : Type 0 where
  pub out : Splitting
  pub returns : result ≡ ok out
  pub valid : IsSplitting out done t
  pub started : 0 < out.curr.len
  pub quoted : out.in_string ≡ q

module _ (st : Splitting) (done : List (List ℕ)) (t : List ℕ) (v : IsSplitting st done t) where
  -- `curr` after an `APPEND`, with the list of strings where it was.
  module _ (c : ℕ)
      (p : IsPushed char_size st.heap v.curr_slot
        (t ++ c ∷ [])
        (push char_size st.heap st.curr c)) where
    fresh_slot : (k : ℕ) → v.sl_slot ≡ some k → p.slot ≢ k
    fresh_slot k e =
        let used = held-Live string_size st.heap st.sl v.strings v.sl_slot k v.sl e in
        p.fresh k used.0 used.1 (v.apart k e)

    sl_after : Holds string_size p.out st.sl v.strings v.sl_slot
    sl_after =
        Holds-Keeps string_size st.heap p.out st.sl v.strings v.sl_slot v.curr_slot p.keeps v.apart
          v.sl

    kept-IsSplitting :
        (q : Bool)
        → IsSplitting (record st { heap = p.out; curr = p.array; in_string = q }) done (t ++ c ∷ [])
    kept-IsSplitting q = record {
      heap = p.heap;
      sl_slot = v.sl_slot;
      curr_slot = some p.slot;
      strings = v.strings;
      sl = sl_after;
      curr = p.holds;
      apart = λ k e same. fresh_slot k e (cc same);
      texts = v.texts;
    }

    array_started : 0 < p.array.len
    array_started = omega (arith, p.holds.counted, length-append t (c ∷ []))

  -- After `APPEND(curr, '\0')` and `APPEND(sl, curr)`.
  pub record IsFinished (result : Outcome Splitting) : Type 0 where
    pub out : Splitting
    pub returns : result ≡ ok out
    pub heap : IsHeap out.heap
    pub slot : ℕ
    pub strings : List Text
    pub sl : IsArray string_size out.heap out.sl strings slot
    pub texts : map string_bytes strings ≡ map zero_ended (done ++ t ∷ [])
    pub started : 0 < out.curr.len

  pub finish_piece_cases :
      IsFinished (finish_piece st) ⊎ (finish_piece st ≡ panicked) × LacksPieceRoom st
  finish_piece_cases =
      elim (push_cases char_size st.heap st.curr t v.curr_slot 0 v.heap (omega arith) (omega arith)
        v.curr) [
          | inr (stops, why) ↦ inr ((unfold finish_piece in rw stops (refl)), inl why)
          | inl p ↦
              elim (push_cases string_size p.out st.sl v.strings v.sl_slot p.array p.heap
                (omega arith) (omega arith) (sl_after 0 p)) [
                  | inr (stops, why) ↦ inr (
                    (unfold finish_piece in rw (p.returns, stops) (refl)),
                    inr ((p.out, p.array), p.returns, why),
                  )
                  | inl l ↦ inl (record {
                    out = record st { heap = l.out; sl = l.array; curr = p.array };
                    returns = unfold finish_piece in rw (p.returns, l.returns) (refl);
                    heap = l.heap;
                    slot = l.slot;
                    strings = v.strings ++ p.array ∷ [];
                    sl = l.holds;
                    texts =
                        map-append string_bytes v.strings (p.array ∷ [])
                        ∙ ap (λ (x : List (List ℕ)). x ++ string_bytes p.array ∷ []) v.texts
                        ∙ ap (λ (x : List ℕ). map zero_ended done ++ x ∷ []) p.holds.elements
                        ∙ sym (map-append zero_ended done (t ∷ []));
                    started = array_started 0 p;
                  })
                ]
        ]

  module _ (delim : ℕ) (reserve_quotes : Bool) (c : ℕ) where
    pub cut_cases :
        cuts delim reserve_quotes st.in_string c ≡ true
        → IsStepped
            (done ++ t ∷ [])
            []
            (split_char delim reserve_quotes st c)
            (toggle st.in_string c)
          ⊎ (split_char delim reserve_quotes st c ≡ panicked) × LacksPieceRoom st
    cut_cases cut = elim finish_piece_cases [
      | inr (stops, why) ↦ inr ((unfold split_char in rw (cut, stops) (refl)), why)
      | inl f ↦ inl (record {
        out = record f.out {
          curr = record f.out.curr { capacity = 0 };
          in_string = toggle st.in_string c;
        };
        returns = unfold split_char in rw (cut, f.returns) (refl);
        valid = record {
          heap = f.heap;
          sl_slot = some f.slot;
          curr_slot = none;
          strings = f.strings;
          sl = f.sl;
          curr = (refl, refl);
          apart = λ k e same. cc;
          texts = f.texts;
        };
        started = f.started;
        quoted = refl;
      })
    ]

    pub kept_cases :
        cuts delim reserve_quotes st.in_string c ≡ false
        → IsStepped done
            (t ++ c ∷ [])
            (split_char delim reserve_quotes st c)
            (toggle st.in_string c)
          ⊎ (split_char delim reserve_quotes st c ≡ panicked) × LacksRoom char_size st.heap st.curr
    kept_cases kept =
        elim (push_cases char_size st.heap st.curr t v.curr_slot c v.heap (omega arith)
          (omega arith) v.curr) [
            | inr (stops, why) ↦ inr ((unfold split_char in rw (kept, stops) (refl)), why)
            | inl p ↦ inl (record {
              out = record st { heap = p.out; curr = p.array; in_string = toggle st.in_string c };
              returns = unfold split_char in rw (kept, p.returns) (refl);
              valid = kept-IsSplitting c p (toggle st.in_string c);
              started = array_started c p;
              quoted = refl;
            })
          ]

abbrev pub start : AllocArray → Splitting
start a = record { heap = a; sl = empty; curr = empty; in_string = false }

pub start-IsSplitting : (a : AllocArray) → IsHeap a → IsSplitting (start a) [] []
start-IsSplitting a heap = record {
  heap = heap;
  sl_slot = none;
  curr_slot = none;
  strings = [];
  sl = (refl, refl);
  curr = (refl, refl);
  apart = λ k e same. cc;
  texts = refl;
}
