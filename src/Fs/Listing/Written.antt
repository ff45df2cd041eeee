-- ===== src/Fs/Listing/Written.antt =====
-- The buffer of a listing: what the writes leave in it.
use mathlib.Core.List.{append_assoc}
use yo_rha.Base.{
  ℕ, zero, suc, ◌+◌, ◌<◌, ◌≡◌, refl, sym, ap, true, List, [], ◌∷◌, ◌++◌, arith, ltb, length,
  length-append, length-drop, set, take, drop, take-append, drop-append,
}
use yo_rha.Base.Outcome.{Outcome, ok}
use yo_rha.Cstring.Laws.{IsText, terminated, strcat_lem}
use yo_rha.Fs.Listing.{Output, put_text, put_char}

-- The text `written` is in the buffer of `total` bytes, up to the position.
pub record IsOutput (total : ℕ) (o : Output) (written : List ℕ) : Type 0 where
  pub free : List ℕ
  pub bytes : o.buffer ≡ written ++ free
  pub at : o.pos ≡ length written
  pub whole : length written + length free ≡ total

pub record IsPut (total : ℕ) (written : List ℕ) (result : Outcome Output) : Type 0 where
  pub out : Output
  pub returns : result ≡ ok out
  pub valid : IsOutput total out written

module _ (total : ℕ) (o : Output) (written : List ℕ) (v : IsOutput total o written) where
  pub put_text_lem :
      (t rest : List ℕ)
      → IsText t
      → length written + length t < total
      → IsPut total (written ++ t) (put_text o (terminated t rest))
  put_text_lem t rest text lt =
      let behind : drop o.pos o.buffer ≡ v.free =
        rw v.bytes (drop-append written v.free o.pos v.at) in
      let before : take o.pos o.buffer ≡ written =
        rw v.bytes (take-append written v.free o.pos v.at) in
      let copied = strcat_lem v.free t rest text (omega (arith, v.whole)) in
      record {
        out = record {
          buffer = written ++ terminated t (drop (suc (length t)) v.free);
          pos = o.pos + length t;
        };
        returns = unfold put_text in rw (behind, before, copied) (refl);
        valid = record {
          free = 0 ∷ drop (suc (length t)) v.free;
          bytes = sym (append_assoc written t (0 ∷ drop (suc (length t)) v.free));
          at = omega (arith, v.at, length-append written t);
          whole = omega (
            arith,
            v.whole,
            length-append written t,
            length-drop (suc (length t)) v.free (omega (arith, v.whole)),
          );
        };
      }

  pub put_char_lem :
      (c : ℕ) → length written < total → IsPut total (written ++ c ∷ []) (put_char o c)
  put_char_lem c lt = first v.free v.bytes v.whole
    where
      set_behind :
          (ws : List ℕ) (f : ℕ) (fs : List ℕ) (n : ℕ)
          → n ≡ length ws
          → set (ws ++ (f ∷ fs)) n c ≡ ws ++ (c ∷ fs)
      set_behind [] f fs zero e = refl
      set_behind [] f fs (suc n) e = absurd (omega (arith, e))
      set_behind (w ∷ ws) f fs zero e = absurd (omega (arith, e))
      set_behind (w ∷ ws) f fs (suc n) e =
          ap (λ (l : List ℕ). w ∷ l) (set_behind ws f fs n (omega (arith, e)))

      first :
          (free : List ℕ)
          → o.buffer ≡ written ++ free
          → length written + length free ≡ total
          → IsPut total (written ++ c ∷ []) (put_char o c)
      first [] bytes whole = absurd (omega (arith, whole))
      first (f ∷ free) bytes whole =
          let inside : ltb o.pos (length (written ++ (f ∷ free))) ≡ true =
            ground (arith, v.at, length-append written (f ∷ free)) in
          record {
            out = record { buffer = written ++ (c ∷ free); pos = o.pos + 1 };
            returns =
                unfold put_char in rw (bytes, inside, set_behind written f free o.pos v.at) (refl);
            valid = record {
              free = free;
              bytes = sym (append_assoc written (c ∷ []) free);
              at = omega (arith, v.at, length-append written (c ∷ []));
              whole = omega (arith, whole, length-append written (c ∷ []));
            };
          }
