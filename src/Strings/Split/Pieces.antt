-- ===== src/Strings/Split/Pieces.antt =====
-- The pieces of a text between the delimiters that are not quoted.
use mathlib.Core.Path.{subst}
use yo_rha.Base.{
  ℕ, ◌≡◌, refl, sym, ap, ◌∙◌, inl, inr, List, [], ◌∷◌, ◌++◌, Bool, true, false, not, ◌&&◌, ◌||◌,
  arith, ◌==◌, if◌then◌else◌, Bool-cases,
}

-- The quotes stay in the text; the delimiter may be one.
abbrev pub toggle : Bool → ℕ → Bool
toggle quoted c = if c == b'"' then not quoted else quoted

abbrev pub toggle_all : Bool → List ℕ → Bool
toggle_all quoted [] = quoted
toggle_all quoted (c ∷ cs) = toggle_all (toggle quoted c) cs

-- A text with `delim` between its pieces, of which there is at least one.
abbrev pub join : ℕ → List ℕ → List (List ℕ) → List ℕ
join delim head [] = head
join delim head (t ∷ ts) = head ++ (delim ∷ join delim t ts)

module _ (delim : ℕ) (reserve_quotes : Bool) where
  abbrev pub cuts : Bool → ℕ → Bool
  cuts quoted c = (c == delim) && (not (toggle quoted c) || not reserve_quotes)

  -- No character of the text ends a piece.
  abbrev pub IsUnbroken : Bool → List ℕ → Type 0
  IsUnbroken quoted [] = Unit
  IsUnbroken quoted (c ∷ cs) = (cuts quoted c ≡ false) × IsUnbroken (toggle quoted c) cs

  -- Every delimiter between two pieces ends a piece, and nothing else does.
  abbrev pub ArePieces : Bool → List ℕ → List (List ℕ) → Type 0
  ArePieces quoted head [] = IsUnbroken quoted head
  ArePieces quoted head (t ∷ ts) =
      IsUnbroken quoted head
      × (cuts (toggle_all quoted head) delim ≡ true)
      × ArePieces (toggle (toggle_all quoted head) delim) t ts

  abbrev cut_char : Bool → ℕ → List ℕ × List (List ℕ) → List ℕ × List (List ℕ)
  cut_char true c p = ([], p.0 ∷ p.1)
  cut_char false c p = (c ∷ p.0, p.1)

  abbrev pub pieces : Bool → List ℕ → List ℕ × List (List ℕ)
  pieces quoted [] = ([], [])
  pieces quoted (c ∷ cs) = cut_char (cuts quoted c) c (pieces (toggle quoted c) cs)

  cuts_delim : (quoted : Bool) (c : ℕ) → cuts quoted c ≡ true → c ≡ delim
  cuts_delim quoted c e = ground arith

  join_cons :
      (c : ℕ) (head : List ℕ) (rest : List (List ℕ))
      → join delim (c ∷ head) rest ≡ c ∷ join delim head rest
  join_cons c head [] = refl
  join_cons c head (t ∷ ts) = refl

  pub join-pieces :
      (quoted : Bool) (t : List ℕ) → join delim (pieces quoted t).0 (pieces quoted t).1 ≡ t
  join-pieces quoted [] = refl
  join-pieces quoted (c ∷ cs) =
      let p = pieces (toggle quoted c) cs in
      let more = join-pieces (toggle quoted c) cs in
      elim (Bool-cases (cuts quoted c)) [
        | inl cut ↦ rw (cut, more) (ap (λ (k : ℕ). k ∷ cs) (sym (cuts_delim quoted c cut)))
        | inr kept ↦ rw kept (join_cons c p.0 p.1 ∙ ap (λ (l : List ℕ). c ∷ l) more)
      ]

  cons-ArePieces :
      (quoted : Bool) (c : ℕ) (head : List ℕ) (rest : List (List ℕ))
      → cuts quoted c ≡ false
      → ArePieces (toggle quoted c) head rest
      → ArePieces quoted (c ∷ head) rest
  cons-ArePieces quoted c head [] kept h = (kept, h)
  cons-ArePieces quoted c head (t ∷ ts) kept h = ((kept, h.0), h.1, h.2)

  pub pieces-ArePieces :
      (quoted : Bool) (t : List ℕ) → ArePieces quoted (pieces quoted t).0 (pieces quoted t).1
  pieces-ArePieces quoted [] = tt
  pieces-ArePieces quoted (c ∷ cs) =
      let p = pieces (toggle quoted c) cs in
      let more = pieces-ArePieces (toggle quoted c) cs in
      elim (Bool-cases (cuts quoted c)) [
        | inl cut ↦
            let at_delim : cuts quoted delim ≡ true = rw (cuts_delim quoted c cut) at cut in
            let same : toggle quoted c ≡ toggle quoted delim =
              ap (toggle quoted) (cuts_delim quoted c cut) in
            rw cut (tt, at_delim, subst (λ (q : Bool). ArePieces q p.0 p.1) same more)
        | inr kept ↦ rw kept (cons-ArePieces quoted c p.0 p.1 kept more)
      ]
