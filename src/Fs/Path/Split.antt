-- ===== src/Fs/Path/Split.antt =====
-- What `parse_path` and `Path` make of a path.
use yo_rha.Base.{
  ℕ, suc, ◌+◌, ◌<◌, ◌≡◌, ◌≢◌, refl, ap, ◌∙◌, List, [], ◌∷◌, ◌++◌, arith, true, ltb, ◌==◌,
  if◌then◌else◌, length, length-append, set, drop,
}
use yo_rha.Base.Outcome.{ok}
use yo_rha.Cstring.Laws.{IsText, terminated, strcpy_lem}
use yo_rha.Fs.Path.{last_slash_from, store_char, split_path}

-- A name without a slash in it.
abbrev NoSlash : List ℕ → Type 0
NoSlash [] = Unit {0}
NoSlash (c ∷ cs) = (c ≢ b'/') × NoSlash cs

last_slash_none :
    (i last : ℕ) (name rest : List ℕ)
    → IsText name
    → NoSlash name
    → last_slash_from i last (terminated name rest) ≡ ok last
unfolding last_slash_from
last_slash_none i last [] rest t n = refl
last_slash_none i last (c ∷ cs) rest t n =
    ground (arith, last_slash_none (i + 1) last cs rest t.2 n.1)

last_slash_lem :
    (i last : ℕ) (dir name rest : List ℕ)
    → IsText (dir ++ (b'/' ∷ name))
    → NoSlash name
    → last_slash_from i last (terminated (dir ++ (b'/' ∷ name)) rest) ≡ ok (i + length dir)
unfolding last_slash_from
last_slash_lem i last [] name rest t n =
    last_slash_none (i + 1) i name rest t.2 n ∙ ap (λ (k : ℕ). ok k) (omega arith)
last_slash_lem i last (c ∷ cs) name rest t n =
    let more : i + 1 + length cs ≡ i + suc (length cs) = omega arith in
    ground (
      arith,
      last_slash_lem (i + 1) (if c == b'/' then i else last) cs name rest t.2 n,
      ap (λ (k : ℕ). ok k) more,
    )

drop_behind : (dir xs : List ℕ) (s : ℕ) → drop (suc (length dir)) (dir ++ (s ∷ xs)) ≡ xs
drop_behind [] xs s = refl
drop_behind (c ∷ cs) xs s = drop_behind cs xs s

append_assoc : (a b c : List ℕ) → (a ++ b) ++ c ≡ a ++ (b ++ c)
append_assoc [] b c = refl
append_assoc (x ∷ a) b c = ap (λ (l : List ℕ). x ∷ l) (append_assoc a b c)

IsText-behind : (dir : List ℕ) (s : ℕ) (name : List ℕ) → IsText (dir ++ (s ∷ name)) → IsText name
IsText-behind [] s name t = t.2
IsText-behind (c ∷ cs) s name t = IsText-behind cs s name t.2

set_behind :
    (dir name rest : List ℕ) (s : ℕ)
    → set (dir ++ (s ∷ terminated name rest)) (suc (length dir)) 0
      ≡ dir ++ (s ∷ (0 ∷ drop 1 (terminated name rest)))
set_behind [] [] rest s = refl
set_behind [] (c ∷ name) rest s = refl
set_behind (d ∷ ds) name rest s = ap (λ (l : List ℕ). d ∷ l) (set_behind ds name rest s)

store_behind :
    (dir name rest : List ℕ) (s : ℕ)
    → store_char (dir ++ (s ∷ terminated name rest)) (suc (length dir)) 0
      ≡ ok (dir ++ (s ∷ (0 ∷ drop 1 (terminated name rest))))
store_behind dir name rest s =
    let room : ltb (suc (length dir)) (length (dir ++ (s ∷ terminated name rest))) ≡ true =
      ground (arith, length-append dir (s ∷ terminated name rest), length-append name (0 ∷ rest)) in
    rw room (ap (λ (l : List ℕ). ok l) (set_behind dir name rest s))

-- A path of nonzero characters is split behind its last slash, if it and the name fit into the
-- two arrays: the directory ends with that slash, the name is what follows it.
pub split_path_lem :
    (dir name rest dir_buffer name_buffer : List ℕ)
    → IsText (dir ++ (b'/' ∷ name))
    → NoSlash name
    → length dir + length name + 1 < length dir_buffer
    → length name < length name_buffer
    → (d n : List ℕ) × (split_path (terminated (dir ++ (b'/' ∷ name)) rest) dir_buffer name_buffer
        ≡ ok
            (record { dir_path = terminated (dir ++ (b'/' ∷ [])) d; filename = terminated name n }))
split_path_lem dir name rest dir_buffer name_buffer t n fits fits_name =
    let path = dir ++ (b'/' ∷ name) in
    let long : length path ≡ length dir + suc (length name) = length-append dir (b'/' ∷ name) in
    let behind = drop (suc (length path)) dir_buffer in
    let copied = strcpy_lem dir_buffer path rest t (omega (arith, long)) in
    let found : last_slash_from 0 0 (terminated path rest) ≡ ok (length dir) =
      last_slash_lem 0 0 dir name rest t n ∙ ap (λ (k : ℕ). ok k) (omega arith) in
    let shifted : length dir + 1 ≡ suc (length dir) = omega arith in
    let regrouped : terminated path behind ≡ dir ++ (b'/' ∷ terminated name behind) =
      append_assoc dir (b'/' ∷ name) (0 ∷ behind) in
    let named = strcpy_lem name_buffer name behind (IsText-behind dir b'/' name t) fits_name in
    (
      drop 1 (terminated name behind),
      drop (suc (length name)) name_buffer,
      (unfold split_path in
          rw
            (
              copied,
              found,
              regrouped,
              shifted,
              drop_behind dir (terminated name behind) b'/',
              named,
              store_behind dir name behind b'/',
              append_assoc dir (b'/' ∷ []) (0 ∷ drop 1 (terminated name behind)),
            )
            (refl)),
    )
