-- ===== src/Cstring.antt =====
-- The string functions of src/string.c. A `const char*` is the list of the bytes from it to the end
-- of its array, and reading or writing past that is `fault`.
pub mod Laws
mod Tests
use yo_rha.Base.{ℕ, zero, suc, ◌+◌, ◌%◌, ◌^◌, List, [], ◌∷◌, Bool, not, ◌&&◌, ◌==◌, if◌then◌else◌}
use yo_rha.Base.Int.{ℤ, sub_ℕ}
use yo_rha.Base.Outcome.{Outcome, ok, fault, ◌>>=◌}

-- `len` characters have been passed.
pub strlen_from : ℕ → List ℕ → Outcome ℕ
strlen_from len [] = fault
strlen_from len (c ∷ cs) = let rest = strlen_from (len + 1) cs in if c == 0 then ok len else rest

pub strlen : List ℕ → Outcome ℕ
strlen str = strlen_from 0 str

-- A `char` is signed: 128 is added to both sides of the difference.
pub char_difference : ℕ → ℕ → ℤ
char_difference a b = sub_ℕ ((a + 128) % 256) ((b + 128) % 256)

pub strcmp : List ℕ → List ℕ → Outcome ℤ
strcmp [] str2 = fault
strcmp (a ∷ as') [] = fault
strcmp (a ∷ as') (b ∷ bs) =
    let rest = strcmp as' bs in if not (a == 0) && (a == b) then rest else ok (char_difference a b)

-- The destination with the characters and the terminating zero written over it.
pub strcpy : List ℕ → List ℕ → Outcome (List ℕ)
strcpy [] source = fault
strcpy (d ∷ ds) [] = fault
strcpy (d ∷ ds) (c ∷ cs) =
    let rest = strcpy ds cs >>= λ ds'. ok (c ∷ ds') in if c == 0 then ok (0 ∷ ds) else rest

-- `strcat(src, dst)` copies like `strcpy`, and returns the number of characters.
pub strcat : List ℕ → List ℕ → Outcome (ℕ × List ℕ)
strcat src [] = fault
strcat [] (d ∷ ds) = fault
strcat (c ∷ cs) (d ∷ ds) =
    let rest = strcat cs ds >>= λ r. ok (r.0 + 1, c ∷ r.1) in
    if c == 0 then ok (0, 0 ∷ ds) else rest
