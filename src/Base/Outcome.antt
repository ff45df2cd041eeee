-- ===== src/Base/Outcome.antt =====
-- How a call ends. `panicked` is the halt of `panic` (util.c), `fault` an access outside an array,
-- which C leaves undefined, and `diverges` a loop that used up the fuel of its model.
use mathlib.Core.Bool.{Bool, true, false}
use mathlib.Core.Option.{Option, none, some}
use mathlib.Core.Path.{◌≡◌, refl}
use mathlib.Core.Logic.{◌≢◌}

pub data Outcome {ℓ} (A : Type ℓ) : Type ℓ where
  ok : A → Outcome A
  panicked : Outcome A
  fault : Outcome A
  diverges : Outcome A

infixl 5 ◌>>=◌ ◌>>◌
abbrev pub ◌>>=◌ {ℓ κ} : {A : Type ℓ} {B : Type κ} → Outcome A → (A → Outcome B) → Outcome B
ok a >>= f = f a
panicked >>= f = panicked
fault >>= f = fault
diverges >>= f = diverges

abbrev pub ◌>>◌ {κ} : {B : Type κ} → Outcome (Unit {0}) → Outcome B → Outcome B
m >> k = m >>= λ _. k

-- ASSERT of util.h.
abbrev pub assert : Bool → Outcome (Unit {0})
assert true = ok tt
assert false = panicked

-- An array access.
abbrev pub in_bounds {ℓ} : {A : Type ℓ} → Option A → Outcome A
in_bounds none = fault
in_bounds (some a) = ok a

-- A call whose continuation does not end well does not end well.
pub bind_ne_ok {ℓ κ} :
    {A : Type ℓ} {B : Type κ} (m : Outcome A) (f : A → Outcome B) (b : B)
    → ((a : A) → m ≡ ok a → f a ≢ ok b)
    → (m >>= f) ≢ ok b
bind_ne_ok (ok a) f b never = never a refl
bind_ne_ok panicked f b never = λ e. cc
bind_ne_ok fault f b never = λ e. cc
bind_ne_ok diverges f b never = λ e. cc

pub bind_assoc {ℓ κ μ} :
    {A : Type ℓ} {B : Type κ} {C : Type μ} (m : Outcome A) (f : A → Outcome B) (g : B → Outcome C)
    → ((m >>= f) >>= g) ≡ (m >>= λ a. f a >>= g)
bind_assoc (ok a) f g = refl
bind_assoc panicked f g = refl
bind_assoc fault f g = refl
bind_assoc diverges f g = refl

-- A call that ends well has a first part that ends well.
pub bind_ok {ℓ κ} :
    {A : Type ℓ} {B : Type κ} (m : Outcome A) (f : A → Outcome B) (b : B)
    → (m >>= f) ≡ ok b
    → (a : A) × (m ≡ ok a) × (f a ≡ ok b)
bind_ok (ok a) f b e = (a, refl, e)
bind_ok panicked f b e = cc
bind_ok fault f b e = cc
bind_ok diverges f b e = cc
