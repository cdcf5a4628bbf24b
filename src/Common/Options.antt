-- ===== src/Common/Options.antt =====
-- Chains of steps that may fail: `do` blocks over `Option`.
use mathlib.Core.Path.{◌≡◌, refl}
use mathlib.Core.Option.{Option, none, some}

infixl 5 ◌>>=◌
abbrev pub ◌>>=◌ {ℓ κ} : {A : Type ℓ} {B : Type κ} → Option A → (A → Option B) → Option B
none >>= f = none
some a >>= f = f a

pub >>=-eq-some {ℓ κ} :
    {A : Type ℓ} {B : Type κ} (m : Option A) (f : A → Option B) {b : B}
    → (m >>= f) ≡ some b
    → (a : A) × (m ≡ some a) × (f a ≡ some b)
>>=-eq-some (some a) f h = (a, refl, h)
>>=-eq-some none f h = cc

-- Where a chain whose later steps always succeed fails, its first step failed.
pub none_of {ℓ κ} :
    {A : Type ℓ} {B : Type κ} (m : Option A) (f : A → B) → (m >>= λ a. some (f a)) ≡ none → m ≡ none
none_of none f h = refl
none_of (some a) f h = cc
