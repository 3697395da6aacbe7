-- ===== src/Prelude/Outcome.antt =====
-- A run of kernel code that can stop. `none` stands for a failed `assert`, a `panic`, and an access
-- outside the memory that is modelled; `some` carries what the code returns.
use mathlib.Core.Path.{◌≡◌, refl}
use mathlib.Core.Option.{Option, none, some}
use mathlib.Core.Bool.{Bool, true, false}

infixl 5 ◌>>=◌ ◌>>◌
abbrev pub ◌>>=◌ {ℓ κ} : {A : Type ℓ} {B : Type κ} → Option A → (A → Option B) → Option B
none >>= f = none
some a >>= f = f a

abbrev pub ◌>>◌ {ℓ} : {B : Type ℓ} → Option (Unit {0}) → Option B → Option B
m >> k = m >>= λ _. k

pub none_after {ℓ κ} : {A : Type ℓ} {B : Type κ} (m : Option A) → ◌>>=◌ {B = B} m (λ _. none) ≡ none
none_after none = refl
none_after (some a) = refl

-- The kernel's `assert`.
abbrev pub assert : Bool → Option (Unit {0})
assert true = some tt
assert false = none

-- What a run returns satisfies `P`, and the run does return.
pub data Returns {ℓ κ} {A : Type ℓ} (P : A → Type κ) : Option A → Type (ℓ ⊔ κ) where
  returns : {a : A} → P a → Returns P (some a)

module _ {ℓ κ} {A : Type ℓ} {P : A → Type κ} where
  pub Returns-bind {ι} :
      {B : Type ℓ} {Q : B → Type ι} {m : Option A} {f : A → Option B}
      → Returns P m
      → ((a : A) → P a → Returns Q (f a))
      → Returns Q (m >>= f)
  Returns-bind (returns p) next = next _ p

  -- The same where the first part ends by computing with its result.
  pub Returns-bind_map {ι} :
      {B C : Type ℓ} {Q : C → Type ι} {m : Option A} (f : A → B) (k : B → Option C)
      → Returns P m
      → ((a : A) → P a → Returns Q (k (f a)))
      → Returns Q (m >>= (λ a. some (f a)) >>= k)
  Returns-bind_map f k (returns p) next = next _ p

  pub Returns-mono {ι} :
      {Q : A → Type ι} {m : Option A} → Returns P m → ((a : A) → P a → Q a) → Returns Q m
  Returns-mono (returns p) weaken = returns (weaken _ p)

pub >>=-eq-some {ℓ κ} :
    {A : Type ℓ} {B : Type κ} (m : Option A) (f : A → Option B) {b : B}
    → (m >>= f) ≡ some b
    → (a : A) × (m ≡ some a) × (f a ≡ some b)
>>=-eq-some none f h = cc
>>=-eq-some (some a) f h = (a, refl, h)
