-- ===== src/Base/Results.antt =====
-- Results of calls that return a value and an error, as a monad.
use mathlib.Core.Path.{◌≡◌, refl}
use mathlib.Core.Logic.{◌≢◌, ◌⊎◌, inl, inr}

-- A Go call that returns a value and an error.
pub data Result {ℓ κ} (E : Type ℓ) (A : Type κ) : Type (ℓ ⊔ κ) where
  ok : A → Result E A
  err : E → Result E A

pub Result-cases {ℓ κ} :
    {E : Type ℓ} {A : Type κ} (r : Result E A) → ((a : A) × (r ≡ ok a)) ⊎ ((e : E) × (r ≡ err e))
Result-cases (ok a) = inl (a, refl)
Result-cases (err e) = inr (e, refl)

infixl 5 ◌>>=◌
abbrev pub ◌>>=◌ {ℓ κ} : {E A : Type ℓ} {B : Type κ} → Result E A → (A → Result E B) → Result E B
ok a >>= f = f a
err e >>= f = err e

pub ok≢err {ℓ κ} : {E : Type ℓ} {A : Type κ} {a : A} {e : E} → ◌≢◌ {A = Result E A} (ok a) (err e)
ok≢err same = cc

-- `fmt.Errorf("…: %w", err)`
abbrev pub map_err {ℓ κ} : {E : Type ℓ} {A : Type κ} → (E → E) → Result E A → Result E A
map_err f (ok a) = ok a
map_err f (err e) = err (f e)

pub >>=_assoc {ℓ κ} :
    {E A : Type ℓ} {B : Type ℓ} {C : Type κ} (m : Result E A) (f : A → Result E B)
    (g : B → Result E C)
    → (m >>= f >>= g) ≡ (m >>= λ a. f a >>= g)
>>=_assoc (ok a) f g = refl
>>=_assoc (err e) f g = refl

-- Continuations that agree at each value.
pub >>=_congr {ℓ κ} :
    {E A : Type ℓ} {B : Type κ} (m : Result E A) (f g : A → Result E B)
    → ((a : A) → f a ≡ g a)
    → (m >>= f) ≡ (m >>= g)
>>=_congr (ok a) f g h = h a
>>=_congr (err e) f g h = refl

-- A chain that succeeds succeeds at each link.
pub >>=-eq-ok {ℓ κ} :
    {E A : Type ℓ} {B : Type κ} (first : Result E A) (next : A → Result E B) {last : B}
    → (first >>= next) ≡ ok last
    → (link : A) × (first ≡ ok link) × (next link ≡ ok last)
>>=-eq-ok (err e) next same = cc
>>=-eq-ok (ok link) next same = (link, refl, same)

pub ok-injective {ℓ κ} :
    {E : Type ℓ} {A : Type κ} {a b : A} → ◌≡◌ {A = Result E A} (ok a) (ok b) → a ≡ b
ok-injective same = cc

pub map_err-eq-ok {ℓ κ} :
    {E : Type ℓ} {A : Type κ} (f : E → E) (r : Result E A) {a : A} → map_err f r ≡ ok a → r ≡ ok a
map_err-eq-ok f (ok a) h = h
map_err-eq-ok f (err e) h = cc
