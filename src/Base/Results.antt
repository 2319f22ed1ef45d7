-- ===== src/Base/Results.antt =====
-- Thrown errors as values. A method that throws before it writes is a `Result` of its new state.
use mathlib.Core.Path.{◌≡◌, refl}
use mathlib.Core.Bool.{Bool, true, false}
use mathlib.Core.Option.{Option, none, some}

pub data Result {ℓ κ} (E : Type ℓ) (A : Type κ) : Type (ℓ ⊔ κ) where
  ok : A → Result E A
  err : E → Result E A

-- `if (!test) throw error`
abbrev pub guard {ℓ} : {E : Type ℓ} → Bool → E → Result E (Unit {0})
guard false e = err e
guard true e = ok tt

-- `if (!value) throw error`
abbrev pub or_throw {ℓ κ} : {E : Type ℓ} {A : Type κ} → Option A → E → Result E A
or_throw none e = err e
or_throw (some a) e = ok a

infixl 5 ◌>>=◌ ◌>>◌
abbrev pub ◌>>=◌ {ℓ κ μ} :
    {E : Type ℓ} {A : Type κ} {B : Type μ} → Result E A → (A → Result E B) → Result E B
err e >>= k = err e
ok x >>= k = k x

abbrev pub ◌>>◌ {ℓ κ} : {E : Type ℓ} {B : Type κ} → Result E (Unit {0}) → Result E B → Result E B
m >> k = m >>= λ _. k

abbrev pub map_ok {ℓ κ μ} :
    {E : Type ℓ} {A : Type κ} {B : Type μ} → (A → B) → Result E A → Result E B
map_ok f (err e) = err e
map_ok f (ok a) = ok (f a)

module _ {ℓ κ} {E : Type ℓ} where
  pub >>=-eq-ok {μ} :
      {A : Type μ} {B : Type κ} (m : Result E A) (f : A → Result E B) {b : B}
      → (m >>= f) ≡ ok b
      → (a : A) × (m ≡ ok a) × (f a ≡ ok b)
  >>=-eq-ok (err e) f h = cc
  >>=-eq-ok (ok a) f h = (a, refl, h)

  pub map_ok->>= {μ ν} :
      {A : Type μ} {B : Type κ} {C : Type ν} (f : B → C) (m : Result E A) (k : A → Result E B)
      (k' : A → Result E C)
      → ((a : A) → k' a ≡ map_ok f (k a))
      → (m >>= k') ≡ map_ok f (m >>= k)
  map_ok->>= f (err e) k k' h = refl
  map_ok->>= f (ok a) k k' h = h a

  pub ok-injective : {A : Type κ} {a b : A} → Path (Result E A) (ok a) (ok b) → a ≡ b
  ok-injective h = cc

  pub guard-eq-ok :
      {B : Type κ} (b : Bool) (e : E) (k : Result E B) {r : B}
      → (guard b e >> k) ≡ ok r
      → (b ≡ true) × (k ≡ ok r)
  guard-eq-ok true e k h = (refl, h)
  guard-eq-ok false e k h = cc

  pub or_throw-eq-ok :
      {A : Type κ} (o : Option A) (e : E) {a : A} → or_throw o e ≡ ok a → o ≡ some a
  or_throw-eq-ok none e h = cc
  or_throw-eq-ok (some a) e h = cc

-- The state after a method: an error leaves what there was.
abbrev pub after {ℓ κ} : {E : Type ℓ} {S : Type κ} → S → Result E S → S
after s (ok t) = t
after s (err e) = s

-- What holds of a state and of every state that a method returns holds after it.
pub after-keeps {ℓ κ μ} :
    {E : Type ℓ} {S : Type κ} (P : S → Type μ) (s : S) (r : Result E S)
    → ((t : S) → r ≡ ok t → P t)
    → P s
    → P (after s r)
after-keeps P s (ok t) keeps h = keeps t refl
after-keeps P s (err e) keeps h = h

-- A method that throws after it wrote, and puts its snapshot back.
abbrev pub restored {ℓ κ μ} :
    {E : Type ℓ} {S : Type κ} {A : Type μ} → S → Result E A × S → Result E A × S
restored s (ok a, t) = (ok a, t)
restored s (err e, t) = (err e, s)
