-- ===== src/Common/Raising.antt =====
-- A computation that may raise: `ok` carries its value, `err` what was raised.
use mathlib.Core.Path.{◌≡◌, refl}
use mathlib.Core.Logic.{◌⊎◌, inl, inr}
use mathlib.Core.Bool.{Bool, true, false}
use mathlib.Core.Option.{Option, none, some}

pub data Result {ℓ} (E A : Type ℓ) : Type ℓ where
  err : E → Result E A
  ok : A → Result E A

infixl 5 ◌>>=◌ ◌>>◌
abbrev pub ◌>>=◌ {ℓ} : {E A B : Type ℓ} → Result E A → (A → Result E B) → Result E B
err raised >>= next = err raised
ok value >>= next = next value

abbrev pub ◌>>◌ : {E B : Type 0} → Result E (Unit {0}) → Result E B → Result E B
first >> second = first >>= λ _. second

-- `if c: raise e`.
abbrev pub raise_if : {E : Type 0} → Bool → E → Result E (Unit {0})
raise_if false raised = ok tt
raise_if true raised = err raised

-- `try: ... except E as exc: raise f(exc)`.
abbrev pub catch_as {ℓ} : {E F A : Type ℓ} → (E → F) → Result E A → Result F A
catch_as f (ok a) = ok a
catch_as f (err e) = err (f e)

-- A value that must be there.
abbrev pub or_raise {ℓ} : {E A : Type ℓ} → Option A → E → Result E A
or_raise none e = err e
or_raise (some a) e = ok a

-- What a successful bind says of its parts.
pub >>=-eq-ok {ℓ} :
    {E A B : Type ℓ} (first : Result E A) (next : A → Result E B) {result : B}
    → (first >>= next) ≡ ok result
    → (value : A) × (first ≡ ok value) × (next value ≡ ok result)
>>=-eq-ok (err raised) next h = cc
>>=-eq-ok (ok value) next h = (value, refl, h)

pub raise_if-eq-ok : {E : Type 0} (c : Bool) (e : E) → raise_if c e ≡ ok tt → c ≡ false
raise_if-eq-ok true e h = cc
raise_if-eq-ok false e h = refl

pub catch_as-eq-ok {ℓ} :
    {E F A : Type ℓ} (f : E → F) (m : Result E A) {a : A} → catch_as f m ≡ ok a → m ≡ ok a
catch_as-eq-ok f (ok a) h = cc
catch_as-eq-ok f (err e) h = cc

pub ok-injective {ℓ} : {E A : Type ℓ} {a b : A} → ◌≡◌ {A = Result E A} (ok a) (ok b) → a ≡ b
ok-injective h = cc

pub some-eq {ℓ} : {A : Type ℓ} {a b : A} → some a ≡ some b → a ≡ b
some-eq h = cc

pub Result-cases {ℓ} :
    {E A : Type ℓ} (r : Result E A) → ((a : A) × (r ≡ ok a)) ⊎ ((e : E) × (r ≡ err e))
Result-cases (ok a) = inl (a, refl)
Result-cases (err e) = inr (e, refl)
