-- ===== src/Common/Tests.antt =====
-- Boolean tests on the native numbers, with their readings for `omega`.
use Prim.Native.Nat.{ℕ, ◌<◌, ◌≤◌, compare, Ordering}
use mathlib.Core.Path.{◌≡◌, refl}
use mathlib.Core.Logic.{◌⊎◌, inl, inr, ◌↔◌}
use mathlib.Core.Bool.{Bool, true, false, ◌&&◌}
use mathlib.Core.Option.{Option, none, some}
use native.Mathlib.Omega.{arith}

abbrev pub ltb : ℕ → ℕ → Bool
ltb a b = elim (compare a b) [ Ordering.lt ↦ true | _ ↦ false ]

abbrev pub leb : ℕ → ℕ → Bool
leb a b = elim (compare a b) [ Ordering.gt ↦ false | _ ↦ true ]

infix 50 ◌==◌
abbrev pub ◌==◌ : ℕ → ℕ → Bool
a == b = elim (compare a b) [ Ordering.eq ↦ true | _ ↦ false ]

infix 1 if◌then◌else◌
abbrev pub if◌then◌else◌ {ℓ} : {A : Type ℓ} → Bool → A → A → A
if true then x else y = x
if false then x else y = y

pub ==_iff : (a b : ℕ) → (a == b ≡ true) ↔ (a ≡ b)
==_iff a b = (λ h. ground arith, λ h. ground arith)

pub ==_refl : (a : ℕ) → (a == a) ≡ true
==_refl a = ground arith

pub ltb-false : (a b : ℕ) → ltb a b ≡ false → b ≤ a
ltb-false a b h = ground arith

pub ltb-true : (a b : ℕ) → ltb a b ≡ true → a < b
ltb-true a b h = ground arith

pub leb-true : (a b : ℕ) → leb a b ≡ true → a ≤ b
leb-true a b h = ground arith

pub leb-false : (a b : ℕ) → leb a b ≡ false → b < a
leb-false a b h = ground arith

pub Bool-cases : (b : Bool) → (b ≡ true) ⊎ (b ≡ false)
Bool-cases true = inl refl
Bool-cases false = inr refl

pub Option-cases {ℓ} : {A : Type ℓ} (o : Option A) → (o ≡ none) ⊎ ((a : A) × (o ≡ some a))
Option-cases none = inl refl
Option-cases (some a) = inr (a, refl)

pub &&-true : (a b : Bool) → a && b ≡ true → (a ≡ true) × (b ≡ true)
&&-true true b h = (refl, h)
&&-true false b h = ground arith

abbrev pub is_some {ℓ} : {A : Type ℓ} → Option A → Bool
is_some none = false
is_some (some a) = true

abbrev pub option_or {ℓ} : {A : Type ℓ} → Option A → A → A
option_or none d = d
option_or (some a) d = a
