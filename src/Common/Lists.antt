-- ===== src/Common/Lists.antt =====
-- Lists measured and cut by native numbers, and Boolean searches.
use Prim.Native.Nat.{ℕ, zero, suc, ◌+◌, ◌-◌, ◌≤◌, min}
use mathlib.Core.Path.{◌≡◌, refl, sym, ap, ◌∙◌, subst}
use mathlib.Core.Logic.{inl, inr}
use mathlib.Core.Bool.{Bool, true, false, ◌&&◌, ◌||◌}
use mathlib.Core.Option.{Option, none, some}
use mathlib.Core.List.{List, [], ◌∷◌, ◌++◌}
use native.Mathlib.Omega.{arith}
use jeeves.Common.Tests.{if◌then◌else◌, is_some, Bool-cases}

module _ {ℓ} {A : Type ℓ} where
  abbrev pub length : List A → ℕ
  length [] = 0
  length (x ∷ xs) = suc (length xs)

  abbrev pub take : ℕ → List A → List A
  take zero xs = []
  take (suc n) [] = []
  take (suc n) (x ∷ xs) = x ∷ take n xs

  abbrev pub drop : ℕ → List A → List A
  drop zero xs = xs
  drop (suc n) [] = []
  drop (suc n) (x ∷ xs) = drop n xs

  abbrev pub replicate : ℕ → A → List A
  replicate zero a = []
  replicate (suc n) a = a ∷ replicate n a

  abbrev pub get_elem? : List A → ℕ → Option A
  get_elem? [] i = none
  get_elem? (x ∷ xs) zero = some x
  get_elem? (x ∷ xs) (suc i) = get_elem? xs i

  abbrev pub any : (A → Bool) → List A → Bool
  any p [] = false
  any p (x ∷ xs) = p x || any p xs

  abbrev pub all : (A → Bool) → List A → Bool
  all p [] = true
  all p (x ∷ xs) = p x && all p xs

  -- The first element that passes, as `next(... if ..., None)` finds it.
  abbrev pub find : (A → Bool) → List A → Option A
  find p [] = none
  find p (x ∷ xs) = if p x then some x else find p xs

  abbrev pub keep_if : (A → Bool) → List A → List A
  keep_if p [] = []
  keep_if p (x ∷ xs) = if p x then x ∷ keep_if p xs else keep_if p xs

module _ {ℓ} {A : Type ℓ} where
  pub length-append : (xs ys : List A) → length (xs ++ ys) ≡ length xs + length ys
  length-append [] ys = omega arith
  length-append (x ∷ xs) ys = omega (arith, length-append xs ys)

  pub length-replicate : (n : ℕ) (a : A) → length (replicate n a) ≡ n
  length-replicate zero a = refl
  length-replicate (suc n) a = ap suc (length-replicate n a)

  pub length-drop : (n : ℕ) (xs : List A) → length (drop n xs) ≡ length xs - n
  length-drop zero xs = omega arith
  length-drop (suc n) [] = omega arith
  length-drop (suc n) (x ∷ xs) = omega (arith, length-drop n xs)

  pub length-take : (n : ℕ) (xs : List A) → length (take n xs) ≡ min n (length xs)
  length-take zero xs = omega arith
  length-take (suc n) [] = omega arith
  length-take (suc n) (x ∷ xs) = omega (arith, length-take n xs)

  -- A prefix of known length is what `take` and `drop` separate.
  pub take-append : (n : ℕ) (xs ys : List A) → length xs ≡ n → take n (xs ++ ys) ≡ xs
  take-append zero [] ys h = refl
  take-append zero (x ∷ xs) ys h = absurd (omega arith)
  take-append (suc n) [] ys h = absurd (omega arith)
  take-append (suc n) (x ∷ xs) ys h = ap (λ l. x ∷ l) (take-append n xs ys (omega arith))

  pub drop-append : (n : ℕ) (xs ys : List A) → length xs ≡ n → drop n (xs ++ ys) ≡ ys
  drop-append zero [] ys h = refl
  drop-append zero (x ∷ xs) ys h = absurd (omega arith)
  drop-append (suc n) [] ys h = absurd (omega arith)
  drop-append (suc n) (x ∷ xs) ys h = drop-append n xs ys (omega arith)

  -- Concatenations that are equal have equal parts where the first ones have one length.
  pub append_cancel :
      (n : ℕ) (xs ys us vs : List A)
      → length xs ≡ n
      → length ys ≡ n
      → xs ++ us ≡ ys ++ vs
      → (xs ≡ ys) × (us ≡ vs)
  append_cancel n xs ys us vs hx hy h = (
    sym (take-append n xs us hx) ∙ ap (take n) h ∙ take-append n ys vs hy,
    sym (drop-append n xs us hx) ∙ ap (drop n) h ∙ drop-append n ys vs hy,
  )

  pub take-append-drop : (n : ℕ) (xs : List A) → take n xs ++ drop n xs ≡ xs
  take-append-drop zero xs = refl
  take-append-drop (suc n) [] = refl
  take-append-drop (suc n) (x ∷ xs) = ap (λ l. x ∷ l) (take-append-drop n xs)

  pub take_all : (n : ℕ) (xs : List A) → length xs ≤ n → take n xs ≡ xs
  take_all zero [] h = refl
  take_all zero (x ∷ xs) h = absurd (omega arith)
  take_all (suc n) [] h = refl
  take_all (suc n) (x ∷ xs) h = ap (λ l. x ∷ l) (take_all n xs (omega arith))

  pub drop_all : (n : ℕ) (xs : List A) → length xs ≤ n → drop n xs ≡ []
  drop_all zero [] h = refl
  drop_all zero (x ∷ xs) h = absurd (omega arith)
  drop_all (suc n) [] h = refl
  drop_all (suc n) (x ∷ xs) h = drop_all n xs (omega arith)

  drop_nil : (n : ℕ) → drop {A = A} n [] ≡ []
  drop_nil zero = refl
  drop_nil (suc n) = refl

  pub drop-drop : (n m : ℕ) (xs : List A) → drop m (drop n xs) ≡ drop (n + m) xs
  drop-drop zero m xs = ap (λ k. drop k xs) (omega arith)
  drop-drop (suc n) m [] = drop_nil m ∙ sym (drop_nil (suc n + m))
  drop-drop (suc n) m (x ∷ xs) =
      drop-drop n m xs ∙ ap (λ k. drop k (x ∷ xs)) {x = suc (n + m)} (omega arith)

  pub any-append : (p : A → Bool) (xs ys : List A) → any p (xs ++ ys) ≡ (any p xs || any p ys)
  any-append p [] ys = refl
  any-append p (x ∷ xs) ys = ground (arith, any-append p xs ys)

  -- A disjunction fails everywhere exactly if both tests do.
  pub any-or_false :
      (p q : A → Bool) (xs : List A)
      → any (λ x. p x || q x) xs ≡ false
      → (any p xs ≡ false) × (any q xs ≡ false)
  any-or_false p q [] h = (refl, refl)
  any-or_false p q (x ∷ xs) h = ground (arith, any-or_false p q xs)

  pub find-append :
      (p : A → Bool) (xs ys : List A) {a : A} → find p xs ≡ some a → find p (xs ++ ys) ≡ some a
  find-append p [] ys h = ground arith
  find-append p (x ∷ xs) ys {a} h = ground (arith, find-append p xs ys {a = a})

  -- What was not there is found where it is put at the end.
  pub find-append_new :
      (p : A → Bool) (xs : List A) (a : A)
      → is_some (find p xs) ≡ false
      → p a ≡ true
      → find p (xs ++ a ∷ []) ≡ some a
  find-append_new p [] a h k = rw k refl
  find-append_new p (x ∷ xs) a h k = ground (arith, find-append_new p xs a)

  pub find-holds : (p : A → Bool) (xs : List A) (a : A) → find p xs ≡ some a → p a ≡ true
  find-holds p [] a h = ground arith
  find-holds p (x ∷ xs) a h = elim (Bool-cases (p x)) [
    | inl here ↦ subst (λ y. p y ≡ true) {x = x} {y = a} (ground arith) here
    | inr there ↦ find-holds p xs a (ground arith)
  ]
