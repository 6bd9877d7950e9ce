-- ===== src/Keys/Sorting.antt =====
-- `sorted(member_wraps, key=...)` of key_wraps.py: byte strings in Python's order, and a stable sort
-- of the entries by the bytes of the Member's id and the key id.
use mathlib.Core.Logic.{∥∥₁_elim}
use mathlib.Core.List.{Mem, Perm, Permᴰ, is_set, mem-cons_self, mem-cons_of_mem}
use mathlib.Core.List.Perm
use jeeves.Common.{
  ◌≡◌, refl, ap, ap₂, ◌∙◌, Bool, true, false, List, [], ◌∷◌, ◌==◌, ltb, arith, length, suc,
  if◌then◌else◌,
}
use jeeves.Common.Bytes.{Bytes, bytes_eq, bytes_eq_iff}

-- `xs <= ys` on byte strings
unfoldable pub bytes_leb : Bytes → Bytes → Bool
bytes_leb [] ys = true
bytes_leb (x ∷ xs) [] = false
bytes_leb (x ∷ xs) (y ∷ ys) = let rest = bytes_leb xs ys in if x == y then rest else ltb x y

pub bytes_leb_total : (xs ys : Bytes) → bytes_leb xs ys ≡ false → bytes_leb ys xs ≡ true
unfolding bytes_leb
bytes_leb_total [] ys h = ground arith
bytes_leb_total (x ∷ xs) [] h = refl
bytes_leb_total (x ∷ xs) (y ∷ ys) h = ground (arith, bytes_leb_total xs ys)

pub bytes_leb_trans :
    (xs ys zs : Bytes) → bytes_leb xs ys ≡ true → bytes_leb ys zs ≡ true → bytes_leb xs zs ≡ true
unfolding bytes_leb
bytes_leb_trans [] ys zs h k = refl
bytes_leb_trans (x ∷ xs) [] zs h k = ground arith
bytes_leb_trans (x ∷ xs) (y ∷ ys) [] h k = ground arith
bytes_leb_trans (x ∷ xs) (y ∷ ys) (z ∷ zs) h k = ground (arith, bytes_leb_trans xs ys zs)

pub bytes_leb_antisymm : (xs ys : Bytes) → bytes_leb xs ys ≡ true → bytes_leb ys xs ≡ true → xs ≡ ys
unfolding bytes_leb
bytes_leb_antisymm [] [] h k = refl
bytes_leb_antisymm [] (y ∷ ys) h k = ground arith
bytes_leb_antisymm (x ∷ xs) [] h k = ground arith
bytes_leb_antisymm (x ∷ xs) (y ∷ ys) h k = ground (arith, bytes_leb_antisymm xs ys)

-- Tuples of two byte strings, `(p, x) <= (q, y)`
unfoldable pub pair_leb : Bytes → Bytes → Bytes → Bytes → Bool
pair_leb p x q y = if bytes_eq p q then bytes_leb x y else bytes_leb p q

pub pair_leb_total : (p x q y : Bytes) → pair_leb p x q y ≡ false → pair_leb q y p x ≡ true
unfolding pair_leb
pair_leb_total p x q y h =
    ground (arith, bytes_leb_total p q, bytes_leb_total x y, bytes_eq_iff p q, bytes_eq_iff q p)

pub pair_leb_trans :
    (p x q y r z : Bytes)
    → pair_leb p x q y ≡ true
    → pair_leb q y r z ≡ true
    → pair_leb p x r z ≡ true
unfolding pair_leb
pair_leb_trans p x q y r z h k = ground (
  arith,
  bytes_leb_trans p q r,
  bytes_leb_trans x y z,
  bytes_leb_antisymm p q,
  bytes_leb_antisymm q r,
  bytes_eq_iff p q,
  bytes_eq_iff q r,
  bytes_eq_iff p r,
)

pub pair_leb_antisymm :
    (p x q y : Bytes) → pair_leb p x q y ≡ true → pair_leb q y p x ≡ true → (p ≡ q) × (x ≡ y)
unfolding pair_leb
pair_leb_antisymm p x q y h k =
    ground
      (arith, bytes_leb_antisymm p q, bytes_leb_antisymm x y, bytes_eq_iff p q, bytes_eq_iff q p)

-- A stable sort by a test `le` on the keys: an element goes before the first one that is not below.
module _ {ℓ} {A : Type ℓ} (le : A → A → Bool) where
  unfoldable pub insert_sorted : A → List A → List A
  insert_sorted x [] = x ∷ []
  insert_sorted x (y ∷ ys) =
      let rest = insert_sorted x ys in if le x y then x ∷ y ∷ ys else y ∷ rest

  unfoldable pub sorted : List A → List A
  unfolding insert_sorted
  sorted [] = []
  sorted (x ∷ xs) = insert_sorted x (sorted xs)

if-Perm {ℓ} :
    {A : Type ℓ} {l r t : List A} (b : Bool) → Perm l t → Perm r t → Perm (if b then l else r) t
if-Perm true p q = p
if-Perm false p q = q

module _ {ℓ} {A : Type ℓ} (le : A → A → Bool) where
  length-insert_sorted : (x : A) (l : List A) → length (insert_sorted le x l) ≡ suc (length l)
  unfolding insert_sorted
  length-insert_sorted x [] = refl
  length-insert_sorted x (y ∷ ys) = ground (arith, length-insert_sorted x ys)

  pub length-sorted : (l : List A) → length (sorted le l) ≡ length l
  unfolding sorted
  length-sorted [] = refl
  length-sorted (x ∷ xs) = length-insert_sorted x (sorted le xs) ∙ ap suc (length-sorted xs)

  insert_sorted_perm : (x : A) (l : List A) → Perm (insert_sorted le x l) (x ∷ l)
  unfolding insert_sorted
  insert_sorted_perm x [] = Perm.rfl
  insert_sorted_perm x (y ∷ ys) =
      if-Perm (le x y) Perm.rfl
        (Perm.trans (Perm.cons y (insert_sorted_perm x ys)) (Perm.swap x y ys))

  pub sorted_perm : (l : List A) → Perm (sorted le l) l
  unfolding sorted
  sorted_perm [] = Perm.nil
  sorted_perm (x ∷ xs) =
      Perm.trans (insert_sorted_perm x (sorted le xs)) (Perm.cons x (sorted_perm xs))

module _ {ℓ} {A : Type ℓ} (le : A → A → Bool) (total : (x y : A) → le x y ≡ false → le y x ≡ true)
    (trans : (x y z : A) → le x y ≡ true → le y z ≡ true → le x z ≡ true) where
  -- Two elements below each other are one.
  abbrev IsApart : A → A → Type ℓ
  IsApart x y = le x y ≡ true → le y x ≡ true → x ≡ y

  abbrev pub AllApart : List A → Type ℓ
  AllApart l = (x y : A) → Mem x l → Mem y l → IsApart x y

  insert_sorted_comm :
      (a b : A) (l : List A)
      → IsApart a b
      → insert_sorted le a (insert_sorted le b l) ≡ insert_sorted le b (insert_sorted le a l)
  unfolding insert_sorted
  insert_sorted_comm a b [] h = ground (arith, total a b, h)
  insert_sorted_comm a b (y ∷ ys) h =
      let same = insert_sorted_comm a b ys h in
      ground (
        arith,
        same,
        total a b,
        total b a,
        trans a b y,
        trans b a y,
        total a y,
        total b y,
        trans b y a,
        trans a y b,
        h,
      )

  sorted-of_permd : {l r : List A} → Permᴰ l r → AllApart l → sorted le l ≡ sorted le r
  unfolding sorted
  sorted-of_permd Permᴰ.nil apart = refl
  sorted-of_permd (Permᴰ.cons e p) apart =
      ap₂ (insert_sorted le) e
        (sorted-of_permd p (λ x y mx my. apart x y (mem-cons_of_mem _ mx) (mem-cons_of_mem _ my)))
  sorted-of_permd (Permᴰ.swap {a} {b} {l} e f) apart =
      insert_sorted_comm a b (sorted le l)
        (apart a b mem-cons_self (mem-cons_of_mem _ mem-cons_self))
      ∙ ap₂ (λ x y. insert_sorted le x (insert_sorted le y (sorted le l))) f e
  sorted-of_permd (Permᴰ.trans p q) apart =
      sorted-of_permd p apart
      ∙ sorted-of_permd q
          (λ x y mx my. apart x y ((Perm.mem_iff ∣ p ∣₁).1 mx) ((Perm.mem_iff ∣ p ∣₁).1 my))

  -- Lists of the same elements sort to one list, where elements below each other are one.
  pub sorted-of_perm : IsSet A → (l r : List A) → Perm l r → AllApart l → sorted le l ≡ sorted le r
  sorted-of_perm set l r p apart =
      ∥∥₁_elim p (is_set set (sorted le l) (sorted le r)) (λ d. sorted-of_permd d apart)
