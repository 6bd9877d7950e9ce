-- ===== src/Common/Bytes.antt =====
-- Byte strings: equality, big-endian integers as `struct.pack` writes them, zero padding.
use Prim.Native.Nat.{ℕ, zero, suc, ◌+◌, ◌*◌, ◌/◌, ◌%◌, ◌^◌, ◌≤◌, ◌<◌}
use Prim.Native.Char.{code}
use Prim.Native.String.{String}
use mathlib.Core.Path.{◌≡◌, refl, sym, ap, ◌∙◌}
use mathlib.Core.Logic.{◌↔◌}
use mathlib.Core.Bool.{Bool, true, false, ◌&&◌}
use mathlib.Core.List.{List, [], ◌∷◌, ◌++◌, append_assoc, append-nil}
use native.Mathlib.Omega.{arith}
use native.Mathlib.Nat.{pow-suc, zero-add, add-zero, mul-le-mul_right}
use jeeves.Common.Tests.{◌==◌}
use jeeves.Common.Lists.{length, replicate, length-append}

-- A byte is a number below 256.
abbrev pub Bytes : Type 0
Bytes = List ℕ

-- The bytes of an ASCII text.
abbrev pub codes : String → Bytes
codes String.[] = []
codes (String.◌∷◌ c s) = code c ∷ codes s

abbrev pub AreBytes : Bytes → Type 0
AreBytes [] = Unit
AreBytes (b ∷ bs) = (b < 256) × AreBytes bs

abbrev pub bytes_eq : Bytes → Bytes → Bool
bytes_eq [] [] = true
bytes_eq [] (y ∷ ys) = false
bytes_eq (x ∷ xs) [] = false
bytes_eq (x ∷ xs) (y ∷ ys) = (x == y) && bytes_eq xs ys

pub bytes_eq_sound : (xs ys : Bytes) → bytes_eq xs ys ≡ true → xs ≡ ys
bytes_eq_sound [] [] h = refl
bytes_eq_sound [] (y ∷ ys) h = ground arith
bytes_eq_sound (x ∷ xs) [] h = ground arith
bytes_eq_sound (x ∷ xs) (y ∷ ys) h = ground (arith, bytes_eq_sound xs ys)

pub bytes_eq_refl : (xs : Bytes) → bytes_eq xs xs ≡ true
bytes_eq_refl [] = refl
bytes_eq_refl (x ∷ xs) = ground (arith, bytes_eq_refl xs)

-- `bytes_eq` decides equality, in the form `ground` takes at each pair that is compared.
pub bytes_eq_iff : (xs ys : Bytes) → (bytes_eq xs ys ≡ true) ↔ (xs ≡ ys)
bytes_eq_iff xs ys = (bytes_eq_sound xs ys, λ h. cc (bytes_eq_refl xs, ap (bytes_eq xs) h))

-- The low `8 * width` bits of a number, most significant byte first.
unfoldable pub to_be : ℕ → ℕ → Bytes
to_be zero n = []
to_be (suc width) n = to_be width (n / 256) ++ n % 256 ∷ []

-- The number that big-endian bytes stand for, after the bytes of `acc`.
unfoldable pub from_be_after : ℕ → Bytes → ℕ
from_be_after acc [] = acc
from_be_after acc (b ∷ bs) = from_be_after (acc * 256 + b) bs

unfoldable pub from_be : Bytes → ℕ
unfolding from_be_after
from_be = from_be_after 0

abbrev pub zeros : ℕ → Bytes
zeros n = replicate n 0

pub length-to_be : (width n : ℕ) → length (to_be width n) ≡ width
unfolding to_be
length-to_be zero n = refl
length-to_be (suc w) n =
    omega (arith, length-append (to_be w (n / 256)) (n % 256 ∷ []), length-to_be w (n / 256))

from_be_after-append :
    (acc : ℕ) (xs ys : Bytes)
    → from_be_after acc (xs ++ ys) ≡ from_be_after (from_be_after acc xs) ys
unfolding from_be_after
from_be_after-append acc [] ys = refl
from_be_after-append acc (x ∷ xs) ys = from_be_after-append (acc * 256 + x) xs ys

-- Reading back what was written, where it fits the width.
pub from_be-to_be : (width n : ℕ) → n < 256 ^ width → from_be (to_be width n) ≡ n
unfolding from_be to_be
from_be-to_be zero n h = omega arith
from_be-to_be (suc w) n h =
    from_be_after-append 0 (to_be w (n / 256)) (n % 256 ∷ [])
    ∙ unfold from_be_after in
      omega (arith, from_be-to_be w (n / 256) (omega (arith, pow-suc 256 w)))

to_be_step :
    (k acc b : ℕ) (bs : Bytes)
    → b < 256
    → to_be (suc k) (acc * 256 + b) ++ bs ≡ to_be k acc ++ b ∷ bs
unfolding to_be
to_be_step k acc b bs h =
    let quotient : (acc * 256 + b) / 256 ≡ acc = omega arith in
    let remainder : (acc * 256 + b) % 256 ≡ b = omega arith in
    rw (quotient, remainder) (append_assoc (to_be k acc) (b ∷ []) bs)

to_be-from_be_after :
    (k acc : ℕ) (bs : Bytes)
    → AreBytes bs
    → to_be (length bs + k) (from_be_after acc bs) ≡ to_be k acc ++ bs
unfolding from_be_after
to_be-from_be_after k acc [] h = rw (append-nil, zero-add)
to_be-from_be_after k acc (b ∷ bs) h =
    ap (λ w. to_be w (from_be_after (acc * 256 + b) bs)) (omega arith)
    ∙ to_be-from_be_after (suc k) (acc * 256 + b) bs h.1
    ∙ to_be_step k acc b bs h.0

-- Writing back what was read gives the same bytes.
pub to_be-from_be : (bs : Bytes) → AreBytes bs → to_be (length bs) (from_be bs) ≡ bs
to_be-from_be bs h =
    ap (λ w. to_be w (from_be bs)) (sym (add-zero (length bs)))
    ∙ (unfold from_be to_be in to_be-from_be_after 0 0 bs h)

next_digit : (acc b : ℕ) → b < 256 → acc * 256 + b + 1 ≤ (acc + 1) * 256
next_digit acc b h = omega arith

widen_bound :
    (x acc b p q : ℕ) → b < 256 → q ≡ p * 256 → x < (acc * 256 + b + 1) * p → x < (acc + 1) * q
widen_bound x acc b p q h e lt = rw e (omega (arith, mul-le-mul_right p (next_digit acc b h)))

from_be_after-lt :
    (acc : ℕ) (bs : Bytes) → AreBytes bs → from_be_after acc bs < (acc + 1) * 256 ^ length bs
unfolding from_be_after
from_be_after-lt acc [] h = omega arith
from_be_after-lt acc (b ∷ bs) h =
    widen_bound (from_be_after (acc * 256 + b) bs) acc b (256 ^ length bs) (256 ^ suc (length bs))
      h.0 (pow-suc 256 (length bs)) (from_be_after-lt (acc * 256 + b) bs h.1)

pub from_be-lt : (bs : Bytes) → AreBytes bs → from_be bs < 256 ^ length bs
unfolding from_be
from_be-lt bs h = omega (arith, from_be_after-lt 0 bs h)

pub AreBytes-append : (xs ys : Bytes) → AreBytes xs → AreBytes ys → AreBytes (xs ++ ys)
AreBytes-append [] ys h k = k
AreBytes-append (x ∷ xs) ys h k = (h.0, AreBytes-append xs ys h.1 k)

pub AreBytes-to_be : (width n : ℕ) → AreBytes (to_be width n)
unfolding to_be
AreBytes-to_be zero n = tt
AreBytes-to_be (suc w) n =
    AreBytes-append (to_be w (n / 256)) (n % 256 ∷ []) (AreBytes-to_be w (n / 256))
      (omega arith, tt)

-- The same at a width that the bytes are known to have.
pub from_be-lt_width : (w : ℕ) (bs : Bytes) → AreBytes bs → length bs ≡ w → from_be bs < 256 ^ w
from_be-lt_width w bs h e = rw (← e) (from_be-lt bs h)

pub to_be-from_be_width :
    (w : ℕ) (bs : Bytes) → AreBytes bs → length bs ≡ w → to_be w (from_be bs) ≡ bs
to_be-from_be_width w bs h e = rw (← e) (to_be-from_be bs h)
