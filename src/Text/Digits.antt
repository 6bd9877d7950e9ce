-- ===== src/Text/Digits.antt =====
-- Hexadecimal digits as they are written: the pattern passes them, and they read back.
use Prim.Native.Char.{code}
use jeeves.Common.{
  ℕ, zero, suc, ◌+◌, ◌*◌, ◌/◌, ◌%◌, ◌^◌, ◌<◌, ◌≡◌, refl, ap, arith, Bool, true, false, ◌&&◌, all,
  subst, inl, inr, Bool-cases, not, List, [], ◌∷◌, ◌++◌, some, String, ◌==◌, length, map, keep_if,
  length-append,
}
use jeeves.Common.Bytes.{codes}
use jeeves.Text.{
  is_hex, hex_value, after_hex, ends_after, at_end, matches_groups, hex_number, nibbles, char_at,
  write_hex,
}

abbrev pub hex_code : ℕ → ℕ
hex_code d = code (char_at d "0123456789abcdef")

pub record IsDigit (d : ℕ) : Type 0 where
  pub hex : is_hex (hex_code d) ≡ true
  pub value : hex_value (hex_code d) ≡ d
  pub no_dash : (hex_code d == b'-') ≡ false

is_digit : ℕ → Bool
unfolding is_hex hex_value char_at
is_digit d = is_hex (hex_code d) && (hex_value (hex_code d) == d && not (hex_code d == b'-'))

upto : ℕ → List ℕ
upto zero = []
upto (suc n) = n ∷ upto n

all-upto : (p : ℕ → Bool) (n d : ℕ) → all p (upto n) ≡ true → d < n → p d ≡ true
unfolding upto
all-upto p zero d h lt = absurd (omega arith)
all-upto p (suc n) d h lt = elim (Bool-cases (d == n)) [
  | inl here ↦ subst (λ k. p k ≡ true) {x = n} {y = d} (ground arith) (ground arith)
  | inr there ↦ all-upto p n d (ground arith) (ground arith)
]

IsDigit-below_16 : (d : ℕ) → d < 16 → IsDigit d
unfolding is_digit upto
IsDigit-below_16 d h =
    let yes : is_digit d ≡ true = all-upto is_digit 16 d refl h in
    record { hex = ground arith; value = ground arith; no_dash = ground arith }

pub data AreDigits : List ℕ → Type 0 where
  no_digits : AreDigits []
  digit_first : {d : ℕ} {ds : List ℕ} → IsDigit d → AreDigits ds → AreDigits (d ∷ ds)

codes-write_hex :
    (ds : List ℕ) (tail : String) → codes (write_hex ds tail) ≡ map hex_code ds ++ codes tail
unfolding write_hex
codes-write_hex [] tail = refl
codes-write_hex (d ∷ ds) tail = ap (λ cs. hex_code d ∷ cs) (codes-write_hex ds tail)

after_hex-digits :
    (ds : List ℕ) (rest : List ℕ)
    → AreDigits ds
    → after_hex (length ds) (map hex_code ds ++ rest) ≡ some rest
unfolding after_hex
after_hex-digits [] rest own = refl
after_hex-digits (d ∷ ds) rest (digit_first own owns) = rw (own.hex) (after_hex-digits ds rest owns)

digits-append : (ds es : List ℕ) → AreDigits ds → AreDigits es → AreDigits (ds ++ es)
digits-append [] es own owns = owns
digits-append (d ∷ ds) es (digit_first own rest) owns =
    digit_first own (digits-append ds es rest owns)

pub nibbles-AreDigits : (k n : ℕ) → AreDigits (nibbles k n)
unfolding nibbles
nibbles-AreDigits zero n = no_digits
nibbles-AreDigits (suc k) n =
    digits-append (nibbles k (n / 16)) (n % 16 ∷ []) (nibbles-AreDigits k (n / 16))
      (digit_first (IsDigit-below_16 (n % 16) (omega arith)) no_digits)

hex_number-append :
    (acc d : ℕ) (cs : List ℕ) → hex_number acc (cs ++ d ∷ []) ≡ hex_number acc cs * 16 + hex_value d
unfolding hex_number
hex_number-append acc d [] = refl
hex_number-append acc d (c ∷ cs) = hex_number-append (acc * 16 + hex_value c) d cs

pub length-nibbles : (k n : ℕ) → length (nibbles k n) ≡ k
unfolding nibbles
length-nibbles zero n = refl
length-nibbles (suc k) n =
    omega (arith, length-append (nibbles k (n / 16)) (n % 16 ∷ []), length-nibbles k (n / 16))

pub map-append : (ds es : List ℕ) → map hex_code (ds ++ es) ≡ map hex_code ds ++ map hex_code es
map-append [] es = refl
map-append (d ∷ ds) es = ap (λ cs. hex_code d ∷ cs) (map-append ds es)

pow_suc : (k : ℕ) → 16 ^ suc k ≡ 16 ^ k * 16
pow_suc k = omega arith

pub hex_number-nibbles : (k n : ℕ) → n < 16 ^ k → hex_number 0 (map hex_code (nibbles k n)) ≡ n
unfolding nibbles hex_number
hex_number-nibbles zero n h = omega arith
hex_number-nibbles (suc k) n h =
    let grows : 16 ^ suc k ≡ 16 ^ k * 16 = pow_suc k in
    let small : n / 16 < 16 ^ k = omega arith in
    rw (map-append (nibbles k (n / 16)) (n % 16 ∷ [])) (
      rw (hex_number-append 0 (hex_code (n % 16)) (map hex_code (nibbles k (n / 16)))) (
        rw (hex_number-nibbles k (n / 16) small)
          (rw ((IsDigit-below_16 (n % 16) (omega arith)).value) (omega arith))))

pub dash_free-digits :
    (ds rest : List ℕ)
    → AreDigits ds
    → keep_if (λ c. not (c == b'-')) (map hex_code ds ++ rest)
      ≡ map hex_code ds ++ keep_if (λ c. not (c == b'-')) rest
dash_free-digits [] rest own = refl
dash_free-digits (d ∷ ds) rest (digit_first own owns) =
    rw (own.no_dash) (ap (λ cs. hex_code d ∷ cs) (dash_free-digits ds rest owns))

pub matches_groups-digits :
    (ds : List ℕ) (ns : List ℕ) (last : ℕ) (rest : List ℕ)
    → AreDigits ds
    → matches_groups ns last rest ≡ true
    → matches_groups (length ds ∷ ns) last (map hex_code ds ++ b'-' ∷ rest) ≡ true
unfolding matches_groups
matches_groups-digits ds ns last rest own h =
    rw (after_hex-digits ds (b'-' ∷ rest) own, matches_groups) h

pub matches_groups-last :
    (ds : List ℕ) → AreDigits ds → matches_groups [] (length ds) (map hex_code ds ++ []) ≡ true
unfolding matches_groups ends_after at_end
matches_groups-last ds own = rw (after_hex-digits ds [] own, matches_groups, ends_after) refl
