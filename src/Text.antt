-- ===== src/Text.antt =====
-- The texts of the payload codecs: hexadecimal digits, the regular expressions on them, and UUIDs
-- as Python prints and reads them.
pub mod Digits
pub mod Uuids
use Prim.Native.Char.{Char}
use jeeves.Common.{
  ℕ, zero, suc, ◌+◌, ◌-◌, ◌*◌, ◌/◌, ◌%◌, Bool, true, false, not, ◌&&◌, ◌||◌, List, [], ◌∷◌, ◌++◌,
  Option, none, some, String, ◌==◌, leb, length, take, drop, keep_if, if◌then◌else◌,
}
use jeeves.Common.{◌≡◌, refl, arith}
use jeeves.Common.Bytes.{Bytes, codes}

-- [0-9a-f]
unfoldable pub is_hex : ℕ → Bool
is_hex c = leb b'0' c && leb c b'9' || leb b'a' c && leb c b'f'

unfoldable pub hex_value : ℕ → ℕ
hex_value c = if leb c b'9' then c - b'0' else c - b'a' + 10

-- What follows `n` hexadecimal digits.
unfoldable pub after_hex : ℕ → List ℕ → Option (List ℕ)
unfolding is_hex
after_hex zero cs = some cs
after_hex (suc n) [] = none
after_hex (suc n) (c ∷ cs) = let rest = after_hex n cs in if is_hex c then rest else none

-- `$` matches at the end and before a newline at the end.
unfoldable pub at_end : List ℕ → Bool
at_end [] = true
at_end (c ∷ []) = c == 10
at_end (c ∷ d ∷ cs) = false

unfoldable pub ends_after : ℕ → List ℕ → Bool
unfolding after_hex at_end
ends_after n cs = elim (after_hex n cs) [ none ↦ false | some rest ↦ at_end rest ]

-- `^[0-9a-f]{n}$`
unfoldable pub matches_hex : ℕ → String → Bool
unfolding ends_after
matches_hex n s = ends_after n (codes s)

-- Groups of digits with dashes between them, to the end.
unfoldable pub matches_groups : List ℕ → ℕ → List ℕ → Bool
unfolding ends_after after_hex
matches_groups [] last cs = ends_after last cs
matches_groups (n ∷ ns) last cs = elim (after_hex n cs) [
  | none ↦ false
  | some [] ↦ false
  | some (c ∷ rest) ↦ c == b'-' && matches_groups ns last rest
]

-- CANONICAL_UUID_PATTERN of op_payload.py
unfoldable pub matches_canonical_uuid : String → Bool
unfolding matches_groups
matches_canonical_uuid s = matches_groups (8 ∷ 4 ∷ 4 ∷ 4 ∷ []) 12 (codes s)

-- `bytes.fromhex`, which skips white space, on a text that `matches_hex` passed.
unfoldable pub pair_up : List ℕ → Bytes
unfolding hex_value
pair_up (a ∷ b ∷ cs) = (hex_value a * 16 + hex_value b) ∷ pair_up cs
pair_up cs = []

unfoldable pub from_hex : String → Bytes
unfolding pair_up is_hex
from_hex s = pair_up (keep_if is_hex (codes s))

unfoldable pub hex_number : ℕ → List ℕ → ℕ
unfolding hex_value
hex_number acc [] = acc
hex_number acc (c ∷ cs) = hex_number (acc * 16 + hex_value c) cs

-- `uuid.UUID(raw)` on a text that the pattern passed: the dashes go, and anything but 32 characters
-- is a `ValueError`.
unfoldable pub uuid_of_text : String → Option ℕ
unfolding hex_number
uuid_of_text s =
    let digits = keep_if (λ c. not (c == b'-')) (codes s) in
    if length digits == 32 then some (hex_number 0 digits) else none

-- `str(uuid)`
unfoldable pub nibbles : ℕ → ℕ → List ℕ
nibbles zero n = []
nibbles (suc k) n = nibbles k (n / 16) ++ n % 16 ∷ []

unfoldable pub char_at : ℕ → String → Char
char_at n String.[] = "0"
char_at zero (String.◌∷◌ c s) = c
char_at (suc n) (String.◌∷◌ c s) = char_at n s

unfoldable pub write_hex : List ℕ → String → String
unfolding char_at
write_hex [] tail = tail
write_hex (d ∷ ds) tail = String.◌∷◌ (char_at d "0123456789abcdef") (write_hex ds tail)

unfoldable pub uuid_text : ℕ → String
unfolding nibbles write_hex
uuid_text id =
    let ds = nibbles 32 id in
    let dash = λ (s : String). String.◌∷◌ "-" s in
    write_hex (take 8 ds) (
      dash (
        write_hex (take 4 (drop 8 ds)) (
          dash (
            write_hex (take 4 (drop 12 ds))
              (dash (write_hex (take 4 (drop 16 ds)) (dash (write_hex (drop 20 ds) ""))))))))

-- `a + b` on texts
unfoldable pub append_text : String → String → String
append_text String.[] b = b
append_text (String.◌∷◌ c a) b = String.◌∷◌ c (append_text a b)

pub append_text_cancel : (a b c : String) → append_text a b ≡ append_text a c → b ≡ c
unfolding append_text
append_text_cancel String.[] b c h = h
append_text_cancel (String.◌∷◌ x a) b c h = append_text_cancel a b c (ground arith)

canonical : matches_canonical_uuid "e9d4afd3-87e4-5450-bd7d-4fc191ff3857" ≡ true
unfolding matches_canonical_uuid
canonical = refl

canonical_newline : matches_canonical_uuid "e9d4afd3-87e4-5450-bd7d-4fc191ff3857\n" ≡ true
unfolding matches_canonical_uuid
canonical_newline = refl

canonical_read :
    uuid_of_text "e9d4afd3-87e4-5450-bd7d-4fc191ff3857" ≡ some 0xe9d4afd387e45450bd7d4fc191ff3857
unfolding uuid_of_text
canonical_read = refl

canonical_written :
    uuid_text 0xe9d4afd387e45450bd7d4fc191ff3857 ≡ "e9d4afd3-87e4-5450-bd7d-4fc191ff3857"
unfolding uuid_text
canonical_written = refl
