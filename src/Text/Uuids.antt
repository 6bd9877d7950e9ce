-- ===== src/Text/Uuids.antt =====
-- The text that Python prints of a UUID: it is canonical, and it reads back.
use jeeves.Common.{
  ℕ, zero, suc, ◌^◌, ◌<◌, ◌≡◌, refl, ap, ◌∙◌, true, not, List, [], ◌∷◌, ◌++◌, some, ◌==◌, length,
  take, drop, map, keep_if,
}
use jeeves.Common.Bytes.{codes}
use jeeves.Text.{
  matches_groups, matches_canonical_uuid, uuid_of_text, nibbles, write_hex, uuid_text,
}
use jeeves.Text.Digits.{
  hex_code, AreDigits, no_digits, digit_first, matches_groups-digits, matches_groups-last,
  dash_free-digits, map-append, nibbles-AreDigits, length-nibbles, hex_number-nibbles,
}

-- Five groups of digits with dashes between them.
grouped : List ℕ → List ℕ → List ℕ → List ℕ → List ℕ → List ℕ
grouped a b c d e =
    map hex_code a
    ++ b'-'
      ∷ (map hex_code b
          ++ b'-' ∷ (map hex_code c ++ b'-' ∷ (map hex_code d ++ b'-' ∷ (map hex_code e ++ []))))

record AreGroups (a b c d e : List ℕ) : Type 0 where
  pub a_digits : AreDigits a
  pub b_digits : AreDigits b
  pub c_digits : AreDigits c
  pub d_digits : AreDigits d
  pub e_digits : AreDigits e

matches_groups-grouped :
    (a b c d e : List ℕ)
    → AreGroups a b c d e
    → matches_groups (length a ∷ length b ∷ length c ∷ length d ∷ []) (length e) (grouped a b c d e)
      ≡ true
unfolding grouped
matches_groups-grouped a b c d e g = matches_groups-digits a _ (length e) _ g.a_digits (
    matches_groups-digits b _ (length e) _ g.b_digits (
      matches_groups-digits c _ (length e) _ g.c_digits
        (matches_groups-digits d _ (length e) _ g.d_digits (matches_groups-last e g.e_digits))))

append_nil : (cs : List ℕ) → cs ++ [] ≡ cs
append_nil [] = refl
append_nil (c ∷ cs) = ap (λ ds. c ∷ ds) (append_nil cs)

digits-of_grouped :
    (a b c d e : List ℕ)
    → AreGroups a b c d e
    → keep_if (λ x. not (x == b'-')) (grouped a b c d e)
      ≡ map hex_code (a ++ (b ++ (c ++ (d ++ e))))
unfolding grouped
digits-of_grouped a b c d e g =
    rw
      (
        dash_free-digits a _ g.a_digits,
        dash_free-digits b _ g.b_digits,
        dash_free-digits c _ g.c_digits,
        dash_free-digits d _ g.d_digits,
        dash_free-digits e _ g.e_digits,
        map-append a (b ++ (c ++ (d ++ e))),
        map-append b (c ++ (d ++ e)),
        map-append c (d ++ e),
        map-append d e,
      )
      (ap (λ cs. map hex_code a ++ (map hex_code b ++ (map hex_code c ++ (map hex_code d ++ cs))))
        (append_nil (map hex_code e)))

digits-take : (n : ℕ) (ds : List ℕ) → AreDigits ds → AreDigits (take n ds)
digits-take zero ds own = no_digits
digits-take (suc n) [] own = no_digits
digits-take (suc n) (d ∷ ds) (digit_first own owns) = digit_first own (digits-take n ds owns)

digits-drop : (n : ℕ) (ds : List ℕ) → AreDigits ds → AreDigits (drop n ds)
digits-drop zero ds own = own
digits-drop (suc n) [] own = no_digits
digits-drop (suc n) (d ∷ ds) (digit_first own owns) = digits-drop n ds owns

codes-uuid_text :
    (id : ℕ)
    → let ds = nibbles 32 id in
      codes (uuid_text id)
      ≡ grouped
          (take 8 ds)
          (take 4 (drop 8 ds))
          (take 4 (drop 12 ds))
          (take 4 (drop 16 ds))
          (drop 20 ds)
unfolding uuid_text grouped write_hex nibbles
codes-uuid_text id = refl

uuid-AreGroups :
    (id : ℕ)
    → let ds = nibbles 32 id in
      AreGroups
        (take 8 ds)
        (take 4 (drop 8 ds))
        (take 4 (drop 12 ds))
        (take 4 (drop 16 ds))
        (drop 20 ds)
uuid-AreGroups id =
    let ds = nibbles 32 id in
    let own : AreDigits ds = nibbles-AreDigits 32 id in
    record {
      a_digits = digits-take 8 ds own;
      b_digits = digits-take 4 (drop 8 ds) (digits-drop 8 ds own);
      c_digits = digits-take 4 (drop 12 ds) (digits-drop 12 ds own);
      d_digits = digits-take 4 (drop 16 ds) (digits-drop 16 ds own);
      e_digits = digits-drop 20 ds own;
    }

-- The text of any UUID matches the pattern of canonical ids.
pub matches_canonical_uuid-uuid_text : (id : ℕ) → matches_canonical_uuid (uuid_text id) ≡ true
unfolding matches_canonical_uuid nibbles
matches_canonical_uuid-uuid_text id =
    let ds = nibbles 32 id in
    rw (codes-uuid_text id) (
      matches_groups-grouped (take 8 ds) (take 4 (drop 8 ds)) (take 4 (drop 12 ds))
        (take 4 (drop 16 ds)) (drop 20 ds) (uuid-AreGroups id))

length-digits : (ds : List ℕ) → length (map hex_code ds) ≡ length ds
length-digits [] = refl
length-digits (d ∷ ds) = ap suc (length-digits ds)

rejoined :
    (id : ℕ)
    → let ds = nibbles 32 id in
      take 8 ds
        ++ (take 4 (drop 8 ds) ++ (take 4 (drop 12 ds) ++ (take 4 (drop 16 ds) ++ drop 20 ds)))
      ≡ ds
unfolding nibbles
rejoined id = refl

uuid-digits :
    (id : ℕ) → keep_if (λ x. not (x == b'-')) (codes (uuid_text id)) ≡ map hex_code (nibbles 32 id)
uuid-digits id =
    let ds = nibbles 32 id in
    rw (codes-uuid_text id) (
      digits-of_grouped (take 8 ds) (take 4 (drop 8 ds)) (take 4 (drop 12 ds)) (take 4 (drop 16 ds))
        (drop 20 ds) (uuid-AreGroups id)
      ∙ ap (map hex_code) (rejoined id))

-- The text of a UUID reads back.
pub uuid_of_text-uuid_text : (id : ℕ) → id < 2 ^ 128 → uuid_of_text (uuid_text id) ≡ some id
unfolding uuid_of_text
uuid_of_text-uuid_text id h =
    rw
      (
        uuid-digits id,
        length-digits (nibbles 32 id),
        length-nibbles 32 id,
        hex_number-nibbles 32 id h,
      )
      refl
