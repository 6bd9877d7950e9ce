-- ===== src/Envelope/Framing/RoundTrip.antt =====
-- What `frame_body` writes `parse_body` reads, and whatever `parse_body` reads is so framed.
use jeeves.Common.{
  ℕ, ◌+◌, ◌-◌, ◌^◌, ◌≤◌, ◌<◌, ◌≡◌, refl, sym, ap, ap₂, ◌∙◌, [], ◌∷◌, ◌++◌, arith, true, length,
  take, drop, take-append, drop-append, take-append-drop, length-append, length-replicate,
  length-take, length-drop, drop-drop, ok,
}
use jeeves.Common.Bytes.{
  Bytes, AreBytes, to_be, from_be, zeros, from_be-to_be, to_be-from_be_width, length-to_be,
}
use jeeves.Envelope.Fields.{AreBytes-take}
use jeeves.Envelope.Framing.{
  padded_body_length, is_legal_body_length, frame_body, all_zero, parse_body,
}
use jeeves.Envelope.Framing.Sizes.{padded_body_length-least}

all_zero-zeros : (n : ℕ) → all_zero (zeros n) ≡ true
all_zero-zeros ℕ.zero = refl
all_zero-zeros (ℕ.suc n) = all_zero-zeros n

all_zero-eq-zeros : (bs : Bytes) → all_zero bs ≡ true → bs ≡ zeros (length bs)
all_zero-eq-zeros [] h = refl
all_zero-eq-zeros (b ∷ bs) h = ground (arith, all_zero-eq-zeros bs)

-- A body of a given length with a payload and zero padding.
abbrev pub framed : Bytes → ℕ → Bytes
framed payload size = to_be 4 (length payload) ++ (payload ++ zeros (size - (4 + length payload)))

length-framed :
    (payload : Bytes) (size : ℕ) → 4 + length payload ≤ size → length (framed payload size) ≡ size
length-framed p size h = omega (
  arith,
  length-append (to_be 4 (length p)) (p ++ zeros (size - (4 + length p))),
  length-append p (zeros (size - (4 + length p))),
  length-replicate {A = ℕ} (size - (4 + length p)) 0,
  length-to_be 4 (length p),
)

-- The three rules of `parse_body`, as facts about the body: what it takes to pass them.
record Parses (body : Bytes) (n : ℕ) : Type 0 where
  prefix : from_be (take 4 body) ≡ n
  legal : is_legal_body_length (length body) ≡ true
  fits : 4 + n ≤ length body
  padding : all_zero (drop (4 + n) body) ≡ true

parse_body-eq-ok :
    (body : Bytes) (n : ℕ) → Parses body n → parse_body body ≡ ok (take n (drop 4 body))
unfolding parse_body
parse_body-eq-ok body n h = rw (h.prefix, h.legal, h.padding) (ground (arith, h.fits))

Parses-of_ok :
    (body payload : Bytes)
    → parse_body body ≡ ok payload
    → Parses body (from_be (take 4 body)) × (payload ≡ take (from_be (take 4 body)) (drop 4 body))
unfolding parse_body
Parses-of_ok body payload h = (
  record { prefix = refl; legal = ground arith; fits = ground arith; padding = ground arith },
  ground arith,
)

module _ (p : Bytes) (size : ℕ) where
  drop-framed : drop 4 (framed p size) ≡ p ++ zeros (size - (4 + length p))
  drop-framed =
      drop-append 4 (to_be 4 (length p)) (p ++ zeros (size - (4 + length p)))
        (length-to_be 4 (length p))

  padding-framed : drop (4 + length p) (framed p size) ≡ zeros (size - (4 + length p))
  padding-framed =
      sym (drop-drop 4 (length p) (framed p size))
      ∙ ap (drop (length p)) drop-framed
      ∙ drop-append (length p) p (zeros (size - (4 + length p))) refl

  prefix-framed : length p < 256 ^ 4 → from_be (take 4 (framed p size)) ≡ length p
  prefix-framed short =
      ap from_be (
        take-append 4 (to_be 4 (length p)) (p ++ zeros (size - (4 + length p)))
          (length-to_be 4 (length p)))
      ∙ from_be-to_be 4 (length p) short

-- Any legal length that holds the payload will do: padding past the least is accepted too.
pub parse_body-framed :
    (payload : Bytes) (size : ℕ)
    → length payload < 256 ^ 4
    → is_legal_body_length size ≡ true
    → 4 + length payload ≤ size
    → parse_body (framed payload size) ≡ ok payload
parse_body-framed p size short legal fits =
    parse_body-eq-ok (framed p size) (length p) (record {
      prefix = prefix-framed p size short;
      legal = ap is_legal_body_length (length-framed p size fits) ∙ legal;
      fits = omega (arith, length-framed p size fits);
      padding = ap all_zero (padding-framed p size) ∙ all_zero-zeros (size - (4 + length p));
    })
    ∙ ap (λ bs. ok (take (length p) bs)) (drop-framed p size)
    ∙ ap ok (take-append (length p) p (zeros (size - (4 + length p))) refl)

-- Every payload that a u32 measures survives framing, and its body has the padded length of the
-- prefix and the payload.
pub parse_body-frame_body :
    (payload : Bytes)
    → length payload < 256 ^ 4
    → (body : Bytes) × (frame_body payload ≡ ok body)
      × (length body ≡ padded_body_length (4 + length payload))
      × (parse_body body ≡ ok payload)
unfolding frame_body
parse_body-frame_body p short =
    let size = padded_body_length (4 + length p) in
    let least = padded_body_length-least (4 + length p) in
    (
      framed p size,
      ground arith,
      length-framed p size least.1,
      parse_body-framed p size short least.0 least.1,
    )

prefix_back :
    (body p : Bytes)
    → AreBytes body
    → length p ≡ from_be (take 4 body)
    → 4 + from_be (take 4 body) ≤ length body
    → take 4 body ≡ to_be 4 (length p)
prefix_back body p bytes size fits =
    sym (
      to_be-from_be_width 4 (take 4 body) (AreBytes-take 4 body bytes)
        (omega (arith, length-take 4 body)))
    ∙ ap (to_be 4) (sym size)

padding_back :
    (body p : Bytes)
    → length p ≡ from_be (take 4 body)
    → all_zero (drop (4 + from_be (take 4 body)) body) ≡ true
    → drop (from_be (take 4 body)) (drop 4 body) ≡ zeros (length body - (4 + length p))
padding_back body p size padding =
    let rest = drop (4 + from_be (take 4 body)) body in
    drop-drop 4 (from_be (take 4 body)) body
    ∙ all_zero-eq-zeros rest padding
    ∙ ap zeros (omega (arith, length-drop (4 + from_be (take 4 body)) body))

-- A body that parses is its payload framed to the body's own length, which is legal.
pub framed-parse_body :
    (body payload : Bytes)
    → AreBytes body
    → parse_body body ≡ ok payload
    → (body ≡ framed payload (length body)) × (is_legal_body_length (length body) ≡ true)
framed-parse_body body payload bytes parsed =
    let n = from_be (take 4 body) in
    let (rules, same) = Parses-of_ok body payload parsed in
    let size : length payload ≡ n =
      ap length same ∙ omega (arith, length-take n (drop 4 body), length-drop 4 body, rules.fits) in
    (
      sym (take-append-drop 4 body)
          ∙ ap₂ (λ xs ys. xs ++ ys) (prefix_back body payload bytes size rules.fits)
              (sym (take-append-drop n (drop 4 body))
                ∙ ap₂ (λ xs ys. xs ++ ys) (sym same)
                    (padding_back body payload size rules.padding)),
      rules.legal,
    )
