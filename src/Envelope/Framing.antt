-- ===== src/Envelope/Framing.antt =====
-- Body framing of envelope.py: the padded size classes, `frame_body` and `parse_body`.
pub mod Sizes
pub mod RoundTrip
use jeeves.Common.{
  ℕ, ◌+◌, ◌-◌, ◌*◌, ◌/◌, ◌%◌, ◌^◌, Bool, true, false, not, ◌&&◌, ◌||◌, List, [], ◌∷◌, ◌++◌, Option,
  none, some, ◌==◌, ltb, leb, all, length, take, drop, find, if◌then◌else◌, Result, ok, err,
}
use jeeves.Common.Bytes.{Bytes, to_be, from_be, zeros}
use jeeves.Envelope.Consts.{
  suite_aead_v1, aead_tag_bytes, payload_length_prefix_bytes, body_size_classes_bytes,
  body_oversize_multiple_bytes, minimum_envelope_bytes, contains,
}
use jeeves.Envelope.Errors.{EnvelopeError, PackError, struct_error}

unfoldable pub minimum_envelope_bytes_for_suite : ℕ → ℕ
minimum_envelope_bytes_for_suite suite =
    minimum_envelope_bytes + (if suite == suite_aead_v1 then aead_tag_bytes else 0)

-- The loop over the size classes, and the round-up above the last one.
unfoldable pub first_class : List ℕ → ℕ → ℕ
first_class [] framed_length_bytes =
    (framed_length_bytes + (body_oversize_multiple_bytes - 1))
    / body_oversize_multiple_bytes
    * body_oversize_multiple_bytes
first_class (size_class ∷ classes) framed_length_bytes =
    if leb framed_length_bytes size_class
    then size_class
    else first_class classes framed_length_bytes

unfoldable pub padded_body_length : ℕ → ℕ
unfolding first_class
padded_body_length framed_length_bytes = first_class body_size_classes_bytes framed_length_bytes

unfoldable pub is_legal_body_length : ℕ → Bool
is_legal_body_length n =
    contains body_size_classes_bytes n || (ltb 16384 n && n % body_oversize_multiple_bytes == 0)

unfoldable pub is_legal_body_length_for_suite : ℕ → ℕ → Bool
unfolding is_legal_body_length
is_legal_body_length_for_suite suite n =
    if not (suite == suite_aead_v1)
    then is_legal_body_length n
    else ltb aead_tag_bytes n && is_legal_body_length (n - aead_tag_bytes)

-- `struct.pack(">I", len(payload))` raises for a payload that a u32 cannot measure.
unfoldable pub frame_body : Bytes → Result PackError Bytes
frame_body payload =
    let framed_length = payload_length_prefix_bytes + length payload in
    let body_length = padded_body_length framed_length in
    if ltb (length payload) (256 ^ 4)
    then ok (to_be 4 (length payload) ++ (payload ++ zeros (body_length - framed_length)))
    else err struct_error

-- `any(padding)` is false: every byte is zero.
abbrev pub all_zero : Bytes → Bool
all_zero bs = all (λ b. b == 0) bs

unfoldable pub parse_body : Bytes → Result EnvelopeError Bytes
parse_body body =
    let payload_length = from_be (take payload_length_prefix_bytes body) in
    let padding_start = payload_length_prefix_bytes + payload_length in
    if not (is_legal_body_length (length body))
    then err EnvelopeError.invalid_body_length
    else if ltb (length body) padding_start
    then err EnvelopeError.payload_overruns_body
    else if not (all_zero (drop padding_start body))
    then err EnvelopeError.non_zero_padding
    else ok (take payload_length (drop payload_length_prefix_bytes body))
