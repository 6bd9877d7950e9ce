-- ===== src/Envelope/Aead.antt =====
-- `aead_v1` of envelope.py: a framed body sealed under the header, which is its associated data.
-- The cipher is libsodium's: its two functions are parameters.
use jeeves.Common.{
  ℕ, ◌+◌, ◌≡◌, refl, arith, true, not, Option, none, some, ◌==◌, length, take, drop, if◌then◌else◌,
  Result, ok, err,
}
use jeeves.Common.Bytes.{Bytes}
use jeeves.Envelope.Consts.{
  suite_aead_v1, header_length_bytes, nonce_bytes, nonce_offset, workspace_key_bytes,
}
use jeeves.Envelope.Errors.{EnvelopeError, PackError, value_error}
use jeeves.Envelope.Framing.{is_legal_body_length, is_legal_body_length_for_suite}
use jeeves.Envelope.Header.{OpHeader, packed}
use jeeves.Envelope.Header.RoundTrip.{IsWireHeader, nonce-packed}

pub record Cipher : Type 0 where
  -- message, associated data, nonce, key
  pub encrypt : Bytes → Bytes → Bytes → Bytes → Bytes
  -- `none` is `CryptoError`
  pub decrypt : Bytes → Bytes → Bytes → Bytes → Option Bytes

unfoldable pub nonce_of_header : Bytes → Bytes
nonce_of_header header_bytes = take nonce_bytes (drop nonce_offset header_bytes)

pub data OpenError : Type 0 where
  misuse : PackError → OpenError
  refused : EnvelopeError → OpenError

unfoldable pub seal_body : Cipher → Bytes → Bytes → Bytes → Result PackError Bytes
seal_body cipher header_bytes framed_body workspace_key =
    if not (length header_bytes == header_length_bytes)
    then err value_error
    else if not (length workspace_key == workspace_key_bytes)
    then err value_error
    else ok (cipher.encrypt framed_body header_bytes (nonce_of_header header_bytes) workspace_key)

abbrev authentic : Option Bytes → Result OpenError Bytes
authentic none = err (refused EnvelopeError.aead_failure)
authentic (some plain) = ok plain

unfoldable pub open_body : Cipher → Bytes → Bytes → Bytes → Result OpenError Bytes
open_body cipher header_bytes body workspace_key =
    if not (length header_bytes == header_length_bytes)
    then err (misuse value_error)
    else if not (length workspace_key == workspace_key_bytes)
    then err (misuse value_error)
    else if not (is_legal_body_length_for_suite suite_aead_v1 (length body))
    then err (refused EnvelopeError.invalid_body_length)
    else authentic (cipher.decrypt body header_bytes (nonce_of_header header_bytes) workspace_key)

-- What is asked of the cipher: it opens what it sealed, and a sealed message is a tag longer.
pub record IsAead (cipher : Cipher) : Type 0 where
  pub opens :
      (m ad nonce key : Bytes)
      → cipher.decrypt (cipher.encrypt m ad nonce key) ad nonce key ≡ some m
  pub tagged : (m ad nonce key : Bytes) → length (cipher.encrypt m ad nonce key) ≡ length m + 16

legal_sealed :
    (n : ℕ) → is_legal_body_length n ≡ true → is_legal_body_length_for_suite 1 (n + 16) ≡ true
unfolding is_legal_body_length_for_suite
legal_sealed n legal = ground arith

-- The nonce that sealing takes from a serialized header is the header's own.
pub nonce_of_header-packed : (h : OpHeader) → IsWireHeader h → nonce_of_header (packed h) ≡ h.nonce
unfolding nonce_of_header
nonce_of_header-packed h wire = nonce-packed h wire

-- A framed body of a legal length that was sealed under a header and a key opens under them to
-- itself, and what was sealed has a legal length for the suite.
pub open_body-seal_body :
    (cipher : Cipher) (header_bytes framed_body key : Bytes)
    → IsAead cipher
    → length header_bytes ≡ 158
    → length key ≡ 32
    → is_legal_body_length (length framed_body) ≡ true
    → (sealed : Bytes) × (seal_body cipher header_bytes framed_body key ≡ ok sealed)
      × (is_legal_body_length_for_suite 1 (length sealed) ≡ true)
      × (open_body cipher header_bytes sealed key ≡ ok framed_body)
unfolding seal_body
open_body-seal_body cipher hb body key aead eh ek legal =
    let sealed = cipher.encrypt body hb (nonce_of_header hb) key in
    let fits : is_legal_body_length_for_suite 1 (length sealed) ≡ true =
      rw (aead.tagged body hb (nonce_of_header hb) key) (legal_sealed (length body) legal) in
    (
      sealed,
      ground arith,
      fits,
      unfold open_body in rw (eh, ek, fits, aead.opens body hb (nonce_of_header hb) key) refl,
    )
