-- ===== src/Envelope/Wire/Laws.antt =====
-- What the envelope functions guarantee to each other.
use jeeves.Common.{
  ℕ, ◌+◌, ◌-◌, ◌<◌, ◌≡◌, ◌⊎◌, ◌↔◌, arith, false, ◌++◌, length, length-append, take-append,
  drop-append, append_assoc, leb, ok,
}
use jeeves.Common.Bytes.{Bytes}
use jeeves.Crypto.{verified, Primitives}
use jeeves.Envelope.Header.{OpHeader, packed, parse}
use jeeves.Envelope.Header.RoundTrip.{
  IsWireHeader, serialize-eq-packed, length-packed, parse-packed,
}
use jeeves.Envelope.Wire.{
  signing_input, build_envelope, split_envelope, raise_verdict, verify_envelope, check_served,
}

-- The pairs of suite and op class that are served.
abbrev pub IsServed : ℕ → ℕ → Type 0
IsServed suite op_class =
    (suite ≡ 0) × ((op_class ≡ 1) ⊎ ((op_class ≡ 2) ⊎ ((op_class ≡ 4) ⊎ (op_class ≡ 5))))
    ⊎ (suite ≡ 1) × ((op_class ≡ 1) ⊎ (op_class ≡ 4))

-- A header is served exactly when its suite and op class are one of six pairs: content, control,
-- compaction and prune in plaintext, content and compaction encrypted.
pub check_served_iff : (h : OpHeader) → (check_served h ≡ ok tt) ↔ IsServed h.suite h.op_class
unfolding check_served
check_served_iff h = (λ e. ground arith, λ s. ground arith)

longer : (n : ℕ) → 0 < n → leb (158 + (n + 64)) 222 ≡ false
longer n h = ground arith

-- Header, body and signature come apart again where they were joined.
pub split_envelope-join :
    (header body signature : Bytes)
    → length header ≡ 158
    → 0 < length body
    → length signature ≡ 64
    → split_envelope (header ++ (body ++ signature))
      ≡ ok (record { header_bytes = header; body = body; signature = signature })
unfolding split_envelope
split_envelope-join header body signature eh eb es =
    let rest = body ++ signature in
    let size : length (header ++ rest) ≡ 158 + (length body + 64) =
      omega (arith, length-append header rest, length-append body signature) in
    let head_size : length (header ++ body) ≡ 158 + (length body + 64) - 64 =
      omega (arith, length-append header body) in
    rw (
      size,
      longer (length body) eb,
      take-append 158 header rest eh,
      drop-append 158 header rest eh,
      take-append (158 + (length body + 64) - 222) body signature (omega arith),
      ← append_assoc header body signature,
      drop-append (158 + (length body + 64) - 64) (header ++ body) signature head_size,
    )

-- An envelope that a key signed splits, parses to its header, and verifies under the public key
-- that accepts what this key signs.
pub verify_envelope-build_envelope :
    (lib : Primitives) (sign : Bytes → Bytes) (public_key body : Bytes) (h : OpHeader)
    → IsWireHeader h
    → 0 < length body
    → ((m : Bytes) → length (sign m) ≡ 64)
    → ((m : Bytes) → lib.ed25519_verify public_key m (sign m) ≡ verified)
    → (envelope : Bytes) × (build_envelope sign h body ≡ ok envelope)
      × (parse envelope ≡ ok h)
      × (verify_envelope lib envelope public_key ≡ ok tt)
unfolding build_envelope verify_envelope raise_verdict
verify_envelope-build_envelope lib sign pk body h wire some_body size accepts =
    let raw = packed h in
    let signature = sign (signing_input raw body) in
    (
      raw ++ (body ++ signature),
      rw (serialize-eq-packed h wire),
      parse-packed h (body ++ signature) wire,
      rw (
        verify_envelope,
        split_envelope-join raw body signature (length-packed h wire) some_body
            (size (signing_input raw body)),
        accepts (signing_input raw body),
      ),
    )

-- Control and prune ops that are served are plaintext, so that the server can read their bodies.
pub check_served-plaintext :
    (h : OpHeader) → check_served h ≡ ok tt → (h.op_class ≡ 2) ⊎ (h.op_class ≡ 5) → h.suite ≡ 0
check_served-plaintext h served cls = ground (arith, (check_served_iff h).0 served)
