-- ===== src/Envelope/Wire.antt =====
-- The whole envelope of envelope.py: splitting, signing, verifying, and the served pairs.
pub mod Laws
use jeeves.Common.{
  ℕ, ◌-◌, Bool, true, false, not, ◌&&◌, ◌++◌, List, ◌≡◌, ◌==◌, leb, length, take, drop,
  if◌then◌else◌, Result, ok, err, ◌>>=◌, raise_if, ◌>>◌,
}
use jeeves.Common.Bytes.{Bytes, codes}
use jeeves.Crypto.{Verdict, verified, Primitives}
use jeeves.Envelope.Consts.{
  suite_plaintext_v1, suite_aead_v1, served_suites, op_class_control, op_class_prune,
  served_op_classes, plaintext_refused_at_keyed_epoch_op_classes, contains, header_length_bytes,
  signature_length_bytes, envelope_overhead_bytes, author_key_id_bytes, sign_public_key_bytes,
}
use jeeves.Envelope.Errors.{EnvelopeError, PackError, value_error}
use jeeves.Envelope.Header.{OpHeader, serialize}

abbrev pub signing_domain_op_v1 : Bytes
signing_domain_op_v1 = codes "jeeves/op/v1"

unfoldable pub derive_key_id : Primitives → Bytes → Result PackError Bytes
derive_key_id lib sign_public_key =
    if not (length sign_public_key == sign_public_key_bytes)
    then err value_error
    else ok (take author_key_id_bytes (lib.sha256 sign_public_key))

unfoldable pub signing_input : Bytes → Bytes → Bytes
signing_input header_bytes body = signing_domain_op_v1 ++ (header_bytes ++ body)

-- `sign` is `signing_key.sign(message).signature`.
unfoldable pub build_envelope : (Bytes → Bytes) → OpHeader → Bytes → Result PackError Bytes
build_envelope sign header body = do
  header_bytes ← serialize header
  ok (header_bytes ++ (body ++ sign (signing_input header_bytes body)))

pub record Parts : Type 0 where
  pub header_bytes : Bytes
  pub body : Bytes
  pub signature : Bytes

unfoldable pub split_envelope : Bytes → Result EnvelopeError Parts
split_envelope envelope =
    if leb (length envelope) envelope_overhead_bytes
    then err EnvelopeError.truncated_envelope
    else ok (record {
      header_bytes = take header_length_bytes envelope;
      body = take (length envelope - envelope_overhead_bytes) (drop header_length_bytes envelope);
      signature = drop (length envelope - signature_length_bytes) envelope;
    })

-- The verdict as an exception. A `ValueError` of the library is not caught here.
pub data VerifyError : Type 0 where
  envelope_error : EnvelopeError → VerifyError
  library_error : VerifyError

unfoldable pub raise_verdict : Verdict → Result VerifyError (Unit {0})
raise_verdict Verdict.verified = ok tt
raise_verdict Verdict.bad_signature = err (envelope_error EnvelopeError.bad_signature)
raise_verdict Verdict.value_error = err library_error

unfoldable pub verify_envelope : Primitives → Bytes → Bytes → Result VerifyError (Unit {0})
verify_envelope lib envelope sign_public_key = elim (split_envelope envelope) [
  | ok parts ↦ raise_verdict (
      lib.ed25519_verify sign_public_key (signing_input parts.header_bytes parts.body)
        parts.signature)
  | err e ↦ err (envelope_error e)
]

unfoldable pub envelope_hash : Primitives → Bytes → Bytes
envelope_hash lib envelope = lib.sha256 envelope

unfoldable pub check_served : OpHeader → Result EnvelopeError (Unit {0})
check_served header = do
  raise_if (not (contains served_suites header.suite)) EnvelopeError.unsupported_suite
  raise_if (not (contains served_op_classes header.op_class)) EnvelopeError.unsupported_op_class
  raise_if (header.suite == suite_aead_v1 && header.op_class == op_class_control)
      EnvelopeError.encrypted_control_op
  raise_if (header.suite == suite_aead_v1 && header.op_class == op_class_prune)
      EnvelopeError.encrypted_prune_op
  ok tt

unfoldable pub check_suite_at_keyed_epoch : OpHeader → Bool → Result EnvelopeError (Unit {0})
check_suite_at_keyed_epoch header holds_epoch_key =
    if not holds_epoch_key
    then ok tt
    else if not (contains plaintext_refused_at_keyed_epoch_op_classes header.op_class)
    then ok tt
    else if not (header.suite == suite_plaintext_v1)
    then ok tt
    else err EnvelopeError.plaintext_at_encrypted_epoch
