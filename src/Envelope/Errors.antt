-- ===== src/Envelope/Errors.antt =====
-- The exceptions of envelope.py, one constructor for each class, with the class's `reason`.
use jeeves.Codes.{Code}

pub data EnvelopeError : Type 0 where
  truncated_envelope envelope_too_short unsupported_suite unsupported_op_class : EnvelopeError
  invalid_body_length payload_overruns_body non_zero_padding bad_signature : EnvelopeError
  workspace_mismatch encrypted_control_op encrypted_prune_op : EnvelopeError
  plaintext_at_encrypted_epoch aead_failure : EnvelopeError

unfoldable pub reason : EnvelopeError → Code
reason EnvelopeError.truncated_envelope = Code.truncated_envelope
reason EnvelopeError.envelope_too_short = Code.envelope_too_short
reason EnvelopeError.unsupported_suite = Code.unsupported_suite
reason EnvelopeError.unsupported_op_class = Code.unsupported_op_class
reason EnvelopeError.invalid_body_length = Code.invalid_body_length
reason EnvelopeError.payload_overruns_body = Code.payload_overruns_body
reason EnvelopeError.non_zero_padding = Code.non_zero_padding
reason EnvelopeError.bad_signature = Code.bad_signature
reason EnvelopeError.workspace_mismatch = Code.workspace_mismatch
reason EnvelopeError.encrypted_control_op = Code.encrypted_control_op
reason EnvelopeError.encrypted_prune_op = Code.encrypted_prune_op
reason EnvelopeError.plaintext_at_encrypted_epoch = Code.plaintext_at_encrypted_epoch
reason EnvelopeError.aead_failure = Code.aead_failure

-- What `serialize`, `frame_body` and the sealing functions raise when they are misused: a
-- `ValueError` from their own length checks, a `struct.error` for a number out of range.
pub data PackError : Type 0 where
  value_error struct_error : PackError
