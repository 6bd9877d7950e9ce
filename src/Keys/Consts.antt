-- ===== src/Keys/Consts.antt =====
-- The constants and exceptions of backend/app/sync/key_wraps.py.
use jeeves.Common.{ℕ, ◌+◌, leb, if◌then◌else◌, Result, ok, err}
use jeeves.Common.Bytes.{Bytes, to_be}
use jeeves.Envelope.{workspace_key_bytes, aead_tag_bytes}

abbrev pub ephemeral_public_key_bytes : ℕ
ephemeral_public_key_bytes = 32

abbrev pub wrap_nonce_bytes : ℕ
wrap_nonce_bytes = 24

abbrev pub keywrap_bytes : ℕ
keywrap_bytes = ephemeral_public_key_bytes + wrap_nonce_bytes + workspace_key_bytes + aead_tag_bytes

abbrev pub epoch_key_escrow_wrap_bytes : ℕ
epoch_key_escrow_wrap_bytes = wrap_nonce_bytes + workspace_key_bytes + aead_tag_bytes

abbrev pub max_key_epoch : ℕ
max_key_epoch = 0xFFFFFFFF

abbrev pub master_wrap_key_bytes : ℕ
master_wrap_key_bytes = 32

abbrev pub keywrap_digest_bytes : ℕ
keywrap_digest_bytes = 32

-- `MalformedKeyWrapError`, `ValueError`, the `OverflowError` of `int.to_bytes`, `AeadFailureError`;
-- `out_of_fuel` is where the model of a loop stops before the loop does.
pub data KeyWrapError : Type 0 where
  malformed_keywrap value_error overflow_error aead_failure out_of_fuel : KeyWrapError

-- `_epoch_bytes`
unfoldable pub epoch_bytes : ℕ → Result KeyWrapError Bytes
epoch_bytes epoch =
    if leb epoch max_key_epoch then ok (to_be 4 epoch) else err KeyWrapError.value_error
