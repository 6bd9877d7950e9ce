-- ===== src/Control/Errors.antt =====
-- The exceptions of control_payload.py, the checks that raise them on a JSON value, and what the
-- routes make of them.
use jeeves.Common.{
  ℕ, not, [], ◌∷◌, String, str_eq, ◌==◌, length, if◌then◌else◌, Result, ok, err, ◌>>=◌, or_raise,
  raise_if, ◌>>◌,
}
use jeeves.Common.Bytes.{Bytes}
use jeeves.Codes.{Code}
use jeeves.Crypto.{Primitives}
use jeeves.Json.{ℤ, Json, int, text, array, nil, cons}
use jeeves.Store.{HttpError, unprocessable, number, Detail}
use jeeves.Text.{matches_canonical_uuid, matches_hex, uuid_of_text}

-- `uncaught` is a `ValueError` that is no `ControlPayloadError`, so that no handler catches it.
pub data ControlError : Type 0 where
  malformed_control_payload bad_root_signature bad_grant_signature : ControlError
  bad_revoke_signature unknown_role control_chain_break owner_grant_requires_root : ControlError
  unsupported_control_type : String → ControlError
  uncaught : ControlError

-- `raise _unprocessable(exc.reason, index=index)`, with `type` for an unsupported control type.
unfoldable pub control_refusal : ℕ → ControlError → HttpError
control_refusal index ControlError.malformed_control_payload =
    unprocessable Code.malformed_control_payload (number "index" index ∷ [])
control_refusal index ControlError.bad_root_signature =
    unprocessable Code.bad_root_signature (number "index" index ∷ [])
control_refusal index ControlError.bad_grant_signature =
    unprocessable Code.bad_grant_signature (number "index" index ∷ [])
control_refusal index ControlError.bad_revoke_signature =
    unprocessable Code.bad_revoke_signature (number "index" index ∷ [])
control_refusal index ControlError.unknown_role =
    unprocessable Code.unknown_role (number "index" index ∷ [])
control_refusal index ControlError.control_chain_break =
    unprocessable Code.control_chain_break (number "index" index ∷ [])
control_refusal index ControlError.owner_grant_requires_root =
    unprocessable Code.owner_grant_requires_root (number "index" index ∷ [])
control_refusal index (ControlError.unsupported_control_type observed_type) =
    unprocessable Code.unsupported_control_type
      (number "index" index ∷ Detail.text "type" observed_type ∷ [])
control_refusal index ControlError.uncaught = record {
  status = 500;
  code = Code.internal_error;
  detail = [];
}

abbrev pub Checked : Type 0 → Type 0
Checked A = Result ControlError A

abbrev malformed : ControlError
malformed = ControlError.malformed_control_payload

unfoldable pub require_text : Json → Checked String
require_text (text s) = ok s
require_text raw = err malformed

-- `_require_base64`
unfoldable pub require_base64 : Primitives → Json → Checked Bytes
unfolding require_text
require_base64 lib raw = do s ← require_text raw; or_raise (lib.b64decode s) malformed

-- `_require_key`
unfoldable pub require_key : Primitives → Json → ℕ → Checked Bytes
unfolding require_base64
require_key lib raw expected_bytes = do
  decoded ← require_base64 lib raw
  raise_if (not (length decoded == expected_bytes)) malformed
  ok decoded

-- `_require_canonical_uuid`
unfoldable pub require_canonical_uuid : Json → Checked ℕ
unfolding require_text
require_canonical_uuid raw = do
  s ← require_text raw
  raise_if (not (matches_canonical_uuid s)) malformed
  or_raise (uuid_of_text s) ControlError.uncaught

abbrev pub granter_root : String
granter_root = "root"

-- `_require_authority`
unfoldable pub require_authority : Json → Checked String
unfolding require_text
require_authority raw = do
  s ← require_text raw
  if str_eq s granter_root
      then ok granter_root
      else if not (matches_canonical_uuid s)
      then err malformed
      else ok s

-- `Hlc` of op_payload.py
pub record Hlc : Type 0 where
  pub wall_ms : ℤ
  pub counter : ℤ
  pub member_id_hex : String

-- `Hlc.from_json` under `_decode_hlc`, which turns every exception into a malformed payload.
unfoldable pub decode_hlc : Json → Checked Hlc
decode_hlc (array (cons (int wall_ms) (cons (int counter) (cons (text member) nil)))) =
    if matches_hex 32 member
    then ok (record { wall_ms = wall_ms; counter = counter; member_id_hex = member })
    else err malformed
decode_hlc raw = err malformed
