-- ===== src/Control/Signatures.antt =====
-- Signing inputs of control_payload.py, each under a domain of its own, and their verification.
use jeeves.Common.{Bool, true, false, not, ◌++◌, raise_if}
use jeeves.Common.Bytes.{Bytes, codes}
use jeeves.Crypto.{Verdict, Primitives}
use jeeves.Control.Errors.{ControlError, Checked}

unfoldable pub registration_signing_input : Bytes → Bytes
registration_signing_input cert_bytes = codes "jeeves/member-register/v1" ++ cert_bytes

unfoldable pub genesis_signing_input : Bytes → Bytes
genesis_signing_input cert_bytes = codes "jeeves/workspace-genesis/v1" ++ cert_bytes

unfoldable pub grant_signing_input : Bytes → Bytes
grant_signing_input cert_bytes = codes "jeeves/grant/v1" ++ cert_bytes

unfoldable pub revoke_signing_input : Bytes → Bytes
revoke_signing_input cert_bytes = codes "jeeves/revoke/v1" ++ cert_bytes

unfoldable pub is_verified : Verdict → Bool
is_verified Verdict.verified = true
is_verified Verdict.bad_signature = false
is_verified Verdict.value_error = false

-- `_verify`
unfoldable pub verify : Primitives → Bytes → Bytes → Bytes → Bool
unfolding is_verified
verify lib signing_input signature public_key =
    is_verified (lib.ed25519_verify public_key signing_input signature)

unfoldable pub verify_registration_certificate :
    Primitives → Bytes → Bytes → Bytes → Checked (Unit {0})
verify_registration_certificate lib cert_bytes root_sig root_pk =
    raise_if (not (verify lib (registration_signing_input cert_bytes) root_sig root_pk))
      ControlError.bad_root_signature

unfoldable pub verify_genesis_certificate : Primitives → Bytes → Bytes → Bytes → Checked (Unit {0})
verify_genesis_certificate lib cert_bytes root_sig root_pk =
    raise_if (not (verify lib (genesis_signing_input cert_bytes) root_sig root_pk))
      ControlError.bad_root_signature

unfoldable pub verify_grant_certificate : Primitives → Bytes → Bytes → Bytes → Checked (Unit {0})
verify_grant_certificate lib cert_bytes granter_sig granter_pk =
    raise_if (not (verify lib (grant_signing_input cert_bytes) granter_sig granter_pk))
      ControlError.bad_grant_signature

unfoldable pub verify_revoke_certificate : Primitives → Bytes → Bytes → Bytes → Checked (Unit {0})
verify_revoke_certificate lib cert_bytes revoker_sig revoker_pk =
    raise_if (not (verify lib (revoke_signing_input cert_bytes) revoker_sig revoker_pk))
      ControlError.bad_revoke_signature
