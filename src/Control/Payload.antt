-- ===== src/Control/Payload.antt =====
-- `ControlPayload` of control_payload.py. `__init__` arguments that a branch leaves out keep their
-- defaults: no bytes, the empty text, None.
use jeeves.Common.{
  ℕ, Bool, not, ◌||◌, ◌&&◌, List, [], ◌∷◌, Option, none, some, String, str_eq, ◌==◌, length,
  if◌then◌else◌, ok, ◌>>=◌, or_raise, raise_if, ◌>>◌,
}
use jeeves.Common.Bytes.{Bytes, bytes_eq, zeros}
use jeeves.Crypto.{Primitives}
use jeeves.Json.{Fields, get}
use jeeves.Text.{matches_hex, from_hex}
use jeeves.Grants.{has_role}
use jeeves.Control.Errors.{
  malformed_control_payload, control_chain_break, unsupported_control_type, Checked, require_text,
  require_base64, granter_root, require_authority,
}
use jeeves.Control.Certificates.{RotateStatement, rotate_of_fields, decode_cert_json}

abbrev pub control_type_member_register : String
control_type_member_register = "member_register"

abbrev pub control_type_workspace_genesis : String
control_type_workspace_genesis = "workspace_genesis"

abbrev pub control_type_grant : String
control_type_grant = "grant"

abbrev pub control_type_revoke : String
control_type_revoke = "revoke"

abbrev pub control_type_rotate : String
control_type_rotate = "rotate"

abbrev pub served_control_types : List String
served_control_types =
    control_type_member_register ∷ control_type_workspace_genesis ∷ control_type_grant
    ∷ control_type_revoke ∷ control_type_rotate ∷ []

abbrev pub root_signature_bytes : ℕ
root_signature_bytes = 64

abbrev pub zero_prev_control_hash : Bytes
zero_prev_control_hash = zeros 32

pub record ControlPayload : Type 0 where
  pub control_type : String
  pub prev_control_hash : Bytes
  pub cert_bytes : Bytes
  pub signature : Bytes
  pub authority : String
  pub rotate : Option RotateStatement

-- `is_root_signed`
unfoldable pub is_root_signed : ControlPayload → Bool
is_root_signed payload =
    str_eq payload.control_type control_type_member_register
    || (str_eq payload.control_type control_type_workspace_genesis
        || str_eq payload.authority granter_root)

-- `_SIGNATURE_FIELDS`, of the served types other than rotate
abbrev signature_fields : String → String × Option String
signature_fields control_type =
    if str_eq control_type control_type_grant
    then ("granter_sig", some "granter")
    else if str_eq control_type control_type_revoke
    then ("revoker_sig", some "revoker")
    else ("root_sig", none)

unfoldable pub authority_of_field : Fields → Option String → Checked String
authority_of_field raw none = ok granter_root
authority_of_field raw (some name) = require_authority (get raw name)

-- The branch of `decode` for a type with a certificate.
unfoldable pub decode_certified : Primitives → Fields → String → Bytes → Checked ControlPayload
unfolding authority_of_field
decode_certified lib raw control_type prev_control_hash = do
  signature ← require_base64 lib (get raw (signature_fields control_type).0)
  raise_if (not (length signature == root_signature_bytes)) malformed_control_payload
  cert_bytes ← require_base64 lib (get raw "cert")
  raise_if (length cert_bytes == 0) malformed_control_payload
  authority ← authority_of_field raw (signature_fields control_type).1
  ok (record {
    control_type = control_type;
    prev_control_hash = prev_control_hash;
    cert_bytes = cert_bytes;
    signature = signature;
    authority = authority;
    rotate = none;
  })

unfoldable pub decode_rotate : Primitives → Fields → String → Bytes → Checked ControlPayload
decode_rotate lib raw control_type prev_control_hash = do
  rotate ← rotate_of_fields lib raw
  ok (record {
    control_type = control_type;
    prev_control_hash = prev_control_hash;
    cert_bytes = [];
    signature = [];
    authority = "";
    rotate = some rotate;
  })

unfoldable pub decode_by_type : Primitives → Fields → String → Bytes → Checked ControlPayload
decode_by_type lib raw control_type prev_control_hash =
    if not (has_role served_control_types control_type)
    then ok (record {
      control_type = control_type;
      prev_control_hash = prev_control_hash;
      cert_bytes = [];
      signature = [];
      authority = "";
      rotate = none;
    })
    else if str_eq control_type control_type_rotate
    then decode_rotate lib raw control_type prev_control_hash
    else decode_certified lib raw control_type prev_control_hash

-- `ControlPayload.decode`
unfoldable pub decode : Primitives → Bytes → Checked ControlPayload
decode lib payload = do
  raw ← decode_cert_json lib payload
  control_type ← require_text (get raw "type")
  raise_if (str_eq control_type "") malformed_control_payload
  prev_control_hash ← require_text (get raw "prev_control_hash")
  raise_if (not (matches_hex 64 prev_control_hash)) malformed_control_payload
  decode_by_type lib raw control_type (from_hex prev_control_hash)

unfoldable pub require_served_type : ControlPayload → Checked (Unit {0})
require_served_type payload =
    raise_if (not (has_role served_control_types payload.control_type))
      (unsupported_control_type payload.control_type)

unfoldable pub require_chain_link_shape : ControlPayload → Checked (Unit {0})
require_chain_link_shape payload = do
  let is_genesis = str_eq payload.control_type control_type_workspace_genesis
  let is_zero = bytes_eq payload.prev_control_hash zero_prev_control_hash
  raise_if (is_zero && not is_genesis) control_chain_break
  raise_if (is_genesis && not is_zero) control_chain_break
  ok tt

unfoldable pub rotate_statement : ControlPayload → Checked RotateStatement
rotate_statement payload = or_raise payload.rotate malformed_control_payload
