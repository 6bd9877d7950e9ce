-- ===== src/Control/Certificates.antt =====
-- The certificates of control_payload.py: their fields, and `decode` of each.
use jeeves.Common.{
  ℕ, ◌+◌, not, ◌&&◌, Option, some, String, str_eq, ◌==◌, leb, length, take, if◌then◌else◌, ok, err,
  ◌>>=◌, raise_if, ◌>>◌,
}
use jeeves.Common.Bytes.{Bytes, bytes_eq}
use jeeves.Crypto.{Primitives}
use jeeves.Json.{ℤ, pos, negsuc, Json, Fields, text, int, object, get}
use jeeves.Envelope.{author_key_id_bytes, sign_public_key_bytes}
use jeeves.Grants.{role_owner, known_roles, has_role}
use jeeves.Control.Errors.{
  malformed_control_payload, unknown_role, owner_grant_requires_root, Checked, require_text,
  require_base64, require_key, require_canonical_uuid, granter_root, require_authority, Hlc,
  decode_hlc,
}

abbrev pub kex_public_key_bytes : ℕ
kex_public_key_bytes = 32

abbrev pub root_public_key_bytes : ℕ
root_public_key_bytes = 32

abbrev pub max_key_epoch : ℕ
max_key_epoch = 0xFFFFFFFF

abbrev pub keywrap_digest_bytes : ℕ
keywrap_digest_bytes = 32

pub record MemberKeys : Type 0 where
  pub member_id : ℕ
  pub sign_pk : Bytes
  pub kex_pk : Bytes
  pub member_kind : String

-- `sign_key_id` and `kex_key_id`, of keys whose width was checked.
unfoldable pub key_id_of : Primitives → Bytes → Bytes
key_id_of lib public_key = take author_key_id_bytes (lib.sha256 public_key)

-- `MemberKeys.from_json_dict`, on an object
unfoldable pub member_keys_of_fields : Primitives → Fields → Checked MemberKeys
unfolding key_id_of
member_keys_of_fields lib raw = do
  member_kind ← require_text (get raw "member_kind")
  raise_if (str_eq member_kind "") malformed_control_payload
  member_id ← require_canonical_uuid (get raw "member_id")
  sign_pk ← require_key lib (get raw "sign_pk") sign_public_key_bytes
  kex_pk ← require_key lib (get raw "kex_pk") kex_public_key_bytes
  sign_key_id ← require_key lib (get raw "sign_key_id") author_key_id_bytes
  raise_if (not (bytes_eq sign_key_id (key_id_of lib sign_pk))) malformed_control_payload
  kex_key_id ← require_key lib (get raw "kex_key_id") author_key_id_bytes
  raise_if (not (bytes_eq kex_key_id (key_id_of lib kex_pk))) malformed_control_payload
  ok (record {
    member_id = member_id;
    sign_pk = sign_pk;
    kex_pk = kex_pk;
    member_kind = member_kind;
  })

unfoldable pub member_keys_of_json : Primitives → Json → Checked MemberKeys
unfolding member_keys_of_fields
member_keys_of_json lib (object raw) = member_keys_of_fields lib raw
member_keys_of_json lib raw = err malformed_control_payload

-- `_decode_cert_json`
unfoldable pub require_object : Option Json → Checked Fields
require_object (some (object raw)) = ok raw
require_object raw = err malformed_control_payload

unfoldable pub decode_cert_json : Primitives → Bytes → Checked Fields
unfolding require_object
decode_cert_json lib cert_bytes = require_object (lib.json_loads cert_bytes)

pub record RegistrationCertificate : Type 0 where
  pub workspace_id : ℕ
  pub member_id : ℕ
  pub sign_pk : Bytes
  pub kex_pk : Bytes
  pub registered_at_hlc : Hlc
  pub member_kind : String

-- `RegistrationCertificate.decode`
unfoldable pub decode_registration : Primitives → Bytes → Checked RegistrationCertificate
decode_registration lib cert_bytes = do
  raw ← decode_cert_json lib cert_bytes
  keys ← member_keys_of_fields lib raw
  workspace_id ← require_canonical_uuid (get raw "workspace_id")
  registered_at_hlc ← decode_hlc (get raw "registered_at_hlc")
  ok (record {
    workspace_id = workspace_id;
    member_id = keys.member_id;
    sign_pk = keys.sign_pk;
    kex_pk = keys.kex_pk;
    registered_at_hlc = registered_at_hlc;
    member_kind = keys.member_kind;
  })

pub record GenesisCertificate : Type 0 where
  pub workspace_id : ℕ
  pub root_pk : Bytes
  pub founder : MemberKeys
  pub created_at_hlc : Hlc

-- `GenesisCertificate.decode`
unfoldable pub decode_genesis : Primitives → Bytes → Checked GenesisCertificate
decode_genesis lib cert_bytes = do
  raw ← decode_cert_json lib cert_bytes
  workspace_id ← require_canonical_uuid (get raw "workspace_id")
  root_pk ← require_key lib (get raw "root_pk") root_public_key_bytes
  founder ← member_keys_of_json lib (get raw "founder")
  created_at_hlc ← decode_hlc (get raw "created_at_hlc")
  ok (record {
    workspace_id = workspace_id;
    root_pk = root_pk;
    founder = founder;
    created_at_hlc = created_at_hlc;
  })

-- `GenesisCertificate.as_registration`
unfoldable pub as_registration : GenesisCertificate → RegistrationCertificate
as_registration genesis = record {
  workspace_id = genesis.workspace_id;
  member_id = genesis.founder.member_id;
  sign_pk = genesis.founder.sign_pk;
  kex_pk = genesis.founder.kex_pk;
  registered_at_hlc = genesis.created_at_hlc;
  member_kind = genesis.founder.member_kind;
}

pub record GrantCertificate : Type 0 where
  pub workspace_id : ℕ
  pub grant_id : ℕ
  pub member_id : ℕ
  pub role : String
  pub granter : String
  pub granted_at_hlc : Hlc

-- `isinstance(role, str) and role in KNOWN_ROLES`
unfoldable pub require_known_role : Json → Checked String
require_known_role (text role) = if has_role known_roles role then ok role else err unknown_role
require_known_role raw = err unknown_role

-- `GrantCertificate.decode`
unfoldable pub decode_grant : Primitives → Bytes → Checked GrantCertificate
decode_grant lib cert_bytes = do
  raw ← decode_cert_json lib cert_bytes
  role ← require_known_role (get raw "role")
  granter ← require_authority (get raw "granter")
  raise_if (str_eq role role_owner && not (str_eq granter granter_root)) owner_grant_requires_root
  workspace_id ← require_canonical_uuid (get raw "workspace_id")
  grant_id ← require_canonical_uuid (get raw "grant_id")
  member_id ← require_canonical_uuid (get raw "member_id")
  granted_at_hlc ← decode_hlc (get raw "granted_at_hlc")
  ok (record {
    workspace_id = workspace_id;
    grant_id = grant_id;
    member_id = member_id;
    role = role;
    granter = granter;
    granted_at_hlc = granted_at_hlc;
  })

pub record RevokeCertificate : Type 0 where
  pub workspace_id : ℕ
  pub revoke_id : ℕ
  pub grant_id : ℕ
  pub revoker : String
  pub revoked_at_hlc : Hlc

-- `RevokeCertificate.decode`
unfoldable pub decode_revoke : Primitives → Bytes → Checked RevokeCertificate
decode_revoke lib cert_bytes = do
  raw ← decode_cert_json lib cert_bytes
  workspace_id ← require_canonical_uuid (get raw "workspace_id")
  revoke_id ← require_canonical_uuid (get raw "revoke_id")
  grant_id ← require_canonical_uuid (get raw "grant_id")
  revoker ← require_authority (get raw "revoker")
  revoked_at_hlc ← decode_hlc (get raw "revoked_at_hlc")
  ok (record {
    workspace_id = workspace_id;
    revoke_id = revoke_id;
    grant_id = grant_id;
    revoker = revoker;
    revoked_at_hlc = revoked_at_hlc;
  })

pub record RotateStatement : Type 0 where
  pub workspace_id : ℕ
  pub from_epoch : ℕ
  pub to_epoch : ℕ
  pub keywrap_digest : Bytes
  pub rotated_at_hlc : Hlc

-- An int that is no bool.
unfoldable pub require_int : Json → Checked ℤ
require_int (int n) = ok n
require_int raw = err malformed_control_payload

-- `0 <= epoch <= MAX_KEY_EPOCH`
unfoldable pub require_epoch : ℤ → Checked ℕ
require_epoch (pos n) = if leb n max_key_epoch then ok n else err malformed_control_payload
require_epoch (negsuc n) = err malformed_control_payload

-- `RotateStatement.from_json_dict`
unfoldable pub rotate_of_fields : Primitives → Fields → Checked RotateStatement
rotate_of_fields lib raw = do
  from_int ← require_int (get raw "from_epoch")
  to_int ← require_int (get raw "to_epoch")
  from_epoch ← require_epoch from_int
  to_epoch ← require_epoch to_int
  raise_if (not (to_epoch == from_epoch + 1)) malformed_control_payload
  digest ← require_base64 lib (get raw "keywrap_digest")
  raise_if (not (length digest == keywrap_digest_bytes)) malformed_control_payload
  workspace_id ← require_canonical_uuid (get raw "workspace_id")
  rotated_at_hlc ← decode_hlc (get raw "rotated_at_hlc")
  ok (record {
    workspace_id = workspace_id;
    from_epoch = from_epoch;
    to_epoch = to_epoch;
    keywrap_digest = digest;
    rotated_at_hlc = rotated_at_hlc;
  })
