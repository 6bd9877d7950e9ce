-- ===== src/Tests/Samples.antt =====
-- A small world: one User with two Members, a Workspace that it derives, and primitives that are
-- functions on the nose: base64 of a text is its characters, a hash is its input cut to length,
-- every signature verifies, and JSON is looked up by name.
use jeeves.Common.{
  ◌%◌, false, [], ◌∷◌, ◌++◌, Option, none, some, String, str_eq, if◌then◌else◌, take,
}
use jeeves.Common.Bytes.{Bytes, codes, zeros, bytes_eq, to_be}
use jeeves.Crypto.{Primitives, Verdict}
use jeeves.Json.{Json, text, int, array, object, end, field, pos, nil, cons}
use jeeves.Envelope.Header.{OpHeader, packed}
use jeeves.Store.{Db, Member, Op, Grant}
use jeeves.Control.Errors.{Hlc}
use jeeves.Control.Certificates.{
  GrantCertificate, RevokeCertificate, RotateStatement, GenesisCertificate, MemberKeys,
}
use jeeves.Control.Payload.{ControlPayload}
use jeeves.Log.{ParsedOp}
use jeeves.Authorize.Certs.{Context}

abbrev pub key : Bytes
key = codes "0123456789abcdef0123456789abcdef"

abbrev pub signature : Bytes
signature = zeros 64

abbrev uuid_1 : String
uuid_1 = "00000000-0000-0000-0000-000000000001"

abbrev uuid_5 : String
uuid_5 = "00000000-0000-0000-0000-000000000005"

abbrev uuid_7 : String
uuid_7 = "00000000-0000-0000-0000-000000000007"

abbrev digits_64 : String
digits_64 = "1111111111111111111111111111111111111111111111111111111111111111"

abbrev zeros_64 : String
zeros_64 = "0000000000000000000000000000000000000000000000000000000000000000"

abbrev key_text : String
key_text = "0123456789abcdef0123456789abcdef"

abbrev hlc_json : Json
hlc_json = array (cons (int (pos 3)) (cons (int (pos 0)) (cons (text key_text) nil)))

abbrev grant_cert_json : Json
grant_cert_json = object (
    field "role" (text "owner") (
      field "granter" (text "root") (
        field "workspace_id" (text uuid_7) (
          field "grant_id" (text uuid_1)
            (field "member_id" (text uuid_5) (field "granted_at_hlc" hlc_json end))))))

abbrev revoke_cert_json : Json
revoke_cert_json = object (
    field "workspace_id" (text uuid_7) (
      field "revoke_id" (text uuid_5) (
        field "grant_id" (text uuid_1)
          (field "revoker" (text "root") (field "revoked_at_hlc" hlc_json end)))))

abbrev founder_json : Json
founder_json = object (
    field "member_kind" (text "device") (
      field "member_id" (text uuid_5) (
        field "sign_pk" (text key_text) (
          field "kex_pk" (text key_text)
            (field "sign_key_id" (text "01234567") (field "kex_key_id" (text "01234567") end))))))

abbrev genesis_cert_json : Json
genesis_cert_json = object (
    field "workspace_id" (text uuid_7) (
      field "root_pk" (text key_text)
        (field "founder" founder_json (field "created_at_hlc" hlc_json end))))

abbrev grant_json : Json
grant_json = object (
    field "type" (text "grant") (
      field "prev_control_hash" (text digits_64) (
        field "granter_sig" (text digits_64)
          (field "cert" (text "grant-cert") (field "granter" (text "root") end)))))

abbrev rotate_json : Json
rotate_json = object (
    field "type" (text "rotate") (
      field "prev_control_hash" (text digits_64) (
        field "from_epoch" (int (pos 0)) (
          field "to_epoch" (int (pos 1)) (
            field "keywrap_digest" (text key_text)
              (field "workspace_id" (text uuid_7) (field "rotated_at_hlc" hlc_json end)))))))

abbrev documents : Bytes → Option Json
documents bytes =
    if bytes_eq bytes (codes "grant-cert")
    then some grant_cert_json
    else if bytes_eq bytes (codes "revoke-cert")
    then some revoke_cert_json
    else if bytes_eq bytes (codes "genesis-cert")
    then some genesis_cert_json
    else if bytes_eq bytes (codes "grant")
    then some grant_json
    else if bytes_eq bytes (codes "rotate")
    then some rotate_json
    else none

abbrev pub content_header : OpHeader
content_header = record {
  suite = 0;
  op_class = 1;
  workspace_id = 7;
  key_epoch = 0;
  op_id = 21;
  author_member_id = 5;
  author_key_id = zeros 8;
  author_seq = 1;
  prev_author_hash = zeros 32;
  observed_head = zeros 32;
  nonce = zeros 24;
}

abbrev pub control_header : OpHeader
control_header = record content_header { op_class = 2 }

abbrev pub envelope_of : OpHeader → Bytes → Bytes
envelope_of header body = packed header ++ (body ++ signature)

abbrev pub world : Primitives
world = record {
  sha256 = λ bytes. take 32 bytes;
  ed25519_verify = λ public_key message sig. Verdict.verified;
  b64decode =
      λ s. if str_eq s "op" then some (envelope_of content_header (zeros 256)) else some (codes s);
  json_loads = documents;
  uuid5 = λ namespace name. namespace % 16;
}

abbrev pub member : Member
member = record {
  member_id = 5;
  user_id = "user";
  sign_pk = key;
  key_id = zeros 8;
  kex_pk = some key;
  member_kind = some "device";
  chained_at = some 2;
}

abbrev pub owner_row : Grant
owner_row = record {
  workspace_id = 7;
  grant_id = 3;
  member_id = 5;
  role = "owner";
  granter = "root";
  granted_seq = 2;
  revoked_by_seq = none;
}

abbrev pub revoked_row : Grant
revoked_row = record owner_row { grant_id = 9; revoked_by_seq = some 4 }

abbrev pub stored_op : Op
stored_op = record {
  seq = 3;
  workspace_id = 7;
  envelope = zeros 4;
  op_class = 1;
  key_epoch = 0;
  op_id = 20;
  author_member_id = 6;
  author_key_id = zeros 8;
  author_seq = 1;
  compacted_by = none;
}

abbrev pub db : Db
db = record {
  users = [];
  refresh_tokens = [];
  members = member ∷ [];
  ops = stored_op ∷ [];
  next_seq = 5;
  workspaces = record { workspace_id = 7; genesis_seq = 1 } ∷ [];
  grants = owner_row ∷ revoked_row ∷ [];
  escrows =
      record {
        workspace_id = 7;
        user_id = "user";
        version = 1;
        blob = [];
        root_sig = signature;
        root_pk = key;
      }
      ∷ [];
  escrow_fetches = [];
  keywraps = [];
  epochs = [];
}

abbrev pub context_5 : Context
context_5 = record {
  lib = world;
  db = db;
  workspace_id = 7;
  current_member = member;
  root_pk = key;
  is_preferences = false;
  replayed_op_ids = [];
}

abbrev hlc : Hlc
hlc = record { wall_ms = pos 3; counter = pos 0; member_id_hex = key_text }

abbrev pub owner_certificate : GrantCertificate
owner_certificate = record {
  workspace_id = 7;
  grant_id = 1;
  member_id = 5;
  role = "owner";
  granter = "root";
  granted_at_hlc = hlc;
}

abbrev pub revoke_certificate : RevokeCertificate
revoke_certificate = record {
  workspace_id = 7;
  revoke_id = 5;
  grant_id = 1;
  revoker = "root";
  revoked_at_hlc = hlc;
}

abbrev pub founder : MemberKeys
founder = record { member_id = 5; sign_pk = key; kex_pk = key; member_kind = "device" }

abbrev pub genesis_certificate : GenesisCertificate
genesis_certificate = record {
  workspace_id = 7;
  root_pk = key;
  founder = founder;
  created_at_hlc = hlc;
}

abbrev pub rotate : RotateStatement
rotate = record {
  workspace_id = 7;
  from_epoch = 0;
  to_epoch = 1;
  keywrap_digest = key;
  rotated_at_hlc = hlc;
}

abbrev pub payload_of : String → Bytes → ControlPayload
payload_of control_type cert_bytes = record {
  control_type = control_type;
  prev_control_hash = zeros 32;
  cert_bytes = cert_bytes;
  signature = signature;
  authority = "root";
  rotate = none;
}

abbrev pub content_op_21 : ParsedOp
content_op_21 = record {
  envelope = envelope_of content_header (zeros 256);
  header = content_header;
}

abbrev pub owner_op : ParsedOp
owner_op = record {
  envelope = envelope_of control_header (to_be 4 5 ++ (codes "grant" ++ zeros 247));
  header = control_header;
}

abbrev pub rotate_op : ParsedOp
rotate_op = record {
  envelope = envelope_of control_header (to_be 4 6 ++ (codes "rotate" ++ zeros 246));
  header = control_header;
}
