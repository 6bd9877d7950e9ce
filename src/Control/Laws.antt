-- ===== src/Control/Laws.antt =====
-- What the decoders of control_payload.py guarantee.
use jeeves.Common.{
  ◌↔◌, suc, ◌≡◌, inl, inr, sym, ◌∙◌, arith, true, not, some, String, str_eq, str_eq_iff, ok,
  raise_if, >>=-eq-ok, Bool-cases,
}
use jeeves.Common.Bytes.{Bytes, bytes_eq, bytes_eq_iff}
use jeeves.Text.{matches_hex, from_hex}
use jeeves.Crypto.{Primitives}
use jeeves.Json.{Json, Fields, get}
use jeeves.Grants.{role_owner, known_roles, has_role}
use jeeves.Control.Errors.{granter_root, malformed_control_payload, require_authority, require_text}
use jeeves.Control.Certificates.{
  GrantCertificate, RotateStatement, decode_grant, require_known_role, rotate_of_fields,
  decode_cert_json,
}
use jeeves.Control.Payload.{
  ControlPayload, decode, decode_by_type, decode_rotate, decode_certified, require_chain_link_shape,
  control_type_workspace_genesis, zero_prev_control_hash,
}

require_known_role-known :
    (raw : Json) (role : String)
    → require_known_role raw ≡ ok role
    → has_role known_roles role ≡ true
unfolding require_known_role
require_known_role-known (Json.text s) role h = ground arith
require_known_role-known Json.null role h = cc
require_known_role-known (Json.bool b) role h = cc
require_known_role-known (Json.int b) role h = cc
require_known_role-known (Json.real b) role h = cc
require_known_role-known (Json.array b) role h = cc
require_known_role-known (Json.object b) role h = cc

-- A decoded grant certificate has a known role, and an owner's names Root as its granter.
pub decode_grant-role :
    (lib : Primitives) (cert_bytes : Bytes) (certificate : GrantCertificate)
    → decode_grant lib cert_bytes ≡ ok certificate
    → (has_role known_roles certificate.role ≡ true)
      × (certificate.role ≡ role_owner → certificate.granter ≡ granter_root)
unfolding decode_grant
decode_grant-role lib cert_bytes certificate h =
    let (raw, _, h1) = >>=-eq-ok (decode_cert_json lib cert_bytes) _ h in
    let (role, known, h2) = >>=-eq-ok (require_known_role (get raw "role")) _ h1 in
    let (granter, authority, h3) = >>=-eq-ok (require_authority (get raw "granter")) _ h2 in
    let role_is : certificate.role ≡ role = ground arith in
    let granter_is : certificate.granter ≡ granter = ground arith in
    (
      rw (role_is) (require_known_role-known (get raw "role") role known),
      λ owner. rw (granter_is) (
          (str_eq_iff granter granter_root).0
            (ground (arith, (str_eq_iff role role_owner).1 (sym role_is ∙ owner)))),
    )

-- A decoded rotate statement steps by one epoch.
pub rotate_of_fields-step :
    (lib : Primitives) (raw : Fields) (rotate : RotateStatement)
    → rotate_of_fields lib raw ≡ ok rotate
    → rotate.to_epoch ≡ suc rotate.from_epoch
unfolding rotate_of_fields
rotate_of_fields-step lib raw rotate h = ground arith

decode_by_type-rotate :
    (lib : Primitives) (raw : Fields) (control_type : String) (hash : Bytes)
    (payload : ControlPayload) (rotate : RotateStatement)
    → decode_by_type lib raw control_type hash ≡ ok payload
    → payload.rotate ≡ some rotate
    → rotate_of_fields lib raw ≡ ok rotate
unfolding decode_by_type decode_rotate decode_certified
decode_by_type-rotate lib raw control_type hash payload rotate h r = ground arith

decode_by_type-rotate_authority :
    (lib : Primitives) (raw : Fields) (control_type : String) (hash : Bytes)
    (payload : ControlPayload) (rotate : RotateStatement)
    → decode_by_type lib raw control_type hash ≡ ok payload
    → payload.rotate ≡ some rotate
    → payload.authority ≡ ""
unfolding decode_by_type decode_rotate decode_certified
decode_by_type-rotate_authority lib raw control_type hash payload rotate h r = ground arith

-- What decodes is read by its type.
decode-decode_by_type :
    (lib : Primitives) (bytes : Bytes) (payload : ControlPayload)
    → decode lib bytes ≡ ok payload
    → (raw : Fields) × (control_type : String) × (hash : Bytes) × (decode_by_type lib raw
          control_type hash
        ≡ ok payload)
unfolding decode
decode-decode_by_type lib bytes payload h =
    let (raw, _, h1) = >>=-eq-ok (decode_cert_json lib bytes) _ h in
    let (control_type, _, h2) = >>=-eq-ok (require_text (get raw "type")) _ h1 in
    let (_, _, h3) = >>=-eq-ok (raise_if (str_eq control_type "") malformed_control_payload) _ h2 in
    let (hash, _, h4) = >>=-eq-ok (require_text (get raw "prev_control_hash")) _ h3 in
    let (_, _, h5) =
      >>=-eq-ok (raise_if (not (matches_hex 64 hash)) malformed_control_payload) _ h4 in
    (raw, control_type, from_hex hash, h5)

-- A decoded control payload that carries a rotation steps by one epoch.
pub decode-rotate_step :
    (lib : Primitives) (bytes : Bytes) (payload : ControlPayload) (rotate : RotateStatement)
    → decode lib bytes ≡ ok payload
    → payload.rotate ≡ some rotate
    → rotate.to_epoch ≡ suc rotate.from_epoch
decode-rotate_step lib bytes payload rotate h r =
    let (raw, control_type, hash, typed) = decode-decode_by_type lib bytes payload h in
    rotate_of_fields-step lib raw rotate
      (decode_by_type-rotate lib raw control_type hash payload rotate typed r)

-- A decoded control payload that carries a rotation names no authority.
pub decode-rotate_authority :
    (lib : Primitives) (bytes : Bytes) (payload : ControlPayload) (rotate : RotateStatement)
    → decode lib bytes ≡ ok payload
    → payload.rotate ≡ some rotate
    → payload.authority ≡ ""
decode-rotate_authority lib bytes payload rotate h r =
    let (raw, control_type, hash, typed) = decode-decode_by_type lib bytes payload h in
    decode_by_type-rotate_authority lib raw control_type hash payload rotate typed r

-- Exactly a genesis may link to the zero hash.
pub require_chain_link_shape_iff :
    (payload : ControlPayload)
    → (require_chain_link_shape payload ≡ ok tt) ↔ (
        (payload.prev_control_hash ≡ zero_prev_control_hash)
        ↔ (payload.control_type ≡ control_type_workspace_genesis))
unfolding require_chain_link_shape
require_chain_link_shape_iff payload =
    let zero_iff = bytes_eq_iff payload.prev_control_hash zero_prev_control_hash in
    let genesis_iff = str_eq_iff payload.control_type control_type_workspace_genesis in
    elim (Bool-cases (bytes_eq payload.prev_control_hash zero_prev_control_hash)) [
      | inl z ↦ elim (Bool-cases (str_eq payload.control_type control_type_workspace_genesis)) [
        | inl g ↦ (λ _. (λ _. genesis_iff.0 g, λ _. zero_iff.0 z), λ _. ground arith)
        | inr g ↦
            (λ h. absurd (ground arith), λ e. absurd (cc (genesis_iff.1 (e.0 (zero_iff.0 z)))))
      ]
      | inr z ↦ elim (Bool-cases (str_eq payload.control_type control_type_workspace_genesis)) [
        | inl g ↦
            (λ h. absurd (ground arith), λ e. absurd (cc (zero_iff.1 (e.1 (genesis_iff.0 g)))))
        | inr g ↦ (
          λ _. (λ x. absurd (cc (zero_iff.1 x)), λ x. absurd (cc (genesis_iff.1 x))),
          λ _. ground arith,
        )
      ]
    ]
