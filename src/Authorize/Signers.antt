-- ===== src/Authorize/Signers.antt =====
-- Who stands behind a control op that is admitted.
use jeeves.Common.{
  ℕ, ◌≡◌, ◌⊎◌, inl, inr, refl, ◌∙◌, arith, subst, Bool, true, false, List, String, str_eq,
  str_eq_iff, ok, Result-cases, Bool-cases, >>=-eq-ok,
}
use jeeves.Common.Bytes.{Bytes}
use jeeves.Crypto.{Primitives}
use jeeves.Envelope.Header.{OpHeader}
use jeeves.Grants.{GrantIndex}
use jeeves.Grants.Laws.{Distinct, LiveWhere, admits, require_role_iff}
use jeeves.Control.Errors.{granter_root}
use jeeves.Control.Certificates.{GrantCertificate, RevokeCertificate}
use jeeves.Control.Payload.{
  ControlPayload, decode, is_root_signed, rotate_statement, control_type_member_register,
  control_type_workspace_genesis, control_type_grant, control_type_revoke, control_type_rotate,
}
use jeeves.Control.Laws.{decode-rotate_authority}
use jeeves.Control.Signatures.{
  verify, registration_signing_input, genesis_signing_input, grant_signing_input,
  revoke_signing_input, verify_registration_certificate, verify_grant_certificate,
  verify_revoke_certificate,
}
use jeeves.Log.{ParsedOp}
use jeeves.Authorize.Certs.{
  Context, decode_control_payload, payload_bytes_of, authority_public_key, verify_member_register,
  verify_grant, verify_revoke, verify_rotate,
}
use jeeves.Authorize.Ceilings.{verify_genesis-founds}
use jeeves.Authorize.Walk.{Walk, require_root_or_owner}
use jeeves.Authorize.Step.{
  ControlStep, genesis_step, register_step, grant_step, revoke_step, rotate_step,
}

-- The payload's signature verifies under the key, over its certificate in the domain of its type.
pub data IsSignedBy (lib : Primitives) (payload : ControlPayload) (key : Bytes) : Type 0 where
  genesis_signed :
      payload.control_type ≡ control_type_workspace_genesis
      → verify lib (genesis_signing_input payload.cert_bytes) payload.signature key ≡ true
      → IsSignedBy lib payload key
  registration_signed :
      payload.control_type ≡ control_type_member_register
      → verify lib (registration_signing_input payload.cert_bytes) payload.signature key ≡ true
      → IsSignedBy lib payload key
  grant_signed :
      payload.control_type ≡ control_type_grant
      → verify lib (grant_signing_input payload.cert_bytes) payload.signature key ≡ true
      → IsSignedBy lib payload key
  revocation_signed :
      payload.control_type ≡ control_type_revoke
      → verify lib (revoke_signing_input payload.cert_bytes) payload.signature key ≡ true
      → IsSignedBy lib payload key

-- What stands behind a control op: the verified signature of Root; or a live grant of its author,
-- whose verified signature is on the certificate, unless the op is a rotation, which has none.
pub data Authority (ctx : Context) (t : Walk) (payload : ControlPayload) : Type 0 where
  by_root :
      is_root_signed payload ≡ true
      → IsSignedBy ctx.lib payload ctx.root_pk
      → Authority ctx t payload
  by_author :
      is_root_signed payload ≡ false
      → LiveWhere (admits 2) t.grants ctx.current_member.member_id
      → IsSignedBy ctx.lib payload ctx.current_member.sign_pk
        ⊎ (payload.control_type ≡ control_type_rotate)
      → Authority ctx t payload

pub decode_control_payload-eq-ok :
    (lib : Primitives) (bytes : Bytes) (index : ℕ) (payload : ControlPayload)
    → decode_control_payload lib bytes index ≡ ok payload
    → (inner : Bytes) × (payload_bytes_of bytes index ≡ ok inner) × (decode lib inner ≡ ok payload)
unfolding decode_control_payload
decode_control_payload-eq-ok lib bytes index payload h =
    let (inner, framed, h1) = >>=-eq-ok (payload_bytes_of bytes index) _ h in
    (inner, framed, ground arith)

authority_public_key-root :
    (ctx : Context) (authority : String) (header : OpHeader) (index : ℕ) (key : Bytes)
    → authority_public_key ctx authority header index ≡ ok key
    → str_eq authority granter_root ≡ true
    → key ≡ ctx.root_pk
unfolding authority_public_key
authority_public_key-root ctx authority header index key h root = ground arith

authority_public_key-author :
    (ctx : Context) (authority : String) (header : OpHeader) (index : ℕ) (key : Bytes)
    → authority_public_key ctx authority header index ≡ ok key
    → str_eq authority granter_root ≡ false
    → key ≡ ctx.current_member.sign_pk
unfolding authority_public_key
authority_public_key-author ctx authority header index key h foreign = ground arith

-- Of the types that name an authority, what claims to be signed by Root names it.
is_root_signed-authority :
    (payload : ControlPayload)
    → (str_eq payload.control_type control_type_member_register ≡ false)
    → (str_eq payload.control_type control_type_workspace_genesis ≡ false)
    → is_root_signed payload ≡ str_eq payload.authority granter_root
unfolding is_root_signed
is_root_signed-authority payload r g = rw (r, g) refl

-- The key of the authority, where the certificate verifies under it.
keyed-Authority :
    (ctx : Context) (index : ℕ) (op : ParsedOp) (t : Walk) (payload : ControlPayload) (key : Bytes)
    → Distinct t.grants
    → is_root_signed payload ≡ str_eq payload.authority granter_root
    → require_root_or_owner ctx index payload t ≡ ok tt
    → authority_public_key ctx payload.authority op.header index ≡ ok key
    → IsSignedBy ctx.lib payload key
    → Authority ctx t payload
unfolding require_root_or_owner
keyed-Authority ctx index op t payload key d claims gate found signed =
    elim (Bool-cases (str_eq payload.authority granter_root)) [
      | inl root ↦ by_root (claims ∙ root) (
          subst (IsSignedBy ctx.lib payload)
            (authority_public_key-root ctx payload.authority op.header index key found root) signed)
      | inr foreign ↦
          by_author (claims ∙ foreign)
            ((require_role_iff t.grants ctx.current_member.member_id 2 index d).0
              (ground (arith, claims, foreign)))
            (inl (
              subst (IsSignedBy ctx.lib payload)
                (authority_public_key-author ctx payload.authority op.header index key found
                  foreign)
                signed))
    ]

verify_grant-key :
    (ctx : Context) (payload : ControlPayload) (header : OpHeader) (index : ℕ) (grants : GrantIndex)
    → (staged_kinds : List (ℕ × String)) (is_replay : Bool) (certificate : GrantCertificate)
    → verify_grant ctx payload header index grants staged_kinds is_replay ≡ ok certificate
    → (key : Bytes) × (authority_public_key ctx payload.authority header index ≡ ok key)
      × (verify ctx.lib (grant_signing_input payload.cert_bytes) payload.signature key ≡ true)
unfolding verify_grant verify_grant_certificate
verify_grant-key ctx payload header index grants staged_kinds is_replay certificate h =
    elim (Result-cases (authority_public_key ctx payload.authority header index)) [
      | inr (e, raised) ↦ absurd (ground (arith, raised))
      | inl (key, found) ↦ (key, found, ground (arith, found))
    ]

verify_revoke-key :
    (ctx : Context) (payload : ControlPayload) (header : OpHeader) (index : ℕ) (grants : GrantIndex)
    → (is_replay : Bool) (certificate : RevokeCertificate)
    → verify_revoke ctx payload header index grants is_replay ≡ ok certificate
    → (key : Bytes) × (authority_public_key ctx payload.authority header index ≡ ok key)
      × (verify ctx.lib (revoke_signing_input payload.cert_bytes) payload.signature key ≡ true)
unfolding verify_revoke verify_revoke_certificate
verify_revoke-key ctx payload header index grants is_replay certificate h =
    elim (Result-cases (authority_public_key ctx payload.authority header index)) [
      | inr (e, raised) ↦ absurd (ground (arith, raised))
      | inl (key, found) ↦ (key, found, ground (arith, found))
    ]

is_type :
    (payload : ControlPayload) (t : String)
    → str_eq payload.control_type t ≡ true
    → payload.control_type ≡ t
is_type payload t h = (str_eq_iff payload.control_type t).0 h

pub ControlStep-Authority :
    (ctx : Context) (index : ℕ) (op : ParsedOp) (t u : Walk) (bytes : Bytes)
    (payload : ControlPayload)
    → Distinct t.grants
    → decode ctx.lib bytes ≡ ok payload
    → ControlStep ctx index op t payload u
    → Authority ctx t payload
ControlStep-Authority ctx index op t _ bytes payload d decoded (genesis_step c is_genesis v) =
    let verified : verify ctx.lib (genesis_signing_input payload.cert_bytes) payload.signature
          ctx.root_pk
        ≡ true =
      (verify_genesis-founds ctx payload op.header index t.workspace_exists c v).3 in
    by_root (unfold is_root_signed in ground arith)
      (genesis_signed (is_type payload control_type_workspace_genesis is_genesis) verified)
ControlStep-Authority ctx index op t _ bytes payload d decoded (register_step c is_register f v) =
    by_root (unfold is_root_signed in ground arith) (
      registration_signed (is_type payload control_type_member_register is_register)
        (unfold verify_member_register verify_registration_certificate in ground arith))
ControlStep-Authority ctx index op t _ bytes payload d decoded (grant_step c is_grant f a v) =
    let same = is_type payload control_type_grant is_grant in
    let (key, found, verified) =
      verify_grant-key ctx payload op.header index t.grants t.staged_kinds _ c v in
    keyed-Authority ctx index op t payload key d
      (is_root_signed-authority payload (rw same refl) (rw same refl)) a found
      (grant_signed same verified)
ControlStep-Authority ctx index op t _ bytes payload d decoded (revoke_step c is_revoke f a v) =
    let same = is_type payload control_type_revoke is_revoke in
    let (key, found, verified) = verify_revoke-key ctx payload op.header index t.grants _ c v in
    keyed-Authority ctx index op t payload key d
      (is_root_signed-authority payload (rw same refl) (rw same refl)) a found
      (revocation_signed same verified)
ControlStep-Authority ctx index op t _ bytes payload d decoded (rotate_step c is_rotate f a v) =
    let same = is_type payload control_type_rotate is_rotate in
    let unnamed : payload.authority ≡ "" =
      decode-rotate_authority ctx.lib bytes payload c decoded
        (unfold verify_rotate rotate_statement in ground arith) in
    let claims_none : is_root_signed payload ≡ false =
      is_root_signed-authority payload (rw same refl) (rw same refl) ∙ rw unnamed refl in
    by_author claims_none
      ((require_role_iff t.grants ctx.current_member.member_id 2 index d).0
        (unfold require_root_or_owner in ground (arith, claims_none)))
      (inr same)
