-- ===== src/Authorize/Certs.antt =====
-- The certificate checks of backend/app/sync/routes.py.
use jeeves.Common.{
  ℕ, ◌-◌, Bool, not, ◌&&◌, ◌||◌, List, [], ◌∷◌, Option, some, none, String, str_eq, ◌==◌, ltb,
  is_some, option_or, if◌then◌else◌, Result, ok, err, ◌>>=◌, ◌>>◌, raise_if, or_raise, catch_as,
}
use jeeves.Common.Bytes.{Bytes, bytes_eq}
use jeeves.Codes.{Code}
use jeeves.Crypto.{Primitives}
use jeeves.Text.{uuid_text}
use jeeves.Envelope.{EnvelopeError, reason}
use jeeves.Envelope.Header.{OpHeader}
use jeeves.Envelope.Framing.{parse_body}
use jeeves.Envelope.Wire.{split_envelope}
use jeeves.Store.{Db, Member, HttpError, number, unprocessable, conflict, get_member}
use jeeves.Grants.{GrantIndex, state, role_owner}
use jeeves.Ids.{require_derivable_workspace}
use jeeves.Control.Errors.{control_refusal, granter_root}
use jeeves.Control.Certificates.{
  RegistrationCertificate, GenesisCertificate, GrantCertificate, RevokeCertificate, RotateStatement,
  decode_registration, decode_genesis, decode_grant, decode_revoke,
}
use jeeves.Control.Payload.{
  ControlPayload, decode, require_served_type, rotate_statement, zero_prev_control_hash,
}
use jeeves.Control.Signatures.{
  verify_registration_certificate, verify_genesis_certificate, verify_grant_certificate,
  verify_revoke_certificate,
}

-- What the walk over one batch reads and never changes.
pub record Context : Type 0 where
  pub lib : Primitives
  pub db : Db
  pub workspace_id : ℕ
  pub current_member : Member
  pub root_pk : Bytes
  pub is_preferences : Bool
  pub replayed_op_ids : List ℕ

-- `raise _unprocessable(code, index=index)`, unless the condition is false.
abbrev pub refuse_if : Bool → Code → ℕ → Result HttpError (Unit {0})
refuse_if c code index = raise_if c (unprocessable code (number "index" index ∷ []))

abbrev pub framing_refusal : ℕ → EnvelopeError → HttpError
framing_refusal index e = unprocessable (reason e) (number "index" index ∷ [])

-- An `EnvelopeError` outside every `try`.
abbrev pub uncaught_envelope_error : EnvelopeError → HttpError
uncaught_envelope_error e = record { status = 500; code = Code.internal_error; detail = [] }

-- `split_envelope` and `parse_body`, the opening of both paths that read a body.
unfoldable pub payload_bytes_of : Bytes → ℕ → Result HttpError Bytes
payload_bytes_of envelope index = do
  parts ← catch_as uncaught_envelope_error (split_envelope envelope)
  catch_as (framing_refusal index) (parse_body parts.body)

-- `_decode_control_payload`
unfoldable pub decode_control_payload : Primitives → Bytes → ℕ → Result HttpError ControlPayload
decode_control_payload lib envelope index = do
  payload_bytes ← payload_bytes_of envelope index
  payload ← catch_as (control_refusal index) (decode lib payload_bytes)
  catch_as (control_refusal index) (require_served_type payload)
  ok payload

-- `_require_fresh_key_epoch`
unfoldable pub require_fresh_key_epoch : OpHeader → Option ℕ → ℕ → Result HttpError (Unit {0})
require_fresh_key_epoch header none index = ok tt
require_fresh_key_epoch header (some current_epoch) index =
    let fields =
      number "index" index
      ∷ number "key_epoch" header.key_epoch
      ∷ number "current_epoch" current_epoch
      ∷ [] in
    if ltb header.key_epoch (current_epoch - 1)
    then err (conflict Code.key_epoch_stale fields)
    else if ltb current_epoch header.key_epoch
    then err (conflict Code.key_epoch_unknown fields)
    else ok tt

-- `_authority_public_key`
unfoldable pub authority_public_key : Context → String → OpHeader → ℕ → Result HttpError Bytes
authority_public_key ctx authority header index =
    if str_eq authority granter_root
    then ok ctx.root_pk
    else if not (str_eq (uuid_text header.author_member_id) authority)
    then err (unprocessable Code.cert_granter_mismatch (number "index" index ∷ []))
    else ok ctx.current_member.sign_pk

-- `_verify_genesis`
unfoldable pub verify_genesis :
    Context → ControlPayload → OpHeader → ℕ → Bool → Result HttpError GenesisCertificate
verify_genesis ctx payload header index workspace_exists = do
  raise_if (not (index == 0) || workspace_exists)
      (conflict Code.genesis_not_first (number "index" index ∷ []))
  require_derivable_workspace ctx.lib ctx.workspace_id ctx.current_member.user_id
      (number "index" index ∷ [])
  raise_if (not (header.author_seq == 1)) (
      unprocessable Code.member_register_not_first
        (number "index" index ∷ number "author_seq" header.author_seq ∷ []))
  refuse_if (not (bytes_eq payload.prev_control_hash zero_prev_control_hash))
      Code.control_chain_break index
  catch_as (control_refusal index)
      (verify_genesis_certificate ctx.lib payload.cert_bytes payload.signature ctx.root_pk)
  certificate ← catch_as (control_refusal index) (decode_genesis ctx.lib payload.cert_bytes)
  refuse_if (not (certificate.workspace_id == ctx.workspace_id)) Code.cert_workspace_mismatch index
  refuse_if (not (bytes_eq certificate.root_pk ctx.root_pk)) Code.cert_root_pk_mismatch index
  refuse_if (not (certificate.founder.member_id == header.author_member_id))
      Code.cert_member_mismatch index
  refuse_if (not (bytes_eq certificate.founder.sign_pk ctx.current_member.sign_pk))
      Code.cert_key_mismatch index
  ok certificate

-- `_verify_member_register`
unfoldable pub verify_member_register :
    Context → ControlPayload → OpHeader → ℕ → Result HttpError RegistrationCertificate
verify_member_register ctx payload header index = do
  raise_if (not (header.author_seq == 1)) (
      unprocessable Code.member_register_not_first
        (number "index" index ∷ number "author_seq" header.author_seq ∷ []))
  catch_as (control_refusal index)
      (verify_registration_certificate ctx.lib payload.cert_bytes payload.signature ctx.root_pk)
  certificate ← catch_as (control_refusal index) (decode_registration ctx.lib payload.cert_bytes)
  refuse_if (not (certificate.workspace_id == ctx.workspace_id)) Code.cert_workspace_mismatch index
  refuse_if (not (certificate.member_id == header.author_member_id)) Code.cert_member_mismatch index
  refuse_if (not (bytes_eq certificate.sign_pk ctx.current_member.sign_pk)) Code.cert_key_mismatch
      index
  ok certificate

-- The kind of a grantee: staged in the batch, or materialised on its row.
abbrev member_kind_device : String
member_kind_device = "device"

unfoldable pub staged_kind : List (ℕ × String) → ℕ → Option String
staged_kind [] member_id = none
staged_kind ((k, kind) ∷ rest) member_id =
    if k == member_id then some kind else staged_kind rest member_id

unfoldable pub materialised_kind : Member → Option String
materialised_kind grantee =
    if is_some grantee.chained_at
    then some (
        let kind = option_or grantee.member_kind "" in
        if str_eq kind "" then member_kind_device else kind)
    else none

unfoldable pub grantee_kind : List (ℕ × String) → Member → Option String
unfolding staged_kind materialised_kind
grantee_kind staged_kinds grantee = elim (staged_kind staged_kinds grantee.member_id) [
  | some kind ↦ some kind
  | none ↦ materialised_kind grantee
]

unfoldable pub require_grantee : Context → ℕ → ℕ → Result HttpError Member
require_grantee ctx member_id index = do
  let unknown = unprocessable Code.unknown_grantee (number "index" index ∷ [])
  grantee ← or_raise (get_member ctx.db member_id) unknown
  raise_if (not (str_eq grantee.user_id ctx.current_member.user_id)) unknown
  ok grantee

-- `_verify_grant`
unfoldable pub verify_grant :
    Context
    → ControlPayload
    → OpHeader
    → ℕ
    → GrantIndex
    → List (ℕ × String)
    → Bool
    → Result HttpError GrantCertificate
verify_grant ctx payload header index grants staged_kinds is_replay = do
  certificate ← catch_as (control_refusal index) (decode_grant ctx.lib payload.cert_bytes)
  refuse_if (not (certificate.workspace_id == ctx.workspace_id)) Code.cert_workspace_mismatch index
  refuse_if (not (str_eq certificate.granter payload.authority)) Code.cert_granter_mismatch index
  granter_pk ← authority_public_key ctx payload.authority header index
  catch_as (control_refusal index)
      (verify_grant_certificate ctx.lib payload.cert_bytes payload.signature granter_pk)
  refuse_if (str_eq certificate.role role_owner && not (str_eq payload.authority granter_root))
      Code.owner_grant_requires_root index
  grantee ← require_grantee ctx certificate.member_id index
  member_kind ←
      or_raise (grantee_kind staged_kinds grantee)
        (unprocessable Code.unknown_grantee (number "index" index ∷ []))
  refuse_if (ctx.is_preferences && not (str_eq member_kind member_kind_device))
      Code.service_grant_forbidden index
  raise_if (not is_replay && is_some (state grants certificate.grant_id))
      (conflict Code.grant_id_already_used (number "index" index ∷ []))
  ok certificate

-- `_verify_revoke`
unfoldable pub verify_revoke :
    Context → ControlPayload → OpHeader → ℕ → GrantIndex → Bool → Result HttpError RevokeCertificate
verify_revoke ctx payload header index grants is_replay = do
  certificate ← catch_as (control_refusal index) (decode_revoke ctx.lib payload.cert_bytes)
  refuse_if (not (certificate.workspace_id == ctx.workspace_id)) Code.cert_workspace_mismatch index
  refuse_if (not (str_eq certificate.revoker payload.authority)) Code.cert_granter_mismatch index
  revoker_pk ← authority_public_key ctx payload.authority header index
  catch_as (control_refusal index)
      (verify_revoke_certificate ctx.lib payload.cert_bytes payload.signature revoker_pk)
  target ←
      or_raise (state grants certificate.grant_id)
        (unprocessable Code.unknown_grant (number "index" index ∷ []))
  refuse_if (target.revoked && not is_replay) Code.already_revoked index
  refuse_if (str_eq target.role role_owner && not (str_eq payload.authority granter_root))
      Code.owner_revoke_requires_root index
  ok certificate

-- `_verify_rotate`
unfoldable pub verify_rotate :
    Context → ControlPayload → OpHeader → ℕ → Option ℕ → Result HttpError RotateStatement
verify_rotate ctx payload header index current_epoch = do
  rotate ← catch_as (control_refusal index) (rotate_statement payload)
  refuse_if (not (rotate.workspace_id == ctx.workspace_id)) Code.cert_workspace_mismatch index
  let expected_from = option_or current_epoch 0
  raise_if (not (rotate.from_epoch == expected_from)) (
      conflict Code.rotate_epoch_conflict (
        number "index" index
        ∷ number "from_epoch" rotate.from_epoch
        ∷ number "expected_from_epoch" expected_from
        ∷ []))
  ok rotate
