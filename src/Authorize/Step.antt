-- ===== src/Authorize/Step.antt =====
-- The ways in which a turn of the walk over a batch goes well.
use jeeves.Common.{
  ℕ, ◌≡◌, inl, inr, arith, subst, true, false, str_eq, ◌==◌, ok, >>=-eq-ok, ok-injective,
  Bool-cases,
}
use jeeves.Grants.{require_role}
use jeeves.Envelope.{op_class_control}
use jeeves.Control.Certificates.{
  RegistrationCertificate, GenesisCertificate, GrantCertificate, RevokeCertificate, RotateStatement,
  as_registration,
}
use jeeves.Control.Payload.{
  ControlPayload, control_type_member_register, control_type_workspace_genesis, control_type_grant,
  control_type_revoke, control_type_rotate,
}
use jeeves.Log.{ParsedOp}
use jeeves.Authorize.Certs.{
  Context, decode_control_payload, require_fresh_key_epoch, verify_genesis, verify_member_register,
  verify_grant, verify_revoke, verify_rotate,
}
use jeeves.Authorize.Walk.{
  Walk, is_replayed, admit_genesis, admit_register, admit_grant, admit_revoke, admit_rotate,
  stage_body, walk_content, walk_genesis, walk_register, walk_grant, walk_revoke, walk_rotate,
  walk_by_type, require_root_or_owner, walk_payload, walk_control, walk_op,
}

-- An op that goes by its class alone: what was asked of it, and what it staged.
pub record ContentStep (ctx : Context) (index : ℕ) (op : ParsedOp) (s s' : Walk) : Type 0 where
  pub founded : s.workspace_exists ≡ true
  pub role : require_role s.grants ctx.current_member.member_id op.header.op_class index ≡ ok tt
  pub epoch : require_fresh_key_epoch op.header s.current_epoch index ≡ ok tt
  pub staged : stage_body ctx index op s ≡ ok s'

-- A control op, by what its payload was verified as.
pub data ControlStep (ctx : Context) (index : ℕ) (op : ParsedOp) (s : Walk)
    (payload : ControlPayload) : Walk → Type 0 where
  genesis_step :
      (certificate : GenesisCertificate)
      → str_eq payload.control_type control_type_workspace_genesis ≡ true
      → verify_genesis ctx payload op.header index s.workspace_exists ≡ ok certificate
      → ControlStep ctx index op s payload (admit_genesis s index (as_registration certificate))
  register_step :
      (certificate : RegistrationCertificate)
      → str_eq payload.control_type control_type_member_register ≡ true
      → s.workspace_exists ≡ true
      → verify_member_register ctx payload op.header index ≡ ok certificate
      → ControlStep ctx index op s payload (admit_register s index certificate)
  grant_step :
      (certificate : GrantCertificate)
      → str_eq payload.control_type control_type_grant ≡ true
      → s.workspace_exists ≡ true
      → require_root_or_owner ctx index payload s ≡ ok tt
      → verify_grant ctx payload op.header index s.grants s.staged_kinds (is_replayed ctx op)
        ≡ ok certificate
      → ControlStep ctx index op s payload (admit_grant s index certificate)
  revoke_step :
      (certificate : RevokeCertificate)
      → str_eq payload.control_type control_type_revoke ≡ true
      → s.workspace_exists ≡ true
      → require_root_or_owner ctx index payload s ≡ ok tt
      → verify_revoke ctx payload op.header index s.grants (is_replayed ctx op) ≡ ok certificate
      → ControlStep ctx index op s payload (admit_revoke s index certificate)
  rotate_step :
      (rotate : RotateStatement)
      → str_eq payload.control_type control_type_rotate ≡ true
      → s.workspace_exists ≡ true
      → require_root_or_owner ctx index payload s ≡ ok tt
      → verify_rotate ctx payload op.header index s.current_epoch ≡ ok rotate
      → ControlStep ctx index op s payload (admit_rotate s index rotate)

pub data Step (ctx : Context) (index : ℕ) (op : ParsedOp) (s s' : Walk) : Type 0 where
  content_op :
      (op.header.op_class == op_class_control) ≡ false
      → ContentStep ctx index op s s'
      → Step ctx index op s s'
  control_op :
      (payload : ControlPayload)
      → (op.header.op_class == op_class_control) ≡ true
      → decode_control_payload ctx.lib op.envelope index ≡ ok payload
      → ControlStep ctx index op s payload s'
      → Step ctx index op s s'

walk_content-ContentStep :
    (ctx : Context) (index : ℕ) (op : ParsedOp) (s s' : Walk)
    → walk_content ctx index op s ≡ ok s'
    → ContentStep ctx index op s s'
unfolding walk_content
walk_content-ContentStep ctx index op s s' h = record {
  founded = ground arith;
  role = ground arith;
  epoch = ground arith;
  staged = ground arith;
}

walk_by_type-ControlStep :
    (ctx : Context) (index : ℕ) (op : ParsedOp) (payload : ControlPayload) (s s' : Walk)
    → s.workspace_exists ≡ true
    → require_root_or_owner ctx index payload s ≡ ok tt
    → walk_by_type ctx index op payload s ≡ ok s'
    → ControlStep ctx index op s payload s'
unfolding walk_by_type walk_register walk_grant walk_revoke walk_rotate
walk_by_type-ControlStep ctx index op payload s s' founded authority h =
    elim (Bool-cases (str_eq payload.control_type control_type_member_register)) [
      | inl is_register ↦
          let (c, verified, e) =
            >>=-eq-ok (verify_member_register ctx payload op.header index) _
              (rw is_register at h) in
          subst (ControlStep ctx index op s payload) (ok-injective e)
            (register_step c is_register founded verified)
      | inr not_register ↦ elim (Bool-cases (str_eq payload.control_type control_type_grant)) [
        | inl is_grant ↦
            let (c, verified, e) =
              >>=-eq-ok
                (verify_grant ctx payload op.header index s.grants s.staged_kinds
                  (is_replayed ctx op))
                _ (rw (not_register, is_grant) at h) in
            subst (ControlStep ctx index op s payload) (ok-injective e)
              (grant_step c is_grant founded authority verified)
        | inr not_grant ↦ elim (Bool-cases (str_eq payload.control_type control_type_revoke)) [
          | inl is_revoke ↦
              let (c, verified, e) =
                >>=-eq-ok (verify_revoke ctx payload op.header index s.grants (is_replayed ctx op))
                  _ (rw (not_register, not_grant, is_revoke) at h) in
              subst (ControlStep ctx index op s payload) (ok-injective e)
                (revoke_step c is_revoke founded authority verified)
          | inr not_revoke ↦ elim (Bool-cases (str_eq payload.control_type control_type_rotate)) [
            | inl is_rotate ↦
                let (c, verified, e) =
                  >>=-eq-ok (verify_rotate ctx payload op.header index s.current_epoch) _
                    (rw (not_register, not_grant, not_revoke, is_rotate) at h) in
                subst (ControlStep ctx index op s payload) (ok-injective e)
                  (rotate_step c is_rotate founded authority verified)
            | inr not_rotate ↦ cc (rw (not_register, not_grant, not_revoke, not_rotate) at h)
          ]
        ]
      ]
    ]

walk_payload-ControlStep :
    (ctx : Context) (index : ℕ) (op : ParsedOp) (payload : ControlPayload) (s s' : Walk)
    → walk_payload ctx index op payload s ≡ ok s'
    → ControlStep ctx index op s payload s'
unfolding walk_payload walk_genesis
walk_payload-ControlStep ctx index op payload s s' h =
    elim (Bool-cases (str_eq payload.control_type control_type_workspace_genesis)) [
      | inl is_genesis ↦
          let (c, verified, e) =
            >>=-eq-ok (verify_genesis ctx payload op.header index s.workspace_exists) _
              (rw is_genesis at h) in
          subst (ControlStep ctx index op s payload) (ok-injective e)
            (genesis_step c is_genesis verified)
      | inr not_genesis ↦
          walk_by_type-ControlStep ctx index op payload s s' (ground arith) (ground arith)
            (ground arith)
    ]

-- Every turn that goes well is one of these.
pub walk_op-Step :
    (ctx : Context) (index : ℕ) (op : ParsedOp) (s s' : Walk)
    → walk_op ctx index op s ≡ ok s'
    → Step ctx index op s s'
unfolding walk_op walk_control
walk_op-Step ctx index op s s' h = elim (Bool-cases (op.header.op_class == op_class_control)) [
  | inr content ↦ content_op content (walk_content-ContentStep ctx index op s s' (rw content at h))
  | inl control ↦
      let (payload, decoded, h1) =
        >>=-eq-ok (decode_control_payload ctx.lib op.envelope index) _ (rw control at h) in
      control_op payload control decoded
        (walk_payload-ControlStep ctx index op payload s s' (ground arith))
]
