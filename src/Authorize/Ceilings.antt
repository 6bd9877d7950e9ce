-- ===== src/Authorize/Ceilings.antt =====
-- What the certificate checks guarantee.
use jeeves.Common.{
  ℕ, suc, ◌+◌, ◌≤◌, ◌≡◌, ◌↔◌, ◌⊎◌, inl, inr, refl, sym, ◌∙◌, Result-cases, ap, arith, Bool, true,
  false, List, Option, some, none, String, str_eq, str_eq_iff, option_or, ok, ok-injective,
  Bool-cases, Option-cases,
}
use jeeves.Text.{uuid_text}
use jeeves.Common.Bytes.{Bytes, bytes_eq_sound}
use jeeves.Envelope.Header.{OpHeader}
use jeeves.Grants.{GrantIndex, GrantState, state, role_owner}
use jeeves.Control.Errors.{granter_root}
use jeeves.Control.Certificates.{
  GrantCertificate, RevokeCertificate, RotateStatement, GenesisCertificate, decode_grant,
}
use jeeves.Control.Payload.{ControlPayload, decode, rotate_statement}
use jeeves.Control.Laws.{decode-rotate_step}
use jeeves.Ids.{is_derivable, require_derivable_workspace}
use jeeves.Control.Signatures.{
  verify, genesis_signing_input, grant_signing_input, revoke_signing_input,
  verify_grant_certificate, verify_genesis_certificate, verify_revoke_certificate,
}
use jeeves.Authorize.Certs.{
  Context, require_fresh_key_epoch, verify_genesis, verify_grant, verify_revoke, verify_rotate,
  authority_public_key,
}

-- The op's key epoch is the Workspace's current one or the one before it, where the Workspace is keyed.
abbrev pub InWindow : ℕ → Option ℕ → Type 0
InWindow key_epoch none = Unit
InWindow key_epoch (some current_epoch) =
    (current_epoch ≤ key_epoch + 1) × (key_epoch ≤ current_epoch)

-- The epoch check passes exactly the current epoch and the one before it, and every epoch where the
-- Workspace is unkeyed.
pub require_fresh_key_epoch_iff :
    (header : OpHeader) (current_epoch : Option ℕ) (index : ℕ)
    → (require_fresh_key_epoch header current_epoch index ≡ ok tt)
      ↔ InWindow header.key_epoch current_epoch
unfolding require_fresh_key_epoch
require_fresh_key_epoch_iff header none index = (λ _. tt, λ _. refl)
require_fresh_key_epoch_iff header (some current_epoch) index =
    (λ h. ground arith, λ h. ground arith)

-- Whose key a certificate of an authority must verify under: Root's for "root", else the author's,
-- whom the authority then names.
pub authority_public_key-eq-ok :
    (ctx : Context) (authority : String) (header : OpHeader) (index : ℕ) (key : Bytes)
    → authority_public_key ctx authority header index ≡ ok key
    → ((authority ≡ granter_root) × (key ≡ ctx.root_pk))
      ⊎ ((authority ≡ uuid_text header.author_member_id) × (key ≡ ctx.current_member.sign_pk))
unfolding authority_public_key
authority_public_key-eq-ok ctx authority header index key h =
    elim (Bool-cases (str_eq authority granter_root)) [
      | inl root ↦
          inl ((str_eq_iff authority granter_root).0 root, ok-injective (sym (rw root at h)))
      | inr other ↦ elim (Bool-cases (str_eq (uuid_text header.author_member_id) authority)) [
        | inl same ↦ inr (
          sym ((str_eq_iff (uuid_text header.author_member_id) authority).0 same),
          ok-injective (sym (rw (other, same) at h)),
        )
        | inr foreign ↦ cc (rw (other, foreign) at h)
      ]
    ]

-- A grant of the owner role passes only under Root's signature over the bytes that its certificate
-- is decoded from, and the certificate names this Workspace.
pub verify_grant-owner :
    (ctx : Context) (payload : ControlPayload) (header : OpHeader) (index : ℕ) (grants : GrantIndex)
    → (staged_kinds : List (ℕ × String)) (is_replay : Bool) (certificate : GrantCertificate)
    → verify_grant ctx payload header index grants staged_kinds is_replay ≡ ok certificate
    → certificate.role ≡ role_owner
    → (verify ctx.lib (grant_signing_input payload.cert_bytes) payload.signature ctx.root_pk ≡ true)
      × (decode_grant ctx.lib payload.cert_bytes ≡ ok certificate)
      × (certificate.workspace_id ≡ ctx.workspace_id)
unfolding verify_grant verify_grant_certificate authority_public_key
verify_grant-owner ctx payload header index grants staged_kinds is_replay certificate h owner =
    let is_owner = (str_eq_iff certificate.role role_owner).1 owner in
    (ground (arith, is_owner), ground arith, ground arith)

-- A revocation passes only where the grant it names is known, and one of an owner grant only under
-- Root's signature over the certificate.
pub verify_revoke-owner :
    (ctx : Context) (payload : ControlPayload) (header : OpHeader) (index : ℕ) (grants : GrantIndex)
    → (is_replay : Bool) (certificate : RevokeCertificate)
    → verify_revoke ctx payload header index grants is_replay ≡ ok certificate
    → (target : GrantState) × (state grants certificate.grant_id ≡ some target)
      × (target.role ≡ role_owner
          → verify ctx.lib (revoke_signing_input payload.cert_bytes) payload.signature ctx.root_pk
            ≡ true)
unfolding verify_revoke verify_revoke_certificate authority_public_key
verify_revoke-owner ctx payload header index grants is_replay certificate h =
    elim (Option-cases (state grants certificate.grant_id)) [
      | inl unknown ↦ absurd (ground (arith, unknown))
      | inr (target, known) ↦
          (target, known, λ owner. ground (arith, (str_eq_iff target.role role_owner).1 owner))
    ]

-- A grant that is no replay takes an id that no grant in the index has.
pub verify_grant-fresh :
    (ctx : Context) (payload : ControlPayload) (header : OpHeader) (index : ℕ) (grants : GrantIndex)
    → (staged_kinds : List (ℕ × String)) (certificate : GrantCertificate)
    → verify_grant ctx payload header index grants staged_kinds false ≡ ok certificate
    → state grants certificate.grant_id ≡ none
unfolding verify_grant
verify_grant-fresh ctx payload header index grants staged_kinds certificate h = ground arith

-- The certificate that a grant stands on is signed by Root, or by the op's author, whom it then
-- names as its granter.
pub verify_grant-signed :
    (ctx : Context) (payload : ControlPayload) (header : OpHeader) (index : ℕ) (grants : GrantIndex)
    → (staged_kinds : List (ℕ × String)) (is_replay : Bool) (certificate : GrantCertificate)
    → verify_grant ctx payload header index grants staged_kinds is_replay ≡ ok certificate
    → (key : Bytes) × (verify ctx.lib (grant_signing_input payload.cert_bytes) payload.signature key
        ≡ true)
      × (((certificate.granter ≡ granter_root) × (key ≡ ctx.root_pk))
          ⊎ ((certificate.granter ≡ uuid_text header.author_member_id)
              × (key ≡ ctx.current_member.sign_pk)))
unfolding verify_grant verify_grant_certificate
verify_grant-signed ctx payload header index grants staged_kinds is_replay certificate h =
    elim (Result-cases (authority_public_key ctx payload.authority header index)) [
      | inr (e, raised) ↦ absurd (ground (arith, raised))
      | inl (key, found) ↦
          let same : certificate.granter ≡ payload.authority =
            (str_eq_iff certificate.granter payload.authority).0 (ground (arith, found)) in
          (
            key,
            ground (arith, found),
            rw (same) (authority_public_key-eq-ok ctx payload.authority header index key found),
          )
    ]

-- What a genesis that passes has been held to: it founds a Workspace that its author derives and
-- that was not founded before, and the founder that Root signed is the author, under the signing
-- key that the author registered.
pub verify_genesis-founds :
    (ctx : Context) (payload : ControlPayload) (header : OpHeader) (index : ℕ)
    → (workspace_exists : Bool) (certificate : GenesisCertificate)
    → verify_genesis ctx payload header index workspace_exists ≡ ok certificate
    → (workspace_exists ≡ false)
      × (is_derivable ctx.lib ctx.workspace_id ctx.current_member.user_id ≡ true)
      × (header.author_seq ≡ 1)
      × (verify ctx.lib (genesis_signing_input payload.cert_bytes) payload.signature ctx.root_pk
          ≡ true)
      × (certificate.workspace_id ≡ ctx.workspace_id)
      × (certificate.founder.member_id ≡ header.author_member_id)
      × (certificate.founder.sign_pk ≡ ctx.current_member.sign_pk)
unfolding verify_genesis require_derivable_workspace verify_genesis_certificate
verify_genesis-founds ctx payload header index workspace_exists certificate h = (
  ground arith,
  ground arith,
  ground arith,
  ground arith,
  ground arith,
  ground arith,
  bytes_eq_sound certificate.founder.sign_pk ctx.current_member.sign_pk (ground arith),
)

-- A rotation that passes, of a payload that was decoded, ends at the epoch after the current one,
-- which counts as 0 where there is none.
pub verify_rotate-next :
    (ctx : Context) (bytes : Bytes) (payload : ControlPayload) (header : OpHeader) (index : ℕ)
    → (current_epoch : Option ℕ) (rotate : RotateStatement) → decode ctx.lib bytes ≡ ok payload
    → verify_rotate ctx payload header index current_epoch ≡ ok rotate
    → rotate.to_epoch ≡ suc (option_or current_epoch 0)
unfolding verify_rotate rotate_statement
verify_rotate-next ctx bytes payload header index current_epoch rotate decoded h =
    let carried : payload.rotate ≡ some rotate = ground arith in
    let from : rotate.from_epoch ≡ option_or current_epoch 0 = ground arith in
    decode-rotate_step ctx.lib bytes payload rotate decoded carried ∙ ap suc from
