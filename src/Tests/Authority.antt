-- ===== src/Tests/Authority.antt =====
-- The checks of certificates, at a grant, a revocation, a genesis and a rotation.
use jeeves.Common.{◌≡◌, ◌⊎◌, refl, ok, true, false, [], ◌∷◌, some, none, ◌↔◌}
use jeeves.Common.Bytes.{Bytes, codes}
use jeeves.Control.Errors.{granter_root}
use jeeves.Control.Payload.{
  ControlPayload, decode, require_chain_link_shape, zero_prev_control_hash,
}
use jeeves.Control.Certificates.{decode_grant}
use jeeves.Control.Signatures.{
  verify, grant_signing_input, revoke_signing_input, genesis_signing_input,
}
use jeeves.Grants.{GrantIndex, GrantState, state, role_owner, require_role}
use jeeves.Grants.Laws.{LiveWhere, admits, require_role_iff}
use jeeves.Ids.{is_derivable}
use jeeves.Text.{uuid_text}
use jeeves.Authorize.Certs.{
  Context, verify_grant, verify_revoke, verify_genesis, verify_rotate, require_fresh_key_epoch,
}
use jeeves.Authorize.Replays.{verify_grant-replay_revives}
use jeeves.Grants.{add}
use jeeves.Authorize.Ceilings.{
  verify_grant-owner, verify_revoke-owner, verify_grant-signed, verify_genesis-founds,
  require_fresh_key_epoch_iff, InWindow,
}
use jeeves.Tests.Samples.{
  world, context_5, control_header, content_header, owner_certificate, revoke_certificate,
  genesis_certificate, rotate, payload_of, signature, key,
}

abbrev grant_payload : ControlPayload
grant_payload = payload_of "grant" (codes "grant-cert")

abbrev revoke_payload : ControlPayload
revoke_payload = payload_of "revoke" (codes "revoke-cert")

abbrev genesis_payload : ControlPayload
genesis_payload = payload_of "workspace_genesis" (codes "genesis-cert")

abbrev rotate_payload : ControlPayload
rotate_payload = record {
  control_type = "rotate";
  prev_control_hash =
      codes
        "\u{11}\u{11}\u{11}\u{11}\u{11}\u{11}\u{11}\u{11}\u{11}\u{11}\u{11}\u{11}\u{11}\u{11}\u{11}\u{11}\u{11}\u{11}\u{11}\u{11}\u{11}\u{11}\u{11}\u{11}\u{11}\u{11}\u{11}\u{11}\u{11}\u{11}\u{11}\u{11}";
  cert_bytes = [];
  signature = [];
  authority = "";
  rotate = some rotate;
}

abbrev index : GrantIndex
index = (1, record { member_id = 5; role = "owner"; revoked = false }) ∷ []

accepted_grant :
    verify_grant context_5 grant_payload control_header 0 [] [] false ≡ ok owner_certificate
unfolding verify_grant decode_grant jeeves.Control.Certificates.decode_cert_json
    jeeves.Control.Certificates.require_known_role jeeves.Json.get
    jeeves.Control.Errors.require_authority jeeves.Control.Errors.require_canonical_uuid
    jeeves.Text.matches_canonical_uuid jeeves.Text.uuid_of_text jeeves.Control.Errors.decode_hlc
    jeeves.Text.matches_hex jeeves.Authorize.Certs.authority_public_key
    jeeves.Control.Signatures.verify_grant_certificate verify jeeves.Authorize.Certs.require_grantee
    jeeves.Authorize.Certs.grantee_kind state jeeves.Authorize.Certs.materialised_kind
    jeeves.Authorize.Certs.staged_kind jeeves.Control.Certificates.require_object
    jeeves.Control.Errors.control_refusal jeeves.Control.Errors.require_text grant_signing_input
    jeeves.Control.Signatures.is_verified jeeves.Text.after_hex jeeves.Text.at_end
    jeeves.Text.char_at jeeves.Text.ends_after jeeves.Text.hex_number jeeves.Text.hex_value
    jeeves.Text.is_hex jeeves.Text.matches_groups jeeves.Text.nibbles uuid_text
    jeeves.Text.write_hex
accepted_grant = refl

accepted_revoke :
    verify_revoke context_5 revoke_payload control_header 0 index false ≡ ok revoke_certificate
unfolding verify_revoke jeeves.Control.Certificates.decode_revoke
    jeeves.Control.Certificates.decode_cert_json jeeves.Control.Errors.require_canonical_uuid
    jeeves.Json.get jeeves.Text.matches_canonical_uuid jeeves.Text.uuid_of_text
    jeeves.Control.Errors.require_authority jeeves.Control.Errors.decode_hlc jeeves.Text.matches_hex
    jeeves.Authorize.Certs.authority_public_key jeeves.Control.Signatures.verify_revoke_certificate
    verify state
accepted_revoke = refl

accepted_genesis :
    verify_genesis context_5 genesis_payload control_header 0 false ≡ ok genesis_certificate
unfolding verify_genesis jeeves.Ids.require_derivable_workspace is_derivable
    jeeves.Control.Signatures.verify_genesis_certificate verify
    jeeves.Control.Certificates.decode_genesis jeeves.Control.Certificates.decode_cert_json
    jeeves.Control.Errors.require_canonical_uuid jeeves.Json.get jeeves.Text.matches_canonical_uuid
    jeeves.Text.uuid_of_text jeeves.Control.Errors.require_key
    jeeves.Control.Certificates.member_keys_of_json jeeves.Control.Errors.decode_hlc
    jeeves.Text.matches_hex
accepted_genesis = refl

accepted_rotate : verify_rotate context_5 rotate_payload control_header 0 none ≡ ok rotate
unfolding verify_rotate jeeves.Control.Payload.rotate_statement
accepted_rotate = refl

decoded_rotate : decode world (codes "rotate") ≡ ok rotate_payload
unfolding decode jeeves.Control.Certificates.decode_cert_json jeeves.Control.Errors.require_text
    jeeves.Json.get jeeves.Text.matches_hex jeeves.Control.Payload.decode_by_type
    jeeves.Control.Payload.decode_rotate jeeves.Control.Certificates.rotate_of_fields
    jeeves.Control.Certificates.require_int jeeves.Control.Certificates.require_epoch
    jeeves.Control.Errors.require_base64 jeeves.Control.Errors.require_canonical_uuid
    jeeves.Text.matches_canonical_uuid jeeves.Text.uuid_of_text jeeves.Control.Errors.decode_hlc
    jeeves.Text.from_hex
decoded_rotate = refl

decoded_grant : decode_grant world (codes "grant-cert") ≡ ok owner_certificate
unfolding decode_grant jeeves.Control.Certificates.decode_cert_json
    jeeves.Control.Certificates.require_known_role jeeves.Json.get
    jeeves.Control.Errors.require_authority jeeves.Control.Errors.require_canonical_uuid
    jeeves.Text.matches_canonical_uuid jeeves.Text.uuid_of_text jeeves.Control.Errors.decode_hlc
    jeeves.Text.matches_hex
decoded_grant = refl

found_grant : state index 1 ≡ some (record { member_id = 5; role = "owner"; revoked = false })
unfolding state
found_grant = refl

verify_grant-owner_example :
    (verify world (grant_signing_input (codes "grant-cert")) signature key ≡ true)
    × (decode_grant world (codes "grant-cert") ≡ ok owner_certificate)
    × (owner_certificate.workspace_id ≡ context_5.workspace_id)
verify_grant-owner_example =
    verify_grant-owner context_5 grant_payload control_header 0 [] [] false owner_certificate
      accepted_grant refl

verify_revoke-owner_example :
    (target : GrantState) × (state index 1 ≡ some target)
    × (target.role ≡ role_owner
        → verify world (revoke_signing_input (codes "revoke-cert")) signature key ≡ true)
verify_revoke-owner_example =
    verify_revoke-owner context_5 revoke_payload control_header 0 index false revoke_certificate
      accepted_revoke

verify_grant-signed_example :
    (k : Bytes) × (verify world (grant_signing_input (codes "grant-cert")) signature k ≡ true)
    × (((owner_certificate.granter ≡ granter_root) × (k ≡ key))
        ⊎ ((owner_certificate.granter ≡ uuid_text 5) × (k ≡ key)))
verify_grant-signed_example =
    verify_grant-signed context_5 grant_payload control_header 0 [] [] false owner_certificate
      accepted_grant

verify_genesis-founds_example :
    (false ≡ false)
    × (is_derivable world 7 "user" ≡ true)
    × (control_header.author_seq ≡ 1)
    × (verify world (genesis_signing_input (codes "genesis-cert")) signature key ≡ true)
    × (genesis_certificate.workspace_id ≡ context_5.workspace_id)
    × (genesis_certificate.founder.member_id ≡ control_header.author_member_id)
    × (key ≡ key)
verify_genesis-founds_example =
    verify_genesis-founds context_5 genesis_payload control_header 0 false genesis_certificate
      accepted_genesis

require_fresh_key_epoch_iff_example :
    (require_fresh_key_epoch content_header (some 1) 0 ≡ ok tt) ↔ InWindow 0 (some 1)
require_fresh_key_epoch_iff_example = require_fresh_key_epoch_iff content_header (some 1) 0

require_role_iff_example : (require_role index 5 2 0 ≡ ok tt) ↔ LiveWhere (admits 2) index 5
unfolding state
require_role_iff_example = require_role_iff index 5 2 0 (found_none, tt)
  where
    found_none : state [] 1 ≡ none
    found_none = refl

abbrev revoked_index : GrantIndex
revoked_index = (1, record { member_id = 5; role = "owner"; revoked = true }) ∷ []

replayed_grant :
    verify_grant context_5 grant_payload control_header 0 [] [] true ≡ ok owner_certificate
unfolding verify_grant decode_grant jeeves.Control.Certificates.decode_cert_json
    jeeves.Control.Certificates.require_known_role jeeves.Json.get
    jeeves.Control.Errors.require_authority jeeves.Control.Errors.require_canonical_uuid
    jeeves.Text.matches_canonical_uuid jeeves.Text.uuid_of_text jeeves.Control.Errors.decode_hlc
    jeeves.Text.matches_hex jeeves.Authorize.Certs.authority_public_key
    jeeves.Control.Signatures.verify_grant_certificate verify jeeves.Authorize.Certs.require_grantee
    jeeves.Authorize.Certs.grantee_kind state jeeves.Authorize.Certs.materialised_kind
    jeeves.Authorize.Certs.staged_kind jeeves.Control.Certificates.require_object
    jeeves.Control.Errors.control_refusal jeeves.Control.Errors.require_text grant_signing_input
    jeeves.Control.Signatures.is_verified jeeves.Text.after_hex jeeves.Text.at_end
    jeeves.Text.char_at jeeves.Text.ends_after jeeves.Text.hex_number jeeves.Text.hex_value
    jeeves.Text.is_hex jeeves.Text.matches_groups jeeves.Text.nibbles uuid_text
    jeeves.Text.write_hex
replayed_grant = refl

verify_grant-replay_revives_example :
    (verify_grant context_5 grant_payload control_header 0 revoked_index [] true
      ≡ ok owner_certificate)
    × (state (add revoked_index 1 5 "owner") 1
        ≡ some (record { member_id = 5; role = "owner"; revoked = false }))
verify_grant-replay_revives_example =
    verify_grant-replay_revives context_5 grant_payload control_header 0 [] revoked_index []
      owner_certificate replayed_grant
