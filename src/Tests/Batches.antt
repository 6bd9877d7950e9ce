-- ===== src/Tests/Batches.antt =====
-- Batches, pages and stamps over a small database.
use jeeves.Common.{
  ℕ, zero, suc, ◌+◌, ◌≤◌, ◌≡◌, ◌⊎◌, ◌++◌, refl, arith, ok, true, false, [], ◌∷◌, List, some, Bool,
  length, ltb, keep_if, get_elem?, ◌==◌,
}
use jeeves.Common.Bytes.{zeros}
use jeeves.Store.{Db}
use jeeves.Envelope.{op_class_control}
use jeeves.Control.Payload.{ControlPayload, is_root_signed}
use jeeves.Log.{
  ParsedOp, op_row, OpResult, appended, append_batch, insert_op, is_served, select_page,
}
use jeeves.Log.Chain.{IsLog}
use jeeves.Log.Append.{Behind, append_batch-IsLog}
use jeeves.Log.Pages.{last_seq, select_page-rest, select_page-has_more}
use jeeves.Authorize.Certs.{decode_control_payload}
use jeeves.Authorize.Prunes.{PruneAdmission}
use jeeves.Authorize.Walk.{
  Walk, ControlAdmission, revoked, context, start_walk, admit_grant, admit_rotate, walk,
  verify_and_authorize,
}
use jeeves.Authorize.Signers.{Authority}
use jeeves.Authorize.Admission.{
  Authorized, verify_and_authorize-Authorized, verify_and_authorize-owner,
}
use jeeves.Authorize.Epochs.{rotations, epoch_of, walk-epoch}
use jeeves.Materialise.{materialise_control, materialise_prunes}
use jeeves.Materialise.Stamps.{Keeps, materialise_control-keeps_revoked, materialise_prunes-Keeps}
use jeeves.Tests.Samples.{
  world, db, member, revoked_row, stored_op, content_op_21, owner_op, rotate_op, owner_certificate,
  revoke_certificate, rotate,
}

-- The states that the walks below end in.
content_admitted :
    verify_and_authorize world db 7 member (content_op_21 ∷ []) ≡ ok (start_walk db 7)
unfolding verify_and_authorize jeeves.Authorize.Walk.walk_op jeeves.Authorize.Walk.walk_content
    jeeves.Grants.require_role jeeves.Grants.live_roles jeeves.Grants.grant_index
    jeeves.Grants.role_op_class_matrix jeeves.Authorize.Certs.require_fresh_key_epoch
    jeeves.Authorize.Walk.stage_body
content_admitted = refl

owner_admitted :
    verify_and_authorize world db 7 member (owner_op ∷ [])
    ≡ ok (admit_grant (start_walk db 7) 0 owner_certificate)
unfolding jeeves.Authorize.Walk.admit_genesis jeeves.Authorize.Walk.admit_register
    jeeves.Authorize.Walk.admit_grant jeeves.Authorize.Walk.admit_revoke
    jeeves.Authorize.Walk.admit_rotate jeeves.Authorize.Walk.admit_prune
    jeeves.Authorize.Walk.stage_body jeeves.Authorize.Walk.walk_content
    jeeves.Authorize.Walk.walk_genesis jeeves.Authorize.Walk.walk_register
    jeeves.Authorize.Walk.walk_grant jeeves.Authorize.Walk.walk_revoke
    jeeves.Authorize.Walk.walk_rotate jeeves.Authorize.Walk.walk_by_type
    jeeves.Authorize.Walk.require_root_or_owner jeeves.Authorize.Walk.walk_payload
    jeeves.Authorize.Walk.walk_control jeeves.Authorize.Walk.walk_op jeeves.Authorize.Walk.walk
    jeeves.Authorize.Walk.max_epoch jeeves.Authorize.Walk.current_key_epoch
    jeeves.Authorize.Walk.ids_of_author jeeves.Authorize.Walk.context
    jeeves.Authorize.Walk.start_walk jeeves.Authorize.Walk.verify_and_authorize
    jeeves.Authorize.Certs.payload_bytes_of jeeves.Authorize.Certs.decode_control_payload
    jeeves.Authorize.Certs.require_fresh_key_epoch jeeves.Authorize.Certs.authority_public_key
    jeeves.Authorize.Certs.verify_genesis jeeves.Authorize.Certs.verify_member_register
    jeeves.Authorize.Certs.staged_kind jeeves.Authorize.Certs.materialised_kind
    jeeves.Authorize.Certs.grantee_kind jeeves.Authorize.Certs.require_grantee
    jeeves.Authorize.Certs.verify_grant jeeves.Authorize.Certs.verify_revoke
    jeeves.Authorize.Certs.verify_rotate jeeves.Control.Payload.is_root_signed
    jeeves.Control.Payload.authority_of_field jeeves.Control.Payload.decode_certified
    jeeves.Control.Payload.decode_rotate jeeves.Control.Payload.decode_by_type
    jeeves.Control.Payload.decode jeeves.Control.Payload.require_served_type
    jeeves.Control.Payload.require_chain_link_shape jeeves.Control.Payload.rotate_statement
    jeeves.Control.Certificates.key_id_of jeeves.Control.Certificates.member_keys_of_fields
    jeeves.Control.Certificates.member_keys_of_json jeeves.Control.Certificates.require_object
    jeeves.Control.Certificates.decode_cert_json jeeves.Control.Certificates.decode_registration
    jeeves.Control.Certificates.decode_genesis jeeves.Control.Certificates.as_registration
    jeeves.Control.Certificates.require_known_role jeeves.Control.Certificates.decode_grant
    jeeves.Control.Certificates.decode_revoke jeeves.Control.Certificates.require_int
    jeeves.Control.Certificates.require_epoch jeeves.Control.Certificates.rotate_of_fields
    jeeves.Control.Errors.control_refusal jeeves.Control.Errors.require_text
    jeeves.Control.Errors.require_base64 jeeves.Control.Errors.require_key
    jeeves.Control.Errors.require_canonical_uuid jeeves.Control.Errors.require_authority
    jeeves.Control.Errors.decode_hlc jeeves.Control.Signatures.registration_signing_input
    jeeves.Control.Signatures.genesis_signing_input jeeves.Control.Signatures.grant_signing_input
    jeeves.Control.Signatures.revoke_signing_input jeeves.Control.Signatures.is_verified
    jeeves.Control.Signatures.verify jeeves.Control.Signatures.verify_registration_certificate
    jeeves.Control.Signatures.verify_genesis_certificate
    jeeves.Control.Signatures.verify_grant_certificate
    jeeves.Control.Signatures.verify_revoke_certificate
    jeeves.Envelope.Framing.minimum_envelope_bytes_for_suite jeeves.Envelope.Framing.first_class
    jeeves.Envelope.Framing.padded_body_length jeeves.Envelope.Framing.is_legal_body_length
    jeeves.Envelope.Framing.is_legal_body_length_for_suite jeeves.Envelope.Framing.frame_body
    jeeves.Envelope.Framing.parse_body jeeves.Envelope.Wire.derive_key_id
    jeeves.Envelope.Wire.signing_input jeeves.Envelope.Wire.build_envelope
    jeeves.Envelope.Wire.split_envelope jeeves.Envelope.Wire.raise_verdict
    jeeves.Envelope.Wire.verify_envelope jeeves.Envelope.Wire.envelope_hash
    jeeves.Envelope.Wire.check_served jeeves.Envelope.Wire.check_suite_at_keyed_epoch
    jeeves.Json.get jeeves.Text.is_hex jeeves.Text.hex_value jeeves.Text.after_hex
    jeeves.Text.at_end jeeves.Text.ends_after jeeves.Text.matches_hex jeeves.Text.matches_groups
    jeeves.Text.matches_canonical_uuid jeeves.Text.pair_up jeeves.Text.from_hex
    jeeves.Text.hex_number jeeves.Text.uuid_of_text jeeves.Text.nibbles jeeves.Text.char_at
    jeeves.Text.write_hex jeeves.Text.uuid_text jeeves.Grants.role_op_class_matrix
    jeeves.Grants.state jeeves.Grants.put_state jeeves.Grants.index_of_rows
    jeeves.Grants.rows_of_workspace jeeves.Grants.grant_index jeeves.Grants.live_roles
    jeeves.Grants.has_any_grant jeeves.Grants.is_revoked jeeves.Grants.add jeeves.Grants.revoke
    jeeves.Grants.require_role jeeves.Grants.revocations jeeves.Grants.refuse_if_revoked
    jeeves.Envelope.Header.packed jeeves.Envelope.Fields.join jeeves.Envelope.Header.packed_fields
    jeeves.Common.Bytes.to_be jeeves.Common.Bytes.from_be jeeves.Ids.user_preferences_workspace_id
    jeeves.Log.is_op
owner_admitted = refl

rotate_admitted :
    walk (context world db 7 member) 0 (rotate_op ∷ []) (start_walk db 7)
    ≡ ok (admit_rotate (start_walk db 7) 0 rotate)
unfolding jeeves.Authorize.Walk.admit_genesis jeeves.Authorize.Walk.admit_register
    jeeves.Authorize.Walk.admit_grant jeeves.Authorize.Walk.admit_revoke
    jeeves.Authorize.Walk.admit_rotate jeeves.Authorize.Walk.admit_prune
    jeeves.Authorize.Walk.stage_body jeeves.Authorize.Walk.walk_content
    jeeves.Authorize.Walk.walk_genesis jeeves.Authorize.Walk.walk_register
    jeeves.Authorize.Walk.walk_grant jeeves.Authorize.Walk.walk_revoke
    jeeves.Authorize.Walk.walk_rotate jeeves.Authorize.Walk.walk_by_type
    jeeves.Authorize.Walk.require_root_or_owner jeeves.Authorize.Walk.walk_payload
    jeeves.Authorize.Walk.walk_control jeeves.Authorize.Walk.walk_op jeeves.Authorize.Walk.walk
    jeeves.Authorize.Walk.max_epoch jeeves.Authorize.Walk.current_key_epoch
    jeeves.Authorize.Walk.ids_of_author jeeves.Authorize.Walk.context
    jeeves.Authorize.Walk.start_walk jeeves.Authorize.Walk.verify_and_authorize
    jeeves.Authorize.Certs.payload_bytes_of jeeves.Authorize.Certs.decode_control_payload
    jeeves.Authorize.Certs.require_fresh_key_epoch jeeves.Authorize.Certs.authority_public_key
    jeeves.Authorize.Certs.verify_genesis jeeves.Authorize.Certs.verify_member_register
    jeeves.Authorize.Certs.staged_kind jeeves.Authorize.Certs.materialised_kind
    jeeves.Authorize.Certs.grantee_kind jeeves.Authorize.Certs.require_grantee
    jeeves.Authorize.Certs.verify_grant jeeves.Authorize.Certs.verify_revoke
    jeeves.Authorize.Certs.verify_rotate jeeves.Control.Payload.is_root_signed
    jeeves.Control.Payload.authority_of_field jeeves.Control.Payload.decode_certified
    jeeves.Control.Payload.decode_rotate jeeves.Control.Payload.decode_by_type
    jeeves.Control.Payload.decode jeeves.Control.Payload.require_served_type
    jeeves.Control.Payload.require_chain_link_shape jeeves.Control.Payload.rotate_statement
    jeeves.Control.Certificates.key_id_of jeeves.Control.Certificates.member_keys_of_fields
    jeeves.Control.Certificates.member_keys_of_json jeeves.Control.Certificates.require_object
    jeeves.Control.Certificates.decode_cert_json jeeves.Control.Certificates.decode_registration
    jeeves.Control.Certificates.decode_genesis jeeves.Control.Certificates.as_registration
    jeeves.Control.Certificates.require_known_role jeeves.Control.Certificates.decode_grant
    jeeves.Control.Certificates.decode_revoke jeeves.Control.Certificates.require_int
    jeeves.Control.Certificates.require_epoch jeeves.Control.Certificates.rotate_of_fields
    jeeves.Control.Errors.control_refusal jeeves.Control.Errors.require_text
    jeeves.Control.Errors.require_base64 jeeves.Control.Errors.require_key
    jeeves.Control.Errors.require_canonical_uuid jeeves.Control.Errors.require_authority
    jeeves.Control.Errors.decode_hlc jeeves.Control.Signatures.registration_signing_input
    jeeves.Control.Signatures.genesis_signing_input jeeves.Control.Signatures.grant_signing_input
    jeeves.Control.Signatures.revoke_signing_input jeeves.Control.Signatures.is_verified
    jeeves.Control.Signatures.verify jeeves.Control.Signatures.verify_registration_certificate
    jeeves.Control.Signatures.verify_genesis_certificate
    jeeves.Control.Signatures.verify_grant_certificate
    jeeves.Control.Signatures.verify_revoke_certificate
    jeeves.Envelope.Framing.minimum_envelope_bytes_for_suite jeeves.Envelope.Framing.first_class
    jeeves.Envelope.Framing.padded_body_length jeeves.Envelope.Framing.is_legal_body_length
    jeeves.Envelope.Framing.is_legal_body_length_for_suite jeeves.Envelope.Framing.frame_body
    jeeves.Envelope.Framing.parse_body jeeves.Envelope.Wire.derive_key_id
    jeeves.Envelope.Wire.signing_input jeeves.Envelope.Wire.build_envelope
    jeeves.Envelope.Wire.split_envelope jeeves.Envelope.Wire.raise_verdict
    jeeves.Envelope.Wire.verify_envelope jeeves.Envelope.Wire.envelope_hash
    jeeves.Envelope.Wire.check_served jeeves.Envelope.Wire.check_suite_at_keyed_epoch
    jeeves.Json.get jeeves.Text.is_hex jeeves.Text.hex_value jeeves.Text.after_hex
    jeeves.Text.at_end jeeves.Text.ends_after jeeves.Text.matches_hex jeeves.Text.matches_groups
    jeeves.Text.matches_canonical_uuid jeeves.Text.pair_up jeeves.Text.from_hex
    jeeves.Text.hex_number jeeves.Text.uuid_of_text jeeves.Text.nibbles jeeves.Text.char_at
    jeeves.Text.write_hex jeeves.Text.uuid_text jeeves.Grants.role_op_class_matrix
    jeeves.Grants.state jeeves.Grants.put_state jeeves.Grants.index_of_rows
    jeeves.Grants.rows_of_workspace jeeves.Grants.grant_index jeeves.Grants.live_roles
    jeeves.Grants.has_any_grant jeeves.Grants.is_revoked jeeves.Grants.add jeeves.Grants.revoke
    jeeves.Grants.require_role jeeves.Grants.revocations jeeves.Grants.refuse_if_revoked
    jeeves.Envelope.Header.packed jeeves.Envelope.Fields.join jeeves.Envelope.Header.packed_fields
    jeeves.Common.Bytes.to_be jeeves.Common.Bytes.from_be
rotate_admitted = refl

verify_and_authorize-Authorized_example :
    (t : Walk) × (verify_and_authorize world db 7 member [] ≡ ok t)
    × Authorized (context world db 7 member) content_op_21 t
verify_and_authorize-Authorized_example =
    verify_and_authorize-Authorized world db 7 member [] [] content_op_21 (start_walk db 7) refl
      content_admitted

verify_and_authorize-owner_example :
    (t : Walk) × (verify_and_authorize world db 7 member [] ≡ ok t)
    × (payload : ControlPayload) × (decode_control_payload world owner_op.envelope 0 ≡ ok payload)
    × Authority (context world db 7 member) t payload
verify_and_authorize-owner_example =
    verify_and_authorize-owner world db 7 member [] [] owner_op
      (admit_grant (start_walk db 7) 0 owner_certificate) refl owner_admitted

walk-epoch_example :
    epoch_of (admit_rotate (start_walk db 7) 0 rotate) + rotations (start_walk db 7).control
    ≡ epoch_of (start_walk db 7) + rotations (admit_rotate (start_walk db 7) 0 rotate).control
walk-epoch_example =
    walk-epoch (context world db 7 member) 0 (rotate_op ∷ []) (start_walk db 7)
      (admit_rotate (start_walk db 7) 0 rotate) rotate_admitted

pub db-IsLog : IsLog db.ops 5
db-IsLog = record {
  chains = λ w a. unfold jeeves.Log.Chain.chain jeeves.Log.is_by in ground arith;
  no_repeat = (refl, tt);
  ascends = (ground arith, ground arith);
}

pub db-Behind : Behind db.ops db.ops 7
db-Behind a =
    unfold jeeves.Log.Chain.chain jeeves.Log.is_by jeeves.Log.max_author_seq in ground arith

abbrev pub fresh_result : OpResult
fresh_result = record { op_id = 21; seq = 5; duplicate = false }

content_appended :
    append_batch db db 7 (content_op_21 ∷ [])
    ≡ appended (insert_op 7 content_op_21 db) (fresh_result ∷ [])
unfolding append_batch jeeves.Log.stage_all jeeves.Log.stage jeeves.Log.existing_seq
    jeeves.Log.is_op jeeves.Log.staged_position jeeves.Log.start jeeves.Log.max_author_seq
    jeeves.Log.flush jeeves.Log.insert_ops jeeves.Log.stage_new jeeves.Log.violates op_row
    jeeves.Log.results_of
content_appended = refl

append_batch-IsLog_example :
    IsLog (insert_op 7 content_op_21 db).ops (insert_op 7 content_op_21 db).next_seq
append_batch-IsLog_example =
    append_batch-IsLog db db (insert_op 7 content_op_21 db) 7 (content_op_21 ∷ [])
      (fresh_result ∷ []) db-Behind db-IsLog content_appended

select_page-rest_example :
    keep_if (is_served 7 0 false) (stored_op ∷ [])
    ≡ (select_page (stored_op ∷ []) 7 0 1 false).rows
      ++ keep_if
          (is_served 7 (last_seq 0 (select_page (stored_op ∷ []) 7 0 1 false).rows) false)
          (stored_op ∷ [])
select_page-rest_example = select_page-rest (stored_op ∷ []) 5 7 0 1 false db-IsLog

select_page-has_more_example :
    (select_page (stored_op ∷ []) 7 0 1 false).has_more
    ≡ ltb 0 (
        length (
          keep_if
            (is_served 7 (last_seq 0 (select_page (stored_op ∷ []) 7 0 1 false).rows) false)
            (stored_op ∷ [])))
select_page-has_more_example = select_page-has_more (stored_op ∷ []) 5 7 0 1 false db-IsLog

abbrev revocations_of_9 : List ControlAdmission
revocations_of_9 =
    record { index = 0; admitted = revoked (record revoke_certificate { grant_id = 9 }) } ∷ []

materialise_control-keeps_revoked_example :
    get_elem? (materialise_control 8 7 revocations_of_9 (fresh_result ∷ []) db).0.grants 1
    ≡ some revoked_row
materialise_control-keeps_revoked_example =
    materialise_control-keeps_revoked 8 7 revocations_of_9 (fresh_result ∷ []) db 1 revoked_row 4
      refl refl

abbrev prune_of_3 : PruneAdmission
prune_of_3 = record {
  index = 0;
  targets = record { seq = 3; author_member_id = 6; author_seq = 1; envelope_hash = zeros 4 } ∷ [];
  is_replay = false;
}

abbrev pruned_db : Db
pruned_db = record db { ops = record stored_op { compacted_by = some 5 } ∷ [] }

op_3_pruned : materialise_prunes 7 (prune_of_3 ∷ []) (fresh_result ∷ []) db ≡ ok pruned_db
unfolding materialise_prunes jeeves.Materialise.prune_result jeeves.Materialise.stamp_prune
op_3_pruned = refl

materialise_prunes-Keeps_example : Keeps db pruned_db
materialise_prunes-Keeps_example =
    materialise_prunes-Keeps 7 (prune_of_3 ∷ []) (fresh_result ∷ []) db pruned_db op_3_pruned
