-- ===== src/Codes.antt =====
-- The machine codes that backend/app/sync raises: the `reason` of the codecs' exceptions and the
-- `code` of the routes' structured details, spelled as they are there.
pub data Code : Type 0 where
  malformed_envelope truncated_envelope envelope_too_short unsupported_suite : Code
  unsupported_op_class invalid_body_length payload_overruns_body non_zero_padding : Code
  bad_signature workspace_mismatch encrypted_control_op encrypted_prune_op : Code
  plaintext_at_encrypted_epoch aead_failure : Code
  malformed_control_payload unsupported_control_type bad_root_signature : Code
  bad_grant_signature bad_revoke_signature unknown_role control_chain_break : Code
  owner_grant_requires_root : Code
  malformed_prune_payload prune_targets_empty prune_duplicate_target : Code
  prune_targets_too_many : Code
  workspace_not_derivable no_live_grant role_forbids_op_class : Code
  workspace_not_created key_epoch_stale key_epoch_unknown rotate_epoch_conflict : Code
  genesis_not_first member_register_not_first cert_workspace_mismatch : Code
  cert_root_pk_mismatch cert_member_mismatch cert_key_mismatch : Code
  cert_granter_mismatch unknown_grantee service_grant_forbidden : Code
  grant_id_already_used unknown_grant already_revoked owner_revoke_requires_root : Code
  prune_compaction_not_found prune_target_not_found prune_target_is_control : Code
  prune_target_is_prune prune_target_attestation_mismatch : Code
  prune_target_already_compacted prune_target_is_its_own_compaction : Code
  author_chain_conflict author_member_mismatch batch_too_large malformed_base64 : Code
  malformed_sign_pk malformed_kex_pk malformed_key_id : Code
  key_id_not_derived_from_sign_pk member_id_already_registered : Code
  malformed_escrow_blob malformed_escrow_signature malformed_root_pk : Code
  malformed_escrow_version bad_escrow_signature escrow_version_regression : Code
  no_recovery_escrow escrow_fetch_rate_limited : Code
  malformed_key_epoch keywrap_requires_owner malformed_escrow_wrap malformed_keywrap : Code
  malformed_kex_key_id unknown_keywrap_member kex_key_id_not_registered : Code
  duplicate_keywrap_member missing_keywrap_digest malformed_keywrap_digest : Code
  keywrap_digest_mismatch rotate_not_materialised keywrap_already_written : Code
  unknown_member member_challenge_rate_limited bad_member_challenge invalid_refresh_token : Code
  -- Details that are a sentence.
  could_not_validate_credentials incorrect_email_or_password : Code
  invalid_or_expired_refresh_token email_already_registered : Code
  -- An exception of Python's own that no handler catches: the framework answers 500.
  internal_error : Code
