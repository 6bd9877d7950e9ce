-- ===== src/Tests/Requests.antt =====
-- One request, from its body to the database it leaves.
use jeeves.Common.{ℕ, ◌≡◌, refl, ok, true, false, [], ◌∷◌, none, length}
use jeeves.Store.{Db}
use jeeves.Log.{insert_op}
use jeeves.Log.Chain.{IsLog}
use jeeves.Post.{Interleaving, parse_ops, post_ops, posted}
use jeeves.Post.Parsing.{AllPostable, parse_ops-AllPostable}
use jeeves.Post.Safety.{IsSound, post_ops-IsLog}
use jeeves.Tests.Samples.{world, db, member, content_op_21}
use jeeves.Tests.Batches.{db-IsLog, db-Behind, fresh_result}

op_parsed : parse_ops world 7 member 0 ("op" ∷ []) ≡ ok (content_op_21 ∷ [])
unfolding parse_ops jeeves.Post.parse_op jeeves.Post.parse_served jeeves.Envelope.Header.parse
    jeeves.Envelope.Header.packed jeeves.Envelope.Fields.join jeeves.Envelope.Header.packed_fields
    jeeves.Common.Bytes.to_be jeeves.Envelope.Header.header_of_fields
    jeeves.Envelope.Fields.split_fields jeeves.Envelope.Framing.minimum_envelope_bytes_for_suite
    jeeves.Common.Bytes.from_be jeeves.Envelope.Wire.check_served
op_parsed = refl

parse_ops-AllPostable_example :
    (length (content_op_21 ∷ []) ≡ 1) × AllPostable 7 member (content_op_21 ∷ [])
parse_ops-AllPostable_example =
    parse_ops-AllPostable world 7 member 0 ("op" ∷ []) (content_op_21 ∷ []) op_parsed

-- Nobody else writes meanwhile.
abbrev alone : Interleaving
alone = record {
  authorizing = db;
  reading = db;
  inserting = db;
  reading_again = db;
  inserting_again = db;
  commit_conflict = none;
}

alone-IsSound : IsSound alone 7
alone-IsSound = record {
  authorizing = db-IsLog;
  behind = db-Behind;
  inserting = db-IsLog;
  behind_again = db-Behind;
  inserting_again = db-IsLog;
}

abbrev db_after : Db
db_after = insert_op 7 content_op_21 db

op_posted :
    post_ops world alone 8 7 member ("op" ∷ []) ≡ ok (posted db_after (fresh_result ∷ []) [] true)
unfolding jeeves.Post.parse_served jeeves.Post.parse_op jeeves.Post.parse_ops jeeves.Post.retried
    jeeves.Post.append_with_retry jeeves.Post.genesis_index jeeves.Post.resolve_commit_conflict
    jeeves.Post.commit jeeves.Post.store_batch jeeves.Post.post_parsed jeeves.Post.post_ops
    jeeves.Materialise.chain_member jeeves.Materialise.is_grant jeeves.Materialise.stamp_grant
    jeeves.Materialise.stamp_revocation jeeves.Materialise.newly_revoked
    jeeves.Materialise.materialise_op jeeves.Materialise.materialise_result
    jeeves.Materialise.materialise_all jeeves.Materialise.materialise_control
    jeeves.Materialise.is_prunable jeeves.Materialise.stamp_ops jeeves.Materialise.stamped_count
    jeeves.Materialise.stamp_prune jeeves.Materialise.prune_result
    jeeves.Materialise.materialise_prunes jeeves.Ids.default_workspace_id
    jeeves.Ids.user_preferences_workspace_id jeeves.Ids.is_derivable
    jeeves.Ids.require_derivable_workspace jeeves.Authorize.Walk.admit_genesis
    jeeves.Authorize.Walk.admit_register jeeves.Authorize.Walk.admit_grant
    jeeves.Authorize.Walk.admit_revoke jeeves.Authorize.Walk.admit_rotate
    jeeves.Authorize.Walk.admit_prune jeeves.Authorize.Walk.stage_body
    jeeves.Authorize.Walk.walk_content jeeves.Authorize.Walk.walk_genesis
    jeeves.Authorize.Walk.walk_register jeeves.Authorize.Walk.walk_grant
    jeeves.Authorize.Walk.walk_revoke jeeves.Authorize.Walk.walk_rotate
    jeeves.Authorize.Walk.walk_by_type jeeves.Authorize.Walk.require_root_or_owner
    jeeves.Authorize.Walk.walk_payload jeeves.Authorize.Walk.walk_control
    jeeves.Authorize.Walk.walk_op jeeves.Authorize.Walk.walk jeeves.Authorize.Walk.max_epoch
    jeeves.Authorize.Walk.current_key_epoch jeeves.Authorize.Walk.ids_of_author
    jeeves.Authorize.Walk.context jeeves.Authorize.Walk.start_walk
    jeeves.Authorize.Walk.verify_and_authorize jeeves.Authorize.Certs.payload_bytes_of
    jeeves.Authorize.Certs.decode_control_payload jeeves.Authorize.Certs.require_fresh_key_epoch
    jeeves.Authorize.Certs.authority_public_key jeeves.Authorize.Certs.verify_genesis
    jeeves.Authorize.Certs.verify_member_register jeeves.Authorize.Certs.staged_kind
    jeeves.Authorize.Certs.materialised_kind jeeves.Authorize.Certs.grantee_kind
    jeeves.Authorize.Certs.require_grantee jeeves.Authorize.Certs.verify_grant
    jeeves.Authorize.Certs.verify_revoke jeeves.Authorize.Certs.verify_rotate
    jeeves.Grants.role_op_class_matrix jeeves.Grants.state jeeves.Grants.put_state
    jeeves.Grants.index_of_rows jeeves.Grants.rows_of_workspace jeeves.Grants.grant_index
    jeeves.Grants.live_roles jeeves.Grants.has_any_grant jeeves.Grants.is_revoked jeeves.Grants.add
    jeeves.Grants.revoke jeeves.Grants.require_role jeeves.Grants.revocations
    jeeves.Grants.refuse_if_revoked jeeves.Log.op_row jeeves.Log.is_by jeeves.Log.is_op
    jeeves.Log.existing_seq jeeves.Log.max_author_seq jeeves.Log.staged_position jeeves.Log.planned
    jeeves.Log.stage_new jeeves.Log.stage jeeves.Log.stage_all jeeves.Log.start jeeves.Log.violates
    jeeves.Log.insert_op jeeves.Log.insert_ops jeeves.Log.entry_seq jeeves.Log.results_of
    jeeves.Log.flush jeeves.Log.insert_staging jeeves.Log.append_batch jeeves.Log.is_served
    jeeves.Log.insert_by_seq jeeves.Log.order_by_seq jeeves.Log.page_of jeeves.Log.select_page
    jeeves.Envelope.Header.packed_fields jeeves.Envelope.Header.packed
    jeeves.Envelope.Header.fits_struct jeeves.Envelope.Header.serialize
    jeeves.Envelope.Header.header_of_fields jeeves.Envelope.Header.parse jeeves.Envelope.Fields.join
    jeeves.Envelope.Fields.split_fields jeeves.Envelope.Framing.minimum_envelope_bytes_for_suite
    jeeves.Envelope.Framing.first_class jeeves.Envelope.Framing.padded_body_length
    jeeves.Envelope.Framing.is_legal_body_length
    jeeves.Envelope.Framing.is_legal_body_length_for_suite jeeves.Envelope.Framing.frame_body
    jeeves.Envelope.Framing.parse_body jeeves.Envelope.Wire.derive_key_id
    jeeves.Envelope.Wire.signing_input jeeves.Envelope.Wire.build_envelope
    jeeves.Envelope.Wire.split_envelope jeeves.Envelope.Wire.raise_verdict
    jeeves.Envelope.Wire.verify_envelope jeeves.Envelope.Wire.envelope_hash
    jeeves.Envelope.Wire.check_served jeeves.Envelope.Wire.check_suite_at_keyed_epoch
    jeeves.Common.Bytes.to_be jeeves.Common.Bytes.from_be
op_posted = refl

post_ops-IsLog_example : IsLog db_after.ops db_after.next_seq
post_ops-IsLog_example =
    post_ops-IsLog world alone 8 7 member ("op" ∷ []) db_after (fresh_result ∷ []) [] true
      alone-IsSound op_posted
