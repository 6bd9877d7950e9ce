-- ===== src/Authorize/Prunes.antt =====
-- `_verify_prune` of backend/app/sync/routes.py.
use jeeves.Common.{
  ℕ, Bool, not, ◌&&◌, ◌||◌, List, [], ◌∷◌, Option, ◌==◌, is_some, any, find, Result, ok, ◌>>=◌,
  ◌>>◌, raise_if, or_raise, catch_as,
}
use jeeves.Common.Bytes.{bytes_eq}
use jeeves.Codes.{Code}
use jeeves.Text.{uuid_text}
use jeeves.Envelope.{op_class_control, op_class_prune, op_class_compaction}
use jeeves.Envelope.Header.{OpHeader}
use jeeves.Envelope.Wire.{envelope_hash}
use jeeves.Store.{Op, HttpError, number, text, unprocessable}
use jeeves.Prune.{PruneTarget, prune_refusal, decode_prune}
use jeeves.Log.{ParsedOp, is_op}
use jeeves.Authorize.Certs.{Context, payload_bytes_of}

pub record PruneAdmission : Type 0 where
  pub index : ℕ
  pub targets : List PruneTarget
  pub is_replay : Bool

abbrev pub contains_number : List ℕ → ℕ → Bool
contains_number ns n = any (λ m. m == n) ns

-- A compaction of the author, staged earlier in the batch or stored.
unfoldable pub holds_compaction : Context → OpHeader → List ℕ → ℕ → Bool
holds_compaction ctx header staged_compactions op_id =
    contains_number staged_compactions op_id
    || any
        (λ (row : Op).
          is_op ctx.workspace_id header.author_member_id op_id row
          && row.op_class == op_class_compaction)
        ctx.db.ops

-- `rows.get(seq)`
unfoldable pub row_at : Context → ℕ → Option Op
row_at ctx seq =
    find (λ (row : Op). row.workspace_id == ctx.workspace_id && row.seq == seq) ctx.db.ops

abbrev refuse_target_if : Bool → Code → ℕ → ℕ → Result HttpError (Unit {0})
refuse_target_if c code index seq =
    raise_if c (unprocessable code (number "index" index ∷ number "seq" seq ∷ []))

-- One turn of the loop over the targets.
unfoldable pub check_target :
    Context → ℕ → ℕ → List ℕ → Bool → PruneTarget → Result HttpError (Unit {0})
unfolding row_at
check_target ctx index compaction_op_id claimed_seqs is_replay target = do
  row ← or_raise (row_at ctx target.seq) (
      unprocessable Code.prune_target_not_found
        (number "index" index ∷ number "seq" target.seq ∷ []))
  refuse_target_if (row.op_class == op_class_control) Code.prune_target_is_control index target.seq
  refuse_target_if (row.op_class == op_class_prune) Code.prune_target_is_prune index target.seq
  refuse_target_if
      (not (row.author_member_id == target.author_member_id)
        || (not (row.author_seq == target.author_seq)
            || not (bytes_eq (envelope_hash ctx.lib row.envelope) target.envelope_hash)))
      Code.prune_target_attestation_mismatch index target.seq
  refuse_target_if (is_some row.compacted_by && not is_replay) Code.prune_target_already_compacted
      index target.seq
  refuse_target_if (contains_number claimed_seqs target.seq && not is_replay)
      Code.prune_target_already_compacted index target.seq
  refuse_target_if (row.op_id == compaction_op_id) Code.prune_target_is_its_own_compaction index
      target.seq

unfoldable pub check_targets :
    Context → ℕ → ℕ → List ℕ → Bool → List PruneTarget → Result HttpError (Unit {0})
check_targets ctx index compaction_op_id claimed_seqs is_replay [] = ok tt
check_targets ctx index compaction_op_id claimed_seqs is_replay (target ∷ targets) = do
  check_target ctx index compaction_op_id claimed_seqs is_replay target
  check_targets ctx index compaction_op_id claimed_seqs is_replay targets

-- `_verify_prune`
unfoldable pub verify_prune :
    Context → ParsedOp → ℕ → List ℕ → List ℕ → Bool → Result HttpError PruneAdmission
verify_prune ctx op index staged_compactions claimed_seqs is_replay = do
  payload_bytes ← payload_bytes_of op.envelope index
  payload ← catch_as (prune_refusal index) (decode_prune ctx.lib payload_bytes)
  raise_if (not (holds_compaction ctx op.header staged_compactions payload.compaction_op_id)) (
      unprocessable Code.prune_compaction_not_found
        (number "index" index ∷ text "compaction_op_id" (uuid_text payload.compaction_op_id) ∷ []))
  check_targets ctx index payload.compaction_op_id claimed_seqs is_replay payload.targets
  ok (record { index = index; targets = payload.targets; is_replay = is_replay })
