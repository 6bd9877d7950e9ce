-- ===== src/Materialise.antt =====
-- What a batch writes besides its ops, once they have transport seqs: `_materialise_control` and
-- `_materialise_prunes` of backend/app/sync/routes.py.
pub mod Stamps
use jeeves.Common.{
  ℕ, ◌+◌, Bool, true, false, not, ◌&&◌, List, [], ◌∷◌, ◌++◌, Option, none, some, String, ◌==◌,
  is_some, any, length, get_elem?, map, keep_if, if◌then◌else◌, Result, ok, err, ◌>>=◌,
}
use jeeves.Codes.{Code}
use jeeves.Store.{
  Db, Op, Member, Grant, Workspace, WorkspaceEpoch, HttpError, number, unprocessable,
}
use jeeves.Prune.{PruneTarget}
use jeeves.Control.Certificates.{
  RegistrationCertificate, GrantCertificate, RevokeCertificate, RotateStatement,
}
use jeeves.Log.{OpResult}
use jeeves.Authorize.Prunes.{PruneAdmission, contains_number}
use jeeves.Authorize.Walk.{
  Admitted, ControlAdmission, founded, registered, granted, revoked, rotated,
}

-- The Member's row is chained, now if it was not, and takes the certified kind.
unfoldable pub chain_member : ℕ → RegistrationCertificate → List Member → List Member
chain_member now registration [] = []
chain_member now registration (row ∷ rows) =
    let rest = chain_member now registration rows in
    if row.member_id == registration.member_id
    then record row {
      chained_at = some (elim row.chained_at [ none ↦ now | some at ↦ at ]);
      member_kind = some registration.member_kind;
    }
      ∷ rows
    else row ∷ rest

-- A grant row by its primary key.
unfoldable pub is_grant : ℕ → ℕ → Grant → Bool
is_grant w grant_id row = row.workspace_id == w && row.grant_id == grant_id

-- The grants staged in the batch are rows here already, so that `staged_grants` and `db.get` are one
-- look-up by primary key.
-- `target.revoked_by_seq = seq`, unless it is stamped already.
unfoldable pub stamp_grant : ℕ → Grant → Grant
stamp_grant seq row = elim row.revoked_by_seq [
  | none ↦ record row { revoked_by_seq = some seq }
  | some at ↦ row
]

unfoldable pub stamp_revocation : ℕ → ℕ → ℕ → List Grant → List Grant
unfolding stamp_grant is_grant
stamp_revocation w grant_id seq [] = []
stamp_revocation w grant_id seq (row ∷ rows) =
    let rest = stamp_revocation w grant_id seq rows in
    if is_grant w grant_id row then stamp_grant seq row ∷ rest else row ∷ rest

-- The Members whose grant this stamp revokes.
unfoldable pub newly_revoked : ℕ → ℕ → List Grant → List ℕ
unfolding is_grant
newly_revoked w grant_id [] = []
newly_revoked w grant_id (row ∷ rows) =
    let rest = newly_revoked w grant_id rows in
    if is_grant w grant_id row && not (is_some row.revoked_by_seq)
    then row.member_id ∷ rest
    else rest

-- `revoked_from` goes along with the database.
pub record Materialised : Type 0 where
  pub db : Db
  pub revoked_from : List ℕ

abbrev grant_row : ℕ → ℕ → GrantCertificate → Grant
grant_row w seq grant = record {
  workspace_id = w;
  grant_id = grant.grant_id;
  member_id = grant.member_id;
  role = grant.role;
  granter = grant.granter;
  granted_seq = seq;
  revoked_by_seq = none;
}

abbrev epoch_row : ℕ → ℕ → RotateStatement → WorkspaceEpoch
epoch_row w seq rotate = record {
  workspace_id = w;
  epoch = rotate.to_epoch;
  keywrap_digest = rotate.keywrap_digest;
  escrow_wrap = [];
  rotate_seq = some seq;
}

-- One admission that is no duplicate, at the seq that its op got.
unfoldable pub materialise_op : ℕ → ℕ → ℕ → Admitted → Materialised → Materialised
unfolding chain_member stamp_revocation newly_revoked
materialise_op now w seq (founded founder) m = record m {
  db = record m.db {
    members = chain_member now founder m.db.members;
    workspaces = m.db.workspaces ++ record { workspace_id = w; genesis_seq = seq } ∷ [];
  };
}
materialise_op now w seq (registered registration) m = record m {
  db = record m.db { members = chain_member now registration m.db.members };
}
materialise_op now w seq (granted grant) m = record m {
  db = record m.db { grants = m.db.grants ++ grant_row w seq grant ∷ [] };
}
materialise_op now w seq (rotated rotate) m = record m {
  db = record m.db { epochs = m.db.epochs ++ epoch_row w seq rotate ∷ [] };
}
materialise_op now w seq (revoked certificate) m = record {
  db = record m.db { grants = stamp_revocation w certificate.grant_id seq m.db.grants };
  revoked_from = m.revoked_from ++ newly_revoked w certificate.grant_id m.db.grants;
}

-- `results[admission.index]`: there is one for each op. A duplicate materialises nothing.
unfoldable pub materialise_result : ℕ → ℕ → Option OpResult → Admitted → Materialised → Materialised
materialise_result now w none admitted m = m
materialise_result now w (some result) admitted m =
    if result.duplicate then m else materialise_op now w result.seq admitted m

unfoldable pub materialise_all :
    ℕ → ℕ → List OpResult → List ControlAdmission → Materialised → Materialised
materialise_all now w results [] m = m
materialise_all now w results (a ∷ rest) m =
    materialise_all now w results rest
      (materialise_result now w (get_elem? results a.index) a.admitted m)

abbrev holds_live_grant : Db → ℕ → ℕ → Bool
holds_live_grant db w member_id =
    any
      (λ (row : Grant).
        row.workspace_id == w && (row.member_id == member_id && not (is_some row.revoked_by_seq)))
      db.grants

-- `_materialise_control`: the database, and the Members that hold no live grant any more.
unfoldable pub materialise_control :
    ℕ → ℕ → List ControlAdmission → List OpResult → Db → Db × List ℕ
unfolding materialise_all
materialise_control now w admissions results db =
    let m = materialise_all now w results admissions (record { db = db; revoked_from = [] }) in
    (m.db, keep_if (λ member_id. not (holds_live_grant m.db w member_id)) m.revoked_from)

-- The rows that the guarded UPDATE of one prune finds.
unfoldable pub is_prunable : ℕ → List ℕ → Op → Bool
is_prunable w seqs row =
    row.workspace_id == w && (contains_number seqs row.seq && not (is_some row.compacted_by))

unfoldable pub stamp_ops : ℕ → List ℕ → ℕ → List Op → List Op
unfolding is_prunable
stamp_ops w seqs prune_seq [] = []
stamp_ops w seqs prune_seq (row ∷ rows) =
    let rest = stamp_ops w seqs prune_seq rows in
    if is_prunable w seqs row
    then record row { compacted_by = some prune_seq } ∷ rest
    else row ∷ rest

-- `rowcount`
unfoldable pub stamped_count : ℕ → List ℕ → List Op → ℕ
unfolding is_prunable
stamped_count w seqs [] = 0
stamped_count w seqs (row ∷ rows) =
    let rest = stamped_count w seqs rows in if is_prunable w seqs row then rest + 1 else rest

unfoldable pub stamp_prune : ℕ → PruneAdmission → ℕ → Db → Result HttpError Db
unfolding stamp_ops stamped_count
stamp_prune w prune prune_seq db =
    let seqs = map (λ (t : PruneTarget). t.seq) prune.targets in
    if stamped_count w seqs db.ops == length seqs
    then ok (record db { ops = stamp_ops w seqs prune_seq db.ops })
    else err (unprocessable Code.prune_target_already_compacted (number "index" prune.index ∷ []))

unfoldable pub prune_result : ℕ → Option OpResult → PruneAdmission → Db → Result HttpError Db
prune_result w none prune db = ok db
prune_result w (some result) prune db =
    if result.duplicate then ok db else stamp_prune w prune result.seq db

-- `_materialise_prunes`
unfoldable pub materialise_prunes :
    ℕ → List PruneAdmission → List OpResult → Db → Result HttpError Db
materialise_prunes w [] results db = ok db
materialise_prunes w (prune ∷ prunes) results db =
    prune_result w (get_elem? results prune.index) prune db >>= λ db'.
    materialise_prunes w prunes results db'
