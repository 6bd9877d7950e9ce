-- ===== src/Authorize/Walk.antt =====
-- The walk of `_verify_and_authorize` in backend/app/sync/routes.py over a batch, in order of
-- arrival, and the state it carries from op to op.
use jeeves.Common.{
  ℕ, suc, Bool, true, not, List, [], ◌∷◌, ◌++◌, Option, none, some, String, str_eq, ◌==◌, is_some,
  max, map, if◌then◌else◌, Result, ok, err, ◌>>=◌, ◌>>◌, raise_if, catch_as,
}
use jeeves.Common.Bytes.{Bytes}
use jeeves.Codes.{Code}
use jeeves.Crypto.{Primitives}
use jeeves.Envelope.{op_class_control, op_class_prune, op_class_compaction}
use jeeves.Store.{
  Db, Op, Member, WorkspaceEpoch, RecoveryEscrow, HttpError, number, conflict, unprocessable,
  get_workspace, get_escrow,
}
use jeeves.Ids.{user_preferences_workspace_id}
use jeeves.Prune.{PruneTarget}
use jeeves.Grants.{GrantIndex, grant_index, add, revoke, require_role}
use jeeves.Control.Errors.{control_refusal}
use jeeves.Control.Certificates.{
  RegistrationCertificate, GrantCertificate, RevokeCertificate, RotateStatement, as_registration,
}
use jeeves.Control.Payload.{
  ControlPayload, is_root_signed, require_chain_link_shape, control_type_member_register,
  control_type_workspace_genesis, control_type_grant, control_type_revoke, control_type_rotate,
}
use jeeves.Log.{ParsedOp, is_op}
use jeeves.Authorize.Certs.{
  Context, decode_control_payload, require_fresh_key_epoch, verify_genesis, verify_member_register,
  verify_grant, verify_revoke, verify_rotate,
}
use jeeves.Authorize.Prunes.{PruneAdmission, contains_number, verify_prune}

-- What a control op materialises, one constructor for each control type. A genesis carries the
-- founder's registration.
pub data Admitted : Type 0 where
  founded : RegistrationCertificate → Admitted
  registered : RegistrationCertificate → Admitted
  granted : GrantCertificate → Admitted
  revoked : RevokeCertificate → Admitted
  rotated : RotateStatement → Admitted

pub record ControlAdmission : Type 0 where
  pub index : ℕ
  pub admitted : Admitted

-- The variables of the loop. The first entry of a key in `staged_kinds` counts.
pub record Walk : Type 0 where
  pub grants : GrantIndex
  pub workspace_exists : Bool
  pub current_epoch : Option ℕ
  pub staged_kinds : List (ℕ × String)
  pub staged_compaction_op_ids : List ℕ
  pub claimed_seqs : List ℕ
  pub control : List ControlAdmission
  pub prunes : List PruneAdmission

abbrev admit : Walk → ℕ → Admitted → Walk
admit s index what = record s {
  control = s.control ++ record { index = index; admitted = what } ∷ [];
}

unfoldable pub admit_genesis : Walk → ℕ → RegistrationCertificate → Walk
admit_genesis s index founder =
    admit
      (record s {
        workspace_exists = true;
        staged_kinds = (founder.member_id, founder.member_kind) ∷ s.staged_kinds;
      })
      index (founded founder)

unfoldable pub admit_register : Walk → ℕ → RegistrationCertificate → Walk
admit_register s index registration =
    admit
      (record s {
        staged_kinds = (registration.member_id, registration.member_kind) ∷ s.staged_kinds;
      })
      index (registered registration)

unfoldable pub admit_grant : Walk → ℕ → GrantCertificate → Walk
admit_grant s index grant =
    admit (record s { grants = add s.grants grant.grant_id grant.member_id grant.role }) index
      (granted grant)

unfoldable pub admit_revoke : Walk → ℕ → RevokeCertificate → Walk
admit_revoke s index certificate =
    admit (record s { grants = revoke s.grants certificate.grant_id }) index (revoked certificate)

unfoldable pub admit_rotate : Walk → ℕ → RotateStatement → Walk
admit_rotate s index rotate =
    admit (record s { current_epoch = some rotate.to_epoch }) index (rotated rotate)

unfoldable pub admit_prune : Walk → PruneAdmission → Walk
admit_prune s prune = record s {
  prunes = s.prunes ++ prune ∷ [];
  claimed_seqs = map (λ (t : PruneTarget). t.seq) prune.targets ++ s.claimed_seqs;
}

abbrev pub is_replayed : Context → ParsedOp → Bool
is_replayed ctx op = contains_number ctx.replayed_op_ids op.header.op_id

-- What an op that is no control op stages once it is authorized.
unfoldable pub stage_body : Context → ℕ → ParsedOp → Walk → Result HttpError Walk
stage_body ctx index op s =
    if op.header.op_class == op_class_compaction
    then ok (record s { staged_compaction_op_ids = op.header.op_id ∷ s.staged_compaction_op_ids })
    else if op.header.op_class == op_class_prune
    then (verify_prune ctx op index s.staged_compaction_op_ids s.claimed_seqs (is_replayed ctx op)
        >>= λ prune. ok (admit_prune s prune))
    else ok s

unfoldable pub walk_content : Context → ℕ → ParsedOp → Walk → Result HttpError Walk
walk_content ctx index op s = do
  raise_if (not s.workspace_exists)
      (conflict Code.workspace_not_created (number "index" index ∷ []))
  require_role s.grants ctx.current_member.member_id op.header.op_class index
  require_fresh_key_epoch op.header s.current_epoch index
  stage_body ctx index op s

unfoldable pub walk_genesis : Context → ℕ → ParsedOp → ControlPayload → Walk → Result HttpError Walk
walk_genesis ctx index op payload s =
    verify_genesis ctx payload op.header index s.workspace_exists >>= λ genesis.
    ok (admit_genesis s index (as_registration genesis))

unfoldable pub walk_register :
    Context → ℕ → ParsedOp → ControlPayload → Walk → Result HttpError Walk
walk_register ctx index op payload s =
    verify_member_register ctx payload op.header index >>= λ registration.
    ok (admit_register s index registration)

unfoldable pub walk_grant : Context → ℕ → ParsedOp → ControlPayload → Walk → Result HttpError Walk
walk_grant ctx index op payload s =
    verify_grant ctx payload op.header index s.grants s.staged_kinds (is_replayed ctx op)
    >>= λ grant. ok (admit_grant s index grant)

unfoldable pub walk_revoke : Context → ℕ → ParsedOp → ControlPayload → Walk → Result HttpError Walk
walk_revoke ctx index op payload s =
    verify_revoke ctx payload op.header index s.grants (is_replayed ctx op) >>= λ certificate.
    ok (admit_revoke s index certificate)

unfoldable pub walk_rotate : Context → ℕ → ParsedOp → ControlPayload → Walk → Result HttpError Walk
walk_rotate ctx index op payload s =
    verify_rotate ctx payload op.header index s.current_epoch >>= λ rotate.
    ok (admit_rotate s index rotate)

unfoldable pub walk_by_type : Context → ℕ → ParsedOp → ControlPayload → Walk → Result HttpError Walk
walk_by_type ctx index op payload s =
    if str_eq payload.control_type control_type_member_register
    then walk_register ctx index op payload s
    else if str_eq payload.control_type control_type_grant
    then walk_grant ctx index op payload s
    else if str_eq payload.control_type control_type_revoke
    then walk_revoke ctx index op payload s
    else if str_eq payload.control_type control_type_rotate
    then walk_rotate ctx index op payload s
    else err (unprocessable Code.unsupported_control_type (number "index" index ∷ []))

-- Root signed it, or the author holds an owner Grant.
unfoldable pub require_root_or_owner :
    Context → ℕ → ControlPayload → Walk → Result HttpError (Unit {0})
require_root_or_owner ctx index payload s =
    if is_root_signed payload
    then ok tt
    else require_role s.grants ctx.current_member.member_id op_class_control index

unfoldable pub walk_payload : Context → ℕ → ParsedOp → ControlPayload → Walk → Result HttpError Walk
walk_payload ctx index op payload s =
    if str_eq payload.control_type control_type_workspace_genesis
    then walk_genesis ctx index op payload s
    else do
      raise_if (not s.workspace_exists)
          (conflict Code.workspace_not_created (number "index" index ∷ []))
      require_root_or_owner ctx index payload s
      walk_by_type ctx index op payload s

unfoldable pub walk_control : Context → ℕ → ParsedOp → Walk → Result HttpError Walk
walk_control ctx index op s = do
  payload ← decode_control_payload ctx.lib op.envelope index
  catch_as (control_refusal index) (require_chain_link_shape payload)
  walk_payload ctx index op payload s

-- One turn of the loop.
unfoldable pub walk_op : Context → ℕ → ParsedOp → Walk → Result HttpError Walk
walk_op ctx index op s =
    if op.header.op_class == op_class_control
    then walk_control ctx index op s
    else walk_content ctx index op s

unfoldable pub walk : Context → ℕ → List ParsedOp → Walk → Result HttpError Walk
walk ctx index [] s = ok s
walk ctx index (op ∷ ops) s = walk_op ctx index op s >>= λ s'. walk ctx (suc index) ops s'

-- `_current_key_epoch`
unfoldable pub max_epoch : List WorkspaceEpoch → ℕ → Option ℕ
max_epoch [] w = none
max_epoch (row ∷ rows) w =
    let rest = max_epoch rows w in
    if row.workspace_id == w
    then elim rest [ none ↦ some row.epoch | some epoch ↦ some (max row.epoch epoch) ]
    else rest

unfoldable pub current_key_epoch : Db → ℕ → Option ℕ
unfolding max_epoch
current_key_epoch db w = max_epoch db.epochs w

-- The ids of the Member's stored ops. The query also restricts them to the batch's ids, the only
-- ones that are looked up.
unfoldable pub ids_of_author : List Op → ℕ → ℕ → List ℕ
ids_of_author [] w author = []
ids_of_author (row ∷ rows) w author =
    let rest = ids_of_author rows w author in
    if is_op w author row.op_id row then row.op_id ∷ rest else rest

abbrev root_pk_of : Option RecoveryEscrow → Bytes
root_pk_of none = []
root_pk_of (some escrow) = escrow.root_pk

unfoldable pub context : Primitives → Db → ℕ → Member → Context
unfolding ids_of_author
context lib db w member = record {
  lib = lib;
  db = db;
  workspace_id = w;
  current_member = member;
  root_pk = root_pk_of (get_escrow db w member.user_id);
  is_preferences = w == user_preferences_workspace_id lib member.user_id;
  replayed_op_ids = ids_of_author db.ops w member.member_id;
}

unfoldable pub start_walk : Db → ℕ → Walk
unfolding current_key_epoch
start_walk db w = record {
  grants = grant_index db w;
  workspace_exists = is_some (get_workspace db w);
  current_epoch = current_key_epoch db w;
  staged_kinds = [];
  staged_compaction_op_ids = [];
  claimed_seqs = [];
  control = [];
  prunes = [];
}

-- `_verify_and_authorize`; the admissions are the last state's `control` and `prunes`.
unfoldable pub verify_and_authorize :
    Primitives → Db → ℕ → Member → List ParsedOp → Result HttpError Walk
unfolding walk context start_walk
verify_and_authorize lib db w member parsed =
    walk (context lib db w member) 0 parsed (start_walk db w)
