-- ===== src/Keys/Upload/Handler.antt =====
-- The commit of an upload of wraps, the handler, and the two routes that serve what is stored.
use jeeves.Common.{
  ℕ, Bool, not, ◌&&◌, List, [], ◌∷◌, ◌++◌, Option, none, some, ◌==◌, leb, length, is_some, keep_if,
  if◌then◌else◌, Result, ok, err, ◌>>=◌, ◌>>◌, raise_if, or_raise, catch_as,
}
use jeeves.Common.Bytes.{Bytes, bytes_eq}
use jeeves.Codes.{Code}
use jeeves.Crypto.{Primitives}
use jeeves.Store.{
  Db, Member, KeyWrap, WorkspaceEpoch, HttpError, number, flag, unprocessable, forbidden, get_epoch,
  get_keywrap,
}
use jeeves.Ids.{require_derivable_workspace}
use jeeves.Grants.{
  refuse_if_revoked, grant_index, live_roles, is_revoked, is_empty, has_role, role_owner,
}
use jeeves.Keys.Consts.{epoch_key_escrow_wrap_bytes}
use jeeves.Keys.Digest.{WrapEntry, keywrap_digest}
use jeeves.Keys.Sorting.{sorted}
use jeeves.Keys.Upload.{
  PutKeyWrapsRequest, internal_error, require_key_epoch, check_entries, EpochWrite, insert_epoch,
  set_escrow_wrap, digest_mismatch, stage_epoch, is_same_wrap, already_written, stage_wraps,
}

abbrev is_epoch : ℕ → ℕ → WorkspaceEpoch → Bool
is_epoch w epoch row = row.workspace_id == w && row.epoch == epoch

-- The UPDATE of the row of an epoch, by its primary key.
unfoldable pub set_escrow : ℕ → ℕ → Bytes → List WorkspaceEpoch → List WorkspaceEpoch
set_escrow w epoch escrow_wrap [] = []
set_escrow w epoch escrow_wrap (row ∷ rows) =
    let rest = set_escrow w epoch escrow_wrap rows in
    if is_epoch w epoch row then record row { escrow_wrap = escrow_wrap } ∷ rows else row ∷ rest

-- The statement for the row of the epoch; `none` is `IntegrityError`.
unfoldable pub write_epoch : ℕ → ℕ → EpochWrite → Db → Option Db
unfolding set_escrow
write_epoch w epoch (insert_epoch row) db =
    if is_some (get_epoch db w epoch)
    then none
    else some (record db { epochs = db.epochs ++ row ∷ [] })
write_epoch w epoch (set_escrow_wrap escrow_wrap) db =
    some (record db { epochs = set_escrow w epoch escrow_wrap db.epochs })

-- The INSERTs of the wraps, under their primary key.
unfoldable pub insert_wraps : List KeyWrap → Db → Option Db
insert_wraps [] db = some db
insert_wraps (row ∷ rows) db =
    let rest = insert_wraps rows (record db { keywraps = db.keywraps ++ row ∷ [] }) in
    if is_some (get_keywrap db row.workspace_id row.member_id row.epoch) then none else rest

unfoldable pub commit_upload : ℕ → ℕ → EpochWrite → List KeyWrap → Db → Option Db
unfolding write_epoch insert_wraps
commit_upload w epoch write rows db = elim (write_epoch w epoch write db) [
  | none ↦ none
  | some written ↦ insert_wraps rows written
]

-- After `IntegrityError`: what the winner wrote must be this set.
unfoldable pub require_stored : Db → ℕ → ℕ → List WrapEntry → Result HttpError (Unit {0})
require_stored db w epoch [] = ok tt
require_stored db w epoch (entry ∷ rest) =
    let later = require_stored db w epoch rest in
    elim (get_keywrap db w entry.member_id epoch) [
      | none ↦ err (already_written epoch)
      | some existing ↦
          raise_if (not (is_same_wrap existing entry)) (already_written epoch) >> later
    ]

unfoldable pub resolve_upload_conflict : Db → ℕ → ℕ → List WrapEntry → Bytes → Result HttpError Db
unfolding require_stored
resolve_upload_conflict db w epoch entries computed = do
  stored ← or_raise (get_epoch db w epoch) (digest_mismatch epoch)
  raise_if (not (bytes_eq stored.keywrap_digest computed)) (digest_mismatch epoch)
  require_stored db w epoch entries
  ok db

-- `await db.commit()` and its `except`, where `committed` is the state the INSERTs meet.
unfoldable pub finish_upload :
    Db → ℕ → ℕ → EpochWrite → List WrapEntry → List KeyWrap → Bytes → Result HttpError Db
unfolding commit_upload
finish_upload committed w epoch write entries rows computed =
    elim (commit_upload w epoch write rows committed) [
      | none ↦ resolve_upload_conflict committed w epoch entries computed
      | some db ↦ ok db
    ]

-- `_keywraps_for_member`
unfoldable pub keywraps_for_member : Db → ℕ → ℕ → List KeyWrap
keywraps_for_member db w member_id =
    sorted (λ (a b : KeyWrap). leb a.epoch b.epoch)
      (keep_if (λ (row : KeyWrap). row.workspace_id == w && row.member_id == member_id) db.keywraps)

-- From the checked entries to the commit.
unfoldable pub store_upload :
    Primitives → Db → Db → ℕ → ℕ → PutKeyWrapsRequest → List WrapEntry → Bytes → Result HttpError Db
unfolding stage_epoch stage_wraps finish_upload
store_upload lib reading committed w epoch body entries escrow_wrap = do
  computed ← catch_as (λ e. internal_error) (keywrap_digest lib epoch entries escrow_wrap)
  write ←
      stage_epoch lib w epoch body.keywrap_digest_b64 computed escrow_wrap
        (get_epoch reading w epoch)
  rows ← stage_wraps reading w epoch entries
  finish_upload committed w epoch write entries rows computed

-- The owner's gate.
unfoldable pub require_owner : Db → ℕ → ℕ → Result HttpError (Unit {0})
require_owner db w member_id =
    let grants = grant_index db w in
    raise_if (not (has_role (live_roles grants member_id) role_owner))
      (forbidden Code.keywrap_requires_owner (flag "revoked" (is_revoked grants member_id) ∷ []))

-- What the handler reads before it looks at a stored row.
pub record CheckedUpload : Type 0 where
  pub epoch : ℕ
  pub escrow_wrap : Bytes
  pub entries : List WrapEntry

unfoldable pub check_upload :
    Primitives → Db → ℕ → Member → PutKeyWrapsRequest → Result HttpError CheckedUpload
check_upload lib db w member body = do
  require_derivable_workspace lib w member.user_id []
  refuse_if_revoked db w member
  epoch ← require_key_epoch body.epoch
  require_owner db w member.member_id
  escrow_wrap ←
      or_raise (lib.b64decode body.escrow_wrap_b64) (unprocessable Code.malformed_escrow_wrap [])
  raise_if (not (length escrow_wrap == epoch_key_escrow_wrap_bytes)) (
      unprocessable Code.malformed_escrow_wrap
        (number "expected_bytes" epoch_key_escrow_wrap_bytes ∷ []))
  entries ← check_entries lib db member.user_id 0 body.wraps []
  ok (record { epoch = epoch; escrow_wrap = escrow_wrap; entries = entries })

-- `put_keywraps`: it reads `reading`, and what it writes meets what is `committed` by then.
unfoldable pub put_keywraps :
    Primitives → Db → Db → ℕ → Member → PutKeyWrapsRequest → Result HttpError (Db × List KeyWrap)
unfolding store_upload
put_keywraps lib reading committed w member body = do
  checked ← check_upload lib reading w member body
  db ← store_upload lib reading committed w checked.epoch body checked.entries checked.escrow_wrap
  ok (db, keywraps_for_member db w member.member_id)

-- `get_my_keywraps`
unfoldable pub get_my_keywraps : Primitives → Db → ℕ → Member → Result HttpError (List KeyWrap)
get_my_keywraps lib db w member = do
  require_derivable_workspace lib w member.user_id []
  refuse_if_revoked db w member
  ok (keywraps_for_member db w member.member_id)

-- `get_epoch_keys`
unfoldable pub get_epoch_keys :
    Primitives → Db → ℕ → Member → Result HttpError (List WorkspaceEpoch)
get_epoch_keys lib db w member = do
  require_derivable_workspace lib w member.user_id []
  refuse_if_revoked db w member
  let grants = grant_index db w
  raise_if (is_empty (live_roles grants member.member_id))
      (forbidden Code.no_live_grant (flag "revoked" (is_revoked grants member.member_id) ∷ []))
  ok (
      keep_if (λ (row : WorkspaceEpoch). not (bytes_eq row.escrow_wrap []))
        (sorted (λ (a b : WorkspaceEpoch). leb a.epoch b.epoch)
          (keep_if (λ (row : WorkspaceEpoch). row.workspace_id == w) db.epochs)))
