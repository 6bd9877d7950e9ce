-- ===== src/Keys/Upload.antt =====
-- `put_keywraps` of backend/app/sync/routes.py, with the look-ups that serve what it stored:
-- `get_my_keywraps` and `get_epoch_keys`. A row stands for what the response shows of it, and the
-- digest in a detail for its base64 text.
pub mod Handler
pub mod Steps
pub mod Stored
pub mod Sent
pub mod Published
pub mod Keeps
use jeeves.Common.{
  ℕ, suc, Bool, true, false, not, ◌&&◌, ◌||◌, List, [], ◌∷◌, ◌++◌, Option, none, some, String,
  str_eq, ◌==◌, leb, any, length, keep_if, if◌then◌else◌, Result, ok, err, ◌>>=◌, ◌>>◌, raise_if,
  or_raise, catch_as,
}
use jeeves.Common.Bytes.{Bytes, bytes_eq}
use jeeves.Codes.{Code}
use jeeves.Crypto.{Primitives}
use jeeves.Json.{ℤ, pos, negsuc}
use jeeves.Envelope.Wire.{derive_key_id}
use jeeves.Store.{
  Db, Member, KeyWrap, WorkspaceEpoch, HttpError, number, integer, octets, unprocessable, forbidden,
  conflict, get_member, get_epoch, get_keywrap,
}
use jeeves.Ids.{require_derivable_workspace}
use jeeves.Grants.{
  refuse_if_revoked, grant_index, live_roles, is_revoked, is_empty, has_role, role_owner,
}
use jeeves.Keys.Consts.{
  KeyWrapError, keywrap_bytes, epoch_key_escrow_wrap_bytes, keywrap_digest_bytes, max_key_epoch,
}
use jeeves.Keys.Digest.{WrapEntry, keywrap_digest}
use jeeves.Keys.Sorting.{sorted}

pub record KeyWrapEntry : Type 0 where
  pub member_id : ℕ
  pub kex_key_id_b64 : String
  pub wrap_b64 : String

pub record PutKeyWrapsRequest : Type 0 where
  pub epoch : ℤ
  pub wraps : List KeyWrapEntry
  pub escrow_wrap_b64 : String
  pub keywrap_digest_b64 : Option String

abbrev pub internal_error : HttpError
internal_error = record { status = 500; code = Code.internal_error; detail = [] }

-- `0 <= body.epoch <= MAX_KEY_EPOCH`
unfoldable pub require_key_epoch : ℤ → Result HttpError ℕ
require_key_epoch (pos epoch) =
    if leb epoch max_key_epoch
    then ok epoch
    else err (unprocessable Code.malformed_key_epoch (number "epoch" epoch ∷ []))
require_key_epoch (negsuc n) =
    err (unprocessable Code.malformed_key_epoch (integer "epoch" (negsuc n) ∷ []))

-- A Member of the caller's User.
unfoldable pub member_of_user : Db → String → ℕ → Option Member
member_of_user db user_id id = elim (get_member db id) [
  | none ↦ none
  | some row ↦ if str_eq row.user_id user_id then some row else none
]

-- The key id must be derived from the registered key.
unfoldable pub require_registered_key :
    Primitives → ℕ → Option Bytes → Bytes → Result HttpError (Unit {0})
require_registered_key lib index none kex_key_id =
    err (unprocessable Code.kex_key_id_not_registered (number "index" index ∷ []))
require_registered_key lib index (some kex_pk) kex_key_id = do
  registered ← catch_as (λ e. internal_error) (derive_key_id lib kex_pk)
  raise_if (not (bytes_eq registered kex_key_id))
      (unprocessable Code.kex_key_id_not_registered (number "index" index ∷ []))

-- `entry.member_id in seen`, where `seen` holds the Members of the entries so far.
abbrev has_wrap_for : List WrapEntry → ℕ → Bool
has_wrap_for seen id = any (λ (e : WrapEntry). e.member_id == id) seen

-- One turn of the loop over the wraps.
unfoldable pub check_entry :
    Primitives → Db → String → ℕ → KeyWrapEntry → List WrapEntry → Result HttpError WrapEntry
check_entry lib db user_id index entry seen = do
  wrap ←
      or_raise (lib.b64decode entry.wrap_b64)
        (unprocessable Code.malformed_keywrap (number "index" index ∷ []))
  raise_if (not (length wrap == keywrap_bytes)) (
      unprocessable Code.malformed_keywrap
        (number "index" index ∷ number "expected_bytes" keywrap_bytes ∷ []))
  kex_key_id ←
      or_raise (lib.b64decode entry.kex_key_id_b64)
        (unprocessable Code.malformed_kex_key_id (number "index" index ∷ []))
  row ←
      or_raise (member_of_user db user_id entry.member_id)
        (unprocessable Code.unknown_keywrap_member (number "index" index ∷ []))
  require_registered_key lib index row.kex_pk kex_key_id
  raise_if (has_wrap_for seen entry.member_id)
      (unprocessable Code.duplicate_keywrap_member (number "index" index ∷ []))
  ok (record { member_id = entry.member_id; kex_key_id = kex_key_id; wrap = wrap })

-- The loop; `seen` are the entries so far.
unfoldable pub check_entries :
    Primitives
    → Db
    → String
    → ℕ
    → List KeyWrapEntry
    → List WrapEntry
    → Result HttpError (List WrapEntry)
check_entries lib db user_id index [] seen = ok seen
check_entries lib db user_id index (entry ∷ rest) seen =
    check_entry lib db user_id index entry seen >>= λ checked.
    check_entries lib db user_id (suc index) rest (seen ++ checked ∷ [])

-- What is staged for the row of the epoch.
pub data EpochWrite : Type 0 where
  insert_epoch : WorkspaceEpoch → EpochWrite
  set_escrow_wrap : Bytes → EpochWrite

abbrev pub digest_mismatch : ℕ → HttpError
digest_mismatch epoch = unprocessable Code.keywrap_digest_mismatch (number "epoch" epoch ∷ [])

-- The digest of the body, for epoch 0.
unfoldable pub claimed_digest : Primitives → ℕ → Option String → Bytes → Result HttpError (Unit {0})
claimed_digest lib epoch none computed =
    err (unprocessable Code.missing_keywrap_digest (number "epoch" epoch ∷ []))
claimed_digest lib epoch (some digest_b64) computed = do
  claimed ← or_raise (lib.b64decode digest_b64) (unprocessable Code.malformed_keywrap_digest [])
  raise_if (not (length claimed == keywrap_digest_bytes)) (
      unprocessable Code.malformed_keywrap_digest
        (number "expected_bytes" keywrap_digest_bytes ∷ []))
  raise_if (not (bytes_eq claimed computed)) (digest_mismatch epoch)

-- Both cases on `stored_epoch`.
unfoldable pub stage_epoch :
    Primitives
    → ℕ
    → ℕ
    → Option String
    → Bytes
    → Bytes
    → Option WorkspaceEpoch
    → Result HttpError EpochWrite
stage_epoch lib w epoch claimed computed escrow_wrap none =
    if epoch == 0
    then claimed_digest lib epoch claimed computed
      >> ok (
          insert_epoch (record {
            workspace_id = w;
            epoch = epoch;
            keywrap_digest = computed;
            escrow_wrap = escrow_wrap;
            rotate_seq = none;
          }))
    else err (conflict Code.rotate_not_materialised (number "epoch" epoch ∷ []))
stage_epoch lib w epoch claimed computed escrow_wrap (some stored) = do
  raise_if (not (bytes_eq stored.keywrap_digest computed)) (
      unprocessable Code.keywrap_digest_mismatch
        (number "epoch" epoch ∷ octets "expected_digest" stored.keywrap_digest ∷ []))
  raise_if (not (bytes_eq stored.escrow_wrap []) && not (bytes_eq stored.escrow_wrap escrow_wrap))
      (digest_mismatch epoch)
  ok (set_escrow_wrap escrow_wrap)

abbrev pub keywrap_row : ℕ → ℕ → WrapEntry → KeyWrap
keywrap_row w epoch entry = record {
  workspace_id = w;
  member_id = entry.member_id;
  epoch = epoch;
  kex_key_id = entry.kex_key_id;
  wrap = entry.wrap;
}

-- `existing.wrap != wrap or existing.kex_key_id != kex_key_id`, negated
abbrev pub is_same_wrap : KeyWrap → WrapEntry → Bool
is_same_wrap row entry = bytes_eq row.wrap entry.wrap && bytes_eq row.kex_key_id entry.kex_key_id

abbrev pub already_written : ℕ → HttpError
already_written epoch = conflict Code.keywrap_already_written (number "epoch" epoch ∷ [])

-- The rows to insert.
unfoldable pub stage_wraps : Db → ℕ → ℕ → List WrapEntry → Result HttpError (List KeyWrap)
stage_wraps db w epoch [] = ok []
stage_wraps db w epoch (entry ∷ rest) =
    let later = stage_wraps db w epoch rest in
    elim (get_keywrap db w entry.member_id epoch) [
      | none ↦ later >>= λ rows. ok (keywrap_row w epoch entry ∷ rows)
      | some existing ↦
          raise_if (not (is_same_wrap existing entry)) (already_written epoch) >> later
    ]
