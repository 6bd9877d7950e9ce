-- ===== src/Store.antt =====
-- The tables of backend/app/sync/models.py and backend/app/auth/models.py that the sync routes read
-- and write, and the structured errors of backend/app/sync/routes.py. A table is the list of its
-- rows in order of insertion. Timestamps that nothing reads (`created_at`, `updated_at`,
-- `received_at`, `fetched_at`) are left out.
use jeeves.Common.{ℕ, Bool, List, Option, String, ◌&&◌, ◌==◌, str_eq, find}
use jeeves.Common.Bytes.{Bytes}
use jeeves.Codes.{Code}
use jeeves.Json.{ℤ}

pub record User : Type 0 where
  pub user_id : String
  pub email : Option String
  pub hashed_password : Option String
  pub solana_public_key : Option String
  pub is_active : Bool

pub record RefreshToken : Type 0 where
  pub user_id : String
  pub member_id : Option ℕ
  pub token_hash : String
  pub expires_at : ℕ
  pub revoked_at : Option ℕ

pub record Member : Type 0 where
  pub member_id : ℕ
  pub user_id : String
  pub sign_pk : Bytes
  pub key_id : Bytes
  pub kex_pk : Option Bytes
  pub member_kind : Option String
  pub chained_at : Option ℕ

pub record Op : Type 0 where
  pub seq : ℕ
  pub workspace_id : ℕ
  pub envelope : Bytes
  pub op_class : ℕ
  pub key_epoch : ℕ
  pub op_id : ℕ
  pub author_member_id : ℕ
  pub author_key_id : Bytes
  pub author_seq : ℕ
  pub compacted_by : Option ℕ

pub record Workspace : Type 0 where
  pub workspace_id : ℕ
  pub genesis_seq : ℕ

pub record Grant : Type 0 where
  pub workspace_id : ℕ
  pub grant_id : ℕ
  pub member_id : ℕ
  pub role : String
  pub granter : String
  pub granted_seq : ℕ
  pub revoked_by_seq : Option ℕ

pub record RecoveryEscrow : Type 0 where
  pub workspace_id : ℕ
  pub user_id : String
  pub version : ℕ
  pub blob : Bytes
  pub root_sig : Bytes
  pub root_pk : Bytes

pub record RecoveryEscrowFetch : Type 0 where
  pub workspace_id : ℕ
  pub user_id : String

pub record KeyWrap : Type 0 where
  pub workspace_id : ℕ
  pub member_id : ℕ
  pub epoch : ℕ
  pub kex_key_id : Bytes
  pub wrap : Bytes

pub record WorkspaceEpoch : Type 0 where
  pub workspace_id : ℕ
  pub epoch : ℕ
  pub keywrap_digest : Bytes
  pub escrow_wrap : Bytes
  pub rotate_seq : Option ℕ

-- `next_seq` is what the autoincrement of `ops.seq` hands out next.
pub record Db : Type 0 where
  pub users : List User
  pub refresh_tokens : List RefreshToken
  pub members : List Member
  pub ops : List Op
  pub next_seq : ℕ
  pub workspaces : List Workspace
  pub grants : List Grant
  pub escrows : List RecoveryEscrow
  pub escrow_fetches : List RecoveryEscrowFetch
  pub keywraps : List KeyWrap
  pub epochs : List WorkspaceEpoch

-- `db.get(Table, primary_key)`
abbrev pub get_user : Db → String → Option User
get_user db id = find (λ (row : User). str_eq row.user_id id) db.users

abbrev pub get_member : Db → ℕ → Option Member
get_member db id = find (λ (row : Member). row.member_id == id) db.members

abbrev pub get_workspace : Db → ℕ → Option Workspace
get_workspace db id = find (λ (row : Workspace). row.workspace_id == id) db.workspaces

abbrev pub get_escrow : Db → ℕ → String → Option RecoveryEscrow
get_escrow db w user =
    find (λ (row : RecoveryEscrow). row.workspace_id == w && str_eq row.user_id user) db.escrows

abbrev pub get_epoch : Db → ℕ → ℕ → Option WorkspaceEpoch
get_epoch db w epoch =
    find (λ (row : WorkspaceEpoch). row.workspace_id == w && row.epoch == epoch) db.epochs

abbrev pub get_keywrap : Db → ℕ → ℕ → ℕ → Option KeyWrap
get_keywrap db w member epoch =
    find
      (λ (row : KeyWrap). row.workspace_id == w && (row.member_id == member && row.epoch == epoch))
      db.keywraps

-- The fields of a structured detail.
pub data Detail : Type 0 where
  number : String → ℕ → Detail
  integer : String → ℤ → Detail
  flag : String → Bool → Detail
  text : String → String → Detail
  texts : String → List String → Detail
  octets : String → Bytes → Detail

pub record HttpError : Type 0 where
  pub status : ℕ
  pub code : Code
  pub detail : List Detail

-- `_forbidden`, `_conflict`, `_unprocessable`
abbrev pub forbidden : Code → List Detail → HttpError
forbidden code detail = record { status = 403; code = code; detail = detail }

abbrev pub conflict : Code → List Detail → HttpError
conflict code detail = record { status = 409; code = code; detail = detail }

abbrev pub unprocessable : Code → List Detail → HttpError
unprocessable code detail = record { status = 422; code = code; detail = detail }
