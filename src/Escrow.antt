-- ===== src/Escrow.antt =====
-- backend/app/sync/escrow.py and the recovery routes of backend/app/sync/routes.py: the slot that
-- holds the passphrase-wrapped Root of a User. A row stands for what the response shows of it.
pub mod Advances
pub mod Slot
pub mod Fetches
pub mod Limit
use jeeves.Common.{
  ℕ, ◌-◌, ◌^◌, Bool, true, false, not, ◌&&◌, ◌||◌, List, [], ◌∷◌, ◌++◌, Option, none, some, String,
  str_eq, ◌==◌, ltb, leb, length, is_some, if◌then◌else◌, Result, ok, err, ◌>>=◌, ◌>>◌, raise_if,
  or_raise, catch_as,
}
use jeeves.Common.Bytes.{Bytes, codes, to_be}
use jeeves.Codes.{Code}
use jeeves.Crypto.{Primitives, Verdict}
use jeeves.Json.{ℤ, pos, negsuc}
use jeeves.Redis.{Redis, increment_in_window}
use jeeves.Store.{
  Db, User, RecoveryEscrow, HttpError, number, integer, unprocessable, conflict, get_escrow,
}
use jeeves.Ids.{require_derivable_workspace}

abbrev pub signing_domain_escrow_v1 : Bytes
signing_domain_escrow_v1 = codes "jeeves/escrow/v1"

abbrev pub root_public_key_bytes : ℕ
root_public_key_bytes = 32

abbrev pub root_signature_bytes : ℕ
root_signature_bytes = 64

abbrev pub first_escrow_version : ℕ
first_escrow_version = 1

abbrev pub max_escrow_version : ℕ
max_escrow_version = 2 ^ 63 - 1

abbrev pub no_escrow_stored_version : ℕ
no_escrow_stored_version = 0

abbrev pub recovery_fetch_daily_limit : ℕ
recovery_fetch_daily_limit = 20

abbrev pub recovery_fetch_window_seconds : ℕ
recovery_fetch_window_seconds = 86400

-- `EscrowSignatureError`, and the `struct.error` of a version that is no u64.
pub data EscrowError : Type 0 where
  bad_escrow_signature struct_error : EscrowError

unfoldable pub escrow_signing_input : ℕ → ℕ → Bytes → Result EscrowError Bytes
escrow_signing_input workspace_id version blob =
    if ltb version (2 ^ 64)
    then ok (signing_domain_escrow_v1 ++ (to_be 16 workspace_id ++ (to_be 8 version ++ blob)))
    else err EscrowError.struct_error

abbrev raise_escrow_verdict : Verdict → Result EscrowError (Unit {0})
raise_escrow_verdict Verdict.verified = ok tt
raise_escrow_verdict Verdict.bad_signature = err EscrowError.bad_escrow_signature
raise_escrow_verdict Verdict.value_error = err EscrowError.bad_escrow_signature

unfoldable pub verify_escrow_signature :
    Primitives → ℕ → ℕ → Bytes → Bytes → Bytes → Result EscrowError (Unit {0})
unfolding escrow_signing_input
verify_escrow_signature lib workspace_id version blob signature root_pk =
    escrow_signing_input workspace_id version blob >>= λ input.
    raise_escrow_verdict (lib.ed25519_verify root_pk input signature)

pub record RecoveryEscrowRequest : Type 0 where
  pub version : ℤ
  pub blob_b64 : String
  pub root_sig_b64 : String
  pub root_pk_b64 : String

-- The fields of the request once they are decoded.
pub record EscrowWrite : Type 0 where
  pub version : ℕ
  pub blob : Bytes
  pub root_sig : Bytes
  pub root_pk : Bytes

-- `_escrow_version_conflict`
abbrev pub escrow_version_conflict : ℕ → HttpError
escrow_version_conflict stored_version =
    conflict Code.escrow_version_regression (number "stored_version" stored_version ∷ [])

abbrev escrow_refusal : EscrowError → HttpError
escrow_refusal EscrowError.bad_escrow_signature = record {
  status = 403;
  code = Code.bad_escrow_signature;
  detail = [];
}
escrow_refusal EscrowError.struct_error = record {
  status = 500;
  code = Code.internal_error;
  detail = [];
}

unfoldable pub require_escrow_version : ℤ → Result HttpError ℕ
require_escrow_version (pos version) =
    if leb first_escrow_version version && leb version max_escrow_version
    then ok version
    else err (unprocessable Code.malformed_escrow_version (number "version" version ∷ []))
require_escrow_version (negsuc n) =
    err (unprocessable Code.malformed_escrow_version (integer "version" (negsuc n) ∷ []))

-- The checks of the request alone.
unfoldable pub decode_escrow : Primitives → RecoveryEscrowRequest → Result HttpError EscrowWrite
decode_escrow lib body = do
  blob ← or_raise (lib.b64decode body.blob_b64) (unprocessable Code.malformed_escrow_blob [])
  root_sig ←
      or_raise (lib.b64decode body.root_sig_b64) (unprocessable Code.malformed_escrow_signature [])
  root_pk ← or_raise (lib.b64decode body.root_pk_b64) (unprocessable Code.malformed_root_pk [])
  raise_if (not (length root_sig == root_signature_bytes)) (
      unprocessable Code.malformed_escrow_signature
        (number "expected_bytes" root_signature_bytes ∷ []))
  raise_if (not (length root_pk == root_public_key_bytes))
      (unprocessable Code.malformed_root_pk (number "expected_bytes" root_public_key_bytes ∷ []))
  version ← require_escrow_version body.version
  ok (record { version = version; blob = blob; root_sig = root_sig; root_pk = root_pk })

abbrev is_slot : ℕ → String → RecoveryEscrow → Bool
is_slot w user_id row = row.workspace_id == w && str_eq row.user_id user_id

-- The guarded UPDATE; `none` is where no row matches.
unfoldable pub update_escrow :
    ℕ → String → ℕ → EscrowWrite → List RecoveryEscrow → Option (List RecoveryEscrow)
update_escrow w user_id observed_version write [] = none
update_escrow w user_id observed_version write (row ∷ rows) =
    let rest = update_escrow w user_id observed_version write rows in
    if is_slot w user_id row
    then (if row.version == observed_version
        then some (
            record row { version = write.version; blob = write.blob; root_sig = write.root_sig }
            ∷ rows)
        else none)
    else elim rest [ none ↦ none | some updated ↦ some (row ∷ updated) ]

abbrev pub new_escrow : ℕ → String → EscrowWrite → RecoveryEscrow
new_escrow w user_id write = record {
  workspace_id = w;
  user_id = user_id;
  version = write.version;
  blob = write.blob;
  root_sig = write.root_sig;
  root_pk = write.root_pk;
}

-- No record was read: the first version, and an INSERT that another one may forestall.
unfoldable pub create_escrow :
    Db → ℕ → String → EscrowWrite → Result HttpError (Db × RecoveryEscrow)
create_escrow committed w user_id write = do
  raise_if (not (write.version == first_escrow_version))
      (escrow_version_conflict no_escrow_stored_version)
  raise_if (is_some (get_escrow committed w user_id))
      (escrow_version_conflict no_escrow_stored_version)
  let row = new_escrow w user_id write
  ok (record committed { escrows = committed.escrows ++ row ∷ [] }, row)

-- A record was read: a higher version, and an UPDATE guarded by the version that was read.
unfoldable pub replace_escrow :
    Db → ℕ → String → RecoveryEscrow → EscrowWrite → Result HttpError (Db × RecoveryEscrow)
unfolding update_escrow
replace_escrow committed w user_id stored write = do
  raise_if (leb write.version stored.version) (escrow_version_conflict stored.version)
  rows ←
      or_raise (update_escrow w user_id stored.version write committed.escrows)
        (escrow_version_conflict stored.version)
  ok (
    record committed { escrows = rows },
    record (new_escrow w user_id write) { root_pk = stored.root_pk },
  )

-- The signature is checked under the stored Root, or the offered one where there is none.
abbrev slot_root : Option RecoveryEscrow → Bytes → Bytes
slot_root none offered = offered
slot_root (some stored) offered = stored.root_pk

unfoldable pub write_escrow :
    Db → ℕ → String → Option RecoveryEscrow → EscrowWrite → Result HttpError (Db × RecoveryEscrow)
write_escrow committed w user_id none write = create_escrow committed w user_id write
write_escrow committed w user_id (some stored) write =
    replace_escrow committed w user_id stored write

-- `put_recovery_escrow`: it reads `reading`, and what it writes meets what is `committed` by then.
unfoldable pub put_recovery_escrow :
    Primitives → Db → Db → ℕ → User → RecoveryEscrowRequest → Result HttpError (Db × RecoveryEscrow)
put_recovery_escrow lib reading committed w user body = do
  require_derivable_workspace lib w user.user_id []
  write ← decode_escrow lib body
  let stored = get_escrow reading w user.user_id
  catch_as escrow_refusal (
      verify_escrow_signature lib w write.version write.blob write.root_sig
        (slot_root stored write.root_pk))
  write_escrow committed w user.user_id stored write
