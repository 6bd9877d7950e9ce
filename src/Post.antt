-- ===== src/Post.antt =====
-- `post_ops` of backend/app/sync/routes.py: the loop that parses a batch, and the handler.
pub mod Parsing
pub mod Safety
use jeeves.Common.{
  ℕ, suc, Bool, true, false, not, List, [], ◌∷◌, Option, none, some, String, ◌==◌, ltb, is_some,
  any, length, if◌then◌else◌, Result, ok, err, ◌>>=◌, ◌>>◌, raise_if, or_raise, catch_as,
}
use jeeves.Common.Bytes.{Bytes}
use jeeves.Codes.{Code}
use jeeves.Crypto.{Primitives}
use jeeves.Envelope.{EnvelopeError, reason}
use jeeves.Envelope.Header.{OpHeader, parse}
use jeeves.Envelope.Framing.{minimum_envelope_bytes_for_suite}
use jeeves.Envelope.Wire.{check_served}
use jeeves.Store.{Db, Member, HttpError, number, unprocessable, forbidden, conflict, get_workspace}
use jeeves.Ids.{require_derivable_workspace}
use jeeves.Log.{ParsedOp, OpResult, Appended, refused, integrity_error, appended, append_batch}
use jeeves.Authorize.Walk.{
  Walk, Admitted, ControlAdmission, founded, registered, granted, revoked, rotated,
  verify_and_authorize,
}
use jeeves.Materialise.{materialise_control, materialise_prunes}

abbrev pub max_ops_per_batch : ℕ
max_ops_per_batch = 1000

-- The `try` of the loop: the header, the length floor of its suite, and the served pairs.
unfoldable pub parse_served : Bytes → Result EnvelopeError OpHeader
parse_served bytes = do
  header ← parse bytes
  raise_if (ltb (length bytes) (minimum_envelope_bytes_for_suite header.suite))
      EnvelopeError.envelope_too_short
  check_served header
  ok header

-- One turn of the parsing loop.
unfoldable pub parse_op : Primitives → ℕ → Member → ℕ → String → Result HttpError ParsedOp
parse_op lib w member index encoded = do
  bytes ←
      or_raise (lib.b64decode encoded)
        (unprocessable Code.malformed_base64 (number "index" index ∷ []))
  header ←
      catch_as (λ (e : EnvelopeError). unprocessable (reason e) (number "index" index ∷ []))
        (parse_served bytes)
  raise_if (not (header.workspace_id == w))
      (unprocessable Code.workspace_mismatch (number "index" index ∷ []))
  raise_if (not (header.author_member_id == member.member_id))
      (forbidden Code.author_member_mismatch (number "index" index ∷ []))
  ok (record { envelope = bytes; header = header })

unfoldable pub parse_ops :
    Primitives → ℕ → Member → ℕ → List String → Result HttpError (List ParsedOp)
parse_ops lib w member index [] = ok []
parse_ops lib w member index (encoded ∷ rest) = do
  op ← parse_op lib w member index encoded
  ops ← parse_ops lib w member (suc index) rest
  ok (op ∷ ops)

-- The states of the database that one request meets, in order: what the authorization reads, what
-- the append reads and what is committed by the time of its INSERTs, the same two again for the
-- retry, and what is committed where the final commit fails, `none` where it goes through.
pub record Interleaving : Type 0 where
  pub authorizing : Db
  pub reading : Db
  pub inserting : Db
  pub reading_again : Db
  pub inserting_again : Db
  pub commit_conflict : Option Db

-- The answer, with the Members whose transport is revoked and whether the hub is notified.
pub data Posted : Type 0 where
  refused_with : HttpError → Posted
  uncaught_integrity_error : Posted
  posted : Db → List OpResult → List ℕ → Bool → Posted

unfoldable pub retried : Appended → Result HttpError (Db × List OpResult)
retried (refused e) = err e
retried integrity_error = err (conflict Code.author_chain_conflict [])
retried (appended db results) = ok (db, results)

-- The append, and once more where a constraint rejected it.
unfoldable pub append_with_retry :
    Interleaving → ℕ → List ParsedOp → Appended → Result HttpError (Db × List OpResult)
append_with_retry i w parsed (refused e) = err e
append_with_retry i w parsed integrity_error =
    retried (append_batch i.reading_again i.inserting_again w parsed)
append_with_retry i w parsed (appended db results) = ok (db, results)

unfoldable pub genesis_index : List ControlAdmission → Option ℕ
genesis_index [] = none
genesis_index (a ∷ rest) =
    let later = genesis_index rest in
    elim a.admitted [
      | founded founder ↦ some a.index
      | registered registration ↦ later
      | granted grant ↦ later
      | revoked certificate ↦ later
      | rotated rotate ↦ later
    ]

-- `_resolve_commit_conflict`: the conflict, or `none` for the exception handed back.
unfoldable pub resolve_commit_conflict : Db → ℕ → Option ℕ → Option HttpError
resolve_commit_conflict db w none = none
resolve_commit_conflict db w (some index) =
    if is_some (get_workspace db w)
    then some (conflict Code.genesis_not_first (number "index" index ∷ []))
    else none

abbrev refused_or_uncaught : Option HttpError → Posted
refused_or_uncaught none = uncaught_integrity_error
refused_or_uncaught (some e) = refused_with e

unfoldable pub commit : Option Db → ℕ → List ControlAdmission → Db → List OpResult → List ℕ → Posted
unfolding genesis_index
commit none w control db results revoked_members =
    posted db results revoked_members (any (λ (r : OpResult). not r.duplicate) results)
commit (some committed) w control db results revoked_members =
    refused_or_uncaught (resolve_commit_conflict committed w (genesis_index control))

-- From the append to the answer.
unfoldable pub store_batch : Interleaving → ℕ → ℕ → List ParsedOp → Walk → Result HttpError Posted
store_batch i now w parsed admissions = do
  stored ← append_with_retry i w parsed (append_batch i.reading i.inserting w parsed)
  let control = materialise_control now w admissions.control stored.1 stored.0
  db ← materialise_prunes w admissions.prunes stored.1 control.0
  ok (commit i.commit_conflict w admissions.control db stored.1 control.1)

unfoldable pub post_parsed :
    Primitives → Interleaving → ℕ → ℕ → Member → List ParsedOp → Result HttpError Posted
post_parsed lib i now w member [] = ok (posted i.authorizing [] [] false)
post_parsed lib i now w member (op ∷ ops) =
    verify_and_authorize lib i.authorizing w member (op ∷ ops) >>= λ admissions.
    store_batch i now w (op ∷ ops) admissions

abbrev pub too_large : HttpError
too_large = record {
  status = 413;
  code = Code.batch_too_large;
  detail = number "max_ops" max_ops_per_batch ∷ [];
}

-- `post_ops`
unfoldable pub post_ops :
    Primitives → Interleaving → ℕ → ℕ → Member → List String → Result HttpError Posted
post_ops lib i now w member body = do
  require_derivable_workspace lib w member.user_id []
  raise_if (ltb max_ops_per_batch (length body)) too_large
  parsed ← parse_ops lib w member 0 body
  post_parsed lib i now w member parsed
