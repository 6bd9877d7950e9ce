-- ===== src/Keys/Upload/Steps.antt =====
-- The steps that an upload of wraps that is answered went through.
use jeeves.Common.{ℕ, ◌≡◌, arith, List, Result-cases, inl, inr, ok}
use jeeves.Common.Bytes.{Bytes}
use jeeves.Crypto.{Primitives}
use jeeves.Store.{Db, Member, KeyWrap, get_epoch}
use jeeves.Keys.Digest.{WrapEntry, keywrap_digest}
use jeeves.Keys.Upload.{PutKeyWrapsRequest, EpochWrite, stage_epoch, stage_wraps}
use jeeves.Keys.Upload.Handler.{
  CheckedUpload, check_upload, finish_upload, store_upload, put_keywraps,
}

pub record Stores (lib : Primitives) (reading committed : Db) (w epoch : ℕ)
    (body : PutKeyWrapsRequest) (entries : List WrapEntry) (escrow_wrap : Bytes) (db : Db)
    : Type 0 where
  pub digest : Bytes
  pub write : EpochWrite
  pub rows : List KeyWrap
  pub digest_of : keywrap_digest lib epoch entries escrow_wrap ≡ ok digest
  pub staged_epoch :
      stage_epoch lib w epoch body.keywrap_digest_b64 digest escrow_wrap (get_epoch reading w epoch)
      ≡ ok write
  pub staged_wraps : stage_wraps reading w epoch entries ≡ ok rows
  pub finished : finish_upload committed w epoch write entries rows digest ≡ ok db

store_upload-Stores :
    (lib : Primitives) (reading committed : Db) (w epoch : ℕ) (body : PutKeyWrapsRequest)
    (entries : List WrapEntry) (escrow_wrap : Bytes) (db : Db)
    → store_upload lib reading committed w epoch body entries escrow_wrap ≡ ok db
    → Stores lib reading committed w epoch body entries escrow_wrap db
unfolding store_upload
store_upload-Stores lib reading committed w epoch body entries escrow_wrap db h =
    elim (Result-cases (keywrap_digest lib epoch entries escrow_wrap)) [
      | inr (e, bad) ↦ absurd (ground arith)
      | inl (digest, digest_of) ↦
          elim (Result-cases (
            stage_epoch lib w epoch body.keywrap_digest_b64 digest escrow_wrap
              (get_epoch reading w epoch))) [
                | inr (e, bad) ↦ absurd (ground arith)
                | inl (write, staged_epoch) ↦
                    elim (Result-cases (stage_wraps reading w epoch entries)) [
                      | inr (e, bad) ↦ absurd (ground arith)
                      | inl (rows, staged_wraps) ↦ record {
                        digest = digest;
                        write = write;
                        rows = rows;
                        digest_of = digest_of;
                        staged_epoch = staged_epoch;
                        staged_wraps = staged_wraps;
                        finished = ground arith;
                      }
                    ]
              ]
    ]

pub record Uploads (lib : Primitives) (reading committed : Db) (w : ℕ) (member : Member)
    (body : PutKeyWrapsRequest) (db : Db) : Type 0 where
  pub checked : CheckedUpload
  pub passed : check_upload lib reading w member body ≡ ok checked
  pub stores :
      Stores lib reading committed w checked.epoch body checked.entries checked.escrow_wrap db

pub put_keywraps-Uploads :
    (lib : Primitives) (reading committed : Db) (w : ℕ) (member : Member)
    (body : PutKeyWrapsRequest) (db : Db) (wraps : List KeyWrap)
    → put_keywraps lib reading committed w member body ≡ ok (db, wraps)
    → Uploads lib reading committed w member body db
unfolding put_keywraps
put_keywraps-Uploads lib reading committed w member body db wraps h =
    elim (Result-cases (check_upload lib reading w member body)) [
      | inr (e, bad) ↦ absurd (ground arith)
      | inl (checked, passed) ↦ record {
        checked = checked;
        passed = passed;
        stores =
            store_upload-Stores lib reading committed w checked.epoch body checked.entries
              checked.escrow_wrap db (ground arith);
      }
    ]
