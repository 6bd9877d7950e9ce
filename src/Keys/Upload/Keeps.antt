-- ===== src/Keys/Upload/Keeps.antt =====
-- Wraps are written once: what an upload leaves alone.
use jeeves.Common.{
  ℕ, ◌≡◌, refl, ◌∙◌, arith, List, [], ◌∷◌, ◌++◌, some, find, find-append, ◌&&◌, ◌==◌, subst,
  Option-cases, Bool-cases, inl, inr, ok, some-eq,
}
use jeeves.Common.Bytes.{Bytes}
use jeeves.Crypto.{Primitives}
use jeeves.Store.{Db, Member, KeyWrap, WorkspaceEpoch, get_epoch, get_keywrap}
use jeeves.Keys.Digest.{WrapEntry}
use jeeves.Keys.Upload.{PutKeyWrapsRequest, EpochWrite, insert_epoch, set_escrow_wrap}
use jeeves.Keys.Upload.Steps.{put_keywraps-Uploads}
use jeeves.Keys.Upload.Handler.{
  set_escrow, write_epoch, insert_wraps, commit_upload, finish_upload, resolve_upload_conflict,
  put_keywraps,
}

-- Every wrap that is stored stays as it is, and so does the digest of every epoch.
pub record Keeps (before after : Db) : Type 0 where
  pub wraps :
      (w member epoch : ℕ) (row : KeyWrap)
      → get_keywrap before w member epoch ≡ some row
      → get_keywrap after w member epoch ≡ some row
  pub digests :
      (w epoch : ℕ) (row : WorkspaceEpoch)
      → get_epoch before w epoch ≡ some row
      → (kept : WorkspaceEpoch) × (get_epoch after w epoch ≡ some kept)
        × (kept.keywrap_digest ≡ row.keywrap_digest)

pub Keeps-refl : (db : Db) → Keeps db db
Keeps-refl db = record { wraps = λ w m e row h. h; digests = λ w e row h. (row, h, refl) }

pub Keeps-trans : (a b c : Db) → Keeps a b → Keeps b c → Keeps a c
Keeps-trans a b c h k = record {
  wraps = λ w m e row p. k.wraps w m e row (h.wraps w m e row p);
  digests = λ w e row p.
      let (mid, found, same) = h.digests w e row p in
      let (last, found_last, same_last) = k.digests w e mid found in
      (last, found_last, same_last ∙ same);
}

find-set_escrow :
    (w' e' w e : ℕ) (s : Bytes) (rows : List WorkspaceEpoch) (row : WorkspaceEpoch)
    → find (λ (r : WorkspaceEpoch). r.workspace_id == w' && r.epoch == e') rows ≡ some row
    → (kept : WorkspaceEpoch) × (find
          (λ (r : WorkspaceEpoch). r.workspace_id == w' && r.epoch == e')
          (set_escrow w e s rows)
        ≡ some kept)
      × (kept.keywrap_digest ≡ row.keywrap_digest)
unfolding set_escrow
find-set_escrow w' e' w e s [] row h = absurd (ground arith)
find-set_escrow w' e' w e s (r ∷ rs) row h =
    elim (Bool-cases (r.workspace_id == w && r.epoch == e)) [
      | inl written ↦ elim (Bool-cases (r.workspace_id == w' && r.epoch == e')) [
        | inl here ↦ (record r { escrow_wrap = s }, rw (written, here) refl, ground arith)
        | inr later ↦ (row, rw (written, later) (ground arith), refl)
      ]
      | inr other ↦ elim (Bool-cases (r.workspace_id == w' && r.epoch == e')) [
        | inl here ↦ (r, rw (other, here) refl, ground arith)
        | inr later ↦
            let (kept, found, same) = find-set_escrow w' e' w e s rs row (ground arith) in
            (kept, rw (other, later) found, same)
      ]
    ]

pub write_epoch-Keeps :
    (w epoch : ℕ) (write : EpochWrite) (db db' : Db)
    → write_epoch w epoch write db ≡ some db'
    → Keeps db db'
unfolding write_epoch
write_epoch-Keeps w epoch (insert_epoch row) db db' h =
    subst (Keeps db) {x = record db { epochs = db.epochs ++ row ∷ [] }} (ground arith) (record {
      wraps = λ w m e row p. p;
      digests = λ w' e' found p. (
        found,
        find-append (λ (r : WorkspaceEpoch). r.workspace_id == w' && r.epoch == e') db.epochs
            (row ∷ []) p,
        refl,
      );
    })
write_epoch-Keeps w epoch (set_escrow_wrap s) db db' h = subst (Keeps db) (some-eq h) (record {
  wraps = λ w m e row p. p;
  digests = λ w' e' row p. find-set_escrow w' e' w epoch s db.epochs row p;
})

pub insert_wraps-Keeps :
    (rows : List KeyWrap) (db db' : Db) → insert_wraps rows db ≡ some db' → Keeps db db'
unfolding insert_wraps
insert_wraps-Keeps [] db db' h = subst (Keeps db) (some-eq h) (Keeps-refl db)
insert_wraps-Keeps (row ∷ rows) db db' h =
    let added : Db = record db { keywraps = db.keywraps ++ row ∷ [] } in
    Keeps-trans db added db'
      (record {
        wraps = λ w m e found p.
            find-append (λ (r : KeyWrap). r.workspace_id == w && (r.member_id == m && r.epoch == e))
              db.keywraps (row ∷ []) p;
        digests = λ w e found p. (found, p, refl);
      })
      (insert_wraps-Keeps rows added db' (ground arith))

pub commit_upload-Keeps :
    (w epoch : ℕ) (write : EpochWrite) (rows : List KeyWrap) (db db' : Db)
    → commit_upload w epoch write rows db ≡ some db'
    → Keeps db db'
unfolding commit_upload
commit_upload-Keeps w epoch write rows db db' h =
    elim (Option-cases (write_epoch w epoch write db)) [
      | inl failed ↦ absurd (ground arith)
      | inr (mid, written) ↦
          Keeps-trans db mid db' (write_epoch-Keeps w epoch write db mid written)
            (insert_wraps-Keeps rows mid db' (ground arith))
    ]

resolve_upload_conflict-db :
    (db : Db) (w epoch : ℕ) (entries : List WrapEntry) (computed : Bytes) (db' : Db)
    → resolve_upload_conflict db w epoch entries computed ≡ ok db'
    → db ≡ db'
unfolding resolve_upload_conflict
resolve_upload_conflict-db db w epoch entries computed db' h = ground arith

finish_upload-Keeps :
    (db : Db) (w epoch : ℕ) (write : EpochWrite) (entries : List WrapEntry) (rows : List KeyWrap)
    (computed : Bytes) (db' : Db)
    → finish_upload db w epoch write entries rows computed ≡ ok db'
    → Keeps db db'
unfolding finish_upload
finish_upload-Keeps db w epoch write entries rows computed db' h =
    elim (Option-cases (commit_upload w epoch write rows db)) [
      | inl failed ↦
          subst (Keeps db)
            (resolve_upload_conflict-db db w epoch entries computed db' (ground arith))
            (Keeps-refl db)
      | inr (done, written) ↦ commit_upload-Keeps w epoch write rows db db' (ground arith)
    ]

-- Whatever an upload that is answered wrote, every wrap that was stored stays as it is and every
-- epoch keeps the digest it had.
pub put_keywraps-Keeps :
    (lib : Primitives) (reading committed : Db) (w : ℕ) (member : Member)
    (body : PutKeyWrapsRequest) (db : Db) (wraps : List KeyWrap)
    → put_keywraps lib reading committed w member body ≡ ok (db, wraps)
    → Keeps committed db
put_keywraps-Keeps lib reading committed w member body db wraps h =
    let u = put_keywraps-Uploads lib reading committed w member body db wraps h in
    finish_upload-Keeps committed w u.checked.epoch u.stores.write u.checked.entries u.stores.rows
      u.stores.digest db u.stores.finished
