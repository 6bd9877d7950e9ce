-- ===== src/Keys/Upload/Stored.antt =====
-- What is stored once an upload of wraps is answered.
use jeeves.Common.{
  ℕ, ◌≡◌, refl, ◌∙◌, arith, subst, false, ◌&&◌, ◌==◌, List, [], ◌∷◌, ◌++◌, Option, none, some,
  String, is_some, find-append_new, Result-cases, Option-cases, inl, inr, ok,
}
use jeeves.Common.Bytes.{Bytes, bytes_eq_iff}
use jeeves.Crypto.{Primitives}
use jeeves.Store.{Db, KeyWrap, WorkspaceEpoch, get_epoch, get_keywrap}
use jeeves.Keys.Digest.{WrapEntry}
use jeeves.Keys.Upload.{
  PutKeyWrapsRequest, EpochWrite, insert_epoch, claimed_digest, stage_epoch, stage_wraps,
  keywrap_row,
}
use jeeves.Keys.Upload.Handler.{
  write_epoch, insert_wraps, commit_upload, finish_upload, require_stored, resolve_upload_conflict,
}
use jeeves.Keys.Upload.Steps.{Stores}
use jeeves.Keys.Upload.Keeps.{
  Keeps, Keeps-trans, write_epoch-Keeps, insert_wraps-Keeps, commit_upload-Keeps,
}

-- Each entry stands in the table as it was sent.
abbrev pub AllStored : Db → ℕ → ℕ → List WrapEntry → Type 0
AllStored db w epoch [] = Unit
AllStored db w epoch (entry ∷ rest) =
    ((row : KeyWrap) × (get_keywrap db w entry.member_id epoch ≡ some row)
      × ((row.wrap ≡ entry.wrap) × (row.kex_key_id ≡ entry.kex_key_id)))
    × AllStored db w epoch rest

-- Each row stands under its primary key.
abbrev AllRows : Db → List KeyWrap → Type 0
AllRows db [] = Unit
AllRows db (row ∷ rows) =
    (get_keywrap db row.workspace_id row.member_id row.epoch ≡ some row) × AllRows db rows

insert_wraps-AllRows :
    (rows : List KeyWrap) (db db' : Db) → insert_wraps rows db ≡ some db' → AllRows db' rows
unfolding insert_wraps
insert_wraps-AllRows [] db db' h = tt
insert_wraps-AllRows (row ∷ rows) db db' h =
    let added : Db = record db { keywraps = db.keywraps ++ row ∷ [] } in
    let later : insert_wraps rows added ≡ some db' = ground arith in
    (
      (insert_wraps-Keeps rows added db' later).wraps row.workspace_id row.member_id row.epoch row (
          find-append_new
            (λ (r : KeyWrap).
              r.workspace_id == row.workspace_id
              && (r.member_id == row.member_id && r.epoch == row.epoch))
            db.keywraps row (ground arith) (ground arith)),
      insert_wraps-AllRows rows added db' later,
    )

stage_wraps-AllStored :
    (reading db : Db) (w epoch : ℕ) (entries : List WrapEntry) (rows : List KeyWrap)
    → Keeps reading db
    → stage_wraps reading w epoch entries ≡ ok rows
    → AllRows db rows
    → AllStored db w epoch entries
unfolding stage_wraps
stage_wraps-AllStored reading db w epoch [] rows keeps h all = tt
stage_wraps-AllStored reading db w epoch (entry ∷ rest) rows keeps h all =
    elim (Option-cases (get_keywrap reading w entry.member_id epoch)) [
      | inl absent ↦ elim (Result-cases (stage_wraps reading w epoch rest)) [
        | inr (e, bad) ↦ absurd (ground arith)
        | inl (later, staged) ↦
            let parts : AllRows db (keywrap_row w epoch entry ∷ later) =
              subst (AllRows db) {x = rows} {y = keywrap_row w epoch entry ∷ later} (ground arith)
                all in
            (
              (keywrap_row w epoch entry, parts.0, (refl, refl)),
              stage_wraps-AllStored reading db w epoch rest later keeps staged parts.1,
            )
      ]
      | inr (row, found) ↦ (
        (
          row,
          keeps.wraps w entry.member_id epoch row found,
          (
            ground (arith, bytes_eq_iff row.wrap entry.wrap),
            ground (arith, bytes_eq_iff row.kex_key_id entry.kex_key_id),
          ),
        ),
        stage_wraps-AllStored reading db w epoch rest rows keeps (ground arith) all,
      )
    ]

require_stored-AllStored :
    (db : Db) (w epoch : ℕ) (entries : List WrapEntry)
    → require_stored db w epoch entries ≡ ok tt
    → AllStored db w epoch entries
unfolding require_stored
require_stored-AllStored db w epoch [] h = tt
require_stored-AllStored db w epoch (entry ∷ rest) h =
    elim (Option-cases (get_keywrap db w entry.member_id epoch)) [
      | inl absent ↦ absurd (ground arith)
      | inr (row, found) ↦ (
        (
          row,
          found,
          (
            ground (arith, bytes_eq_iff row.wrap entry.wrap),
            ground (arith, bytes_eq_iff row.kex_key_id entry.kex_key_id),
          ),
        ),
        require_stored-AllStored db w epoch rest (ground arith),
      )
    ]

-- The row of the epoch holds the digest.
abbrev pub IsCommitted : Db → ℕ → ℕ → Bytes → Type 0
IsCommitted db w epoch digest =
    (row : WorkspaceEpoch) × (get_epoch db w epoch ≡ some row) × (row.keywrap_digest ≡ digest)

IsCommitted-Keeps :
    (before after : Db) (w epoch : ℕ) (digest : Bytes)
    → Keeps before after
    → IsCommitted before w epoch digest
    → IsCommitted after w epoch digest
IsCommitted-Keeps before after w epoch digest keeps (row, found, same) =
    let (kept, found_kept, same_kept) = keeps.digests w epoch row found in
    (kept, found_kept, same_kept ∙ same)

-- What is staged for the epoch commits it to the digest.
write_epoch-IsCommitted :
    (lib : Primitives) (reading committed db : Db) (w epoch : ℕ) (claimed : Option String)
    (digest escrow_wrap : Bytes) (write : EpochWrite)
    → Keeps reading committed
    → stage_epoch lib w epoch claimed digest escrow_wrap (get_epoch reading w epoch) ≡ ok write
    → write_epoch w epoch write committed ≡ some db
    → IsCommitted db w epoch digest
unfolding stage_epoch write_epoch
write_epoch-IsCommitted lib reading committed db w epoch claimed digest escrow_wrap write keeps h
      k =
    elim (Option-cases (get_epoch reading w epoch)) [
      | inr (stored, found) ↦
          IsCommitted-Keeps committed db w epoch digest
            (write_epoch-Keeps w epoch write committed db k)
            (IsCommitted-Keeps reading committed w epoch digest keeps
              (stored, found, ground (arith, bytes_eq_iff stored.keywrap_digest digest)))
      | inl absent ↦ elim (Result-cases (claimed_digest lib epoch claimed digest)) [
        | inr (e, bad) ↦ absurd (ground arith)
        | inl (_, passed) ↦
            let row : WorkspaceEpoch = record {
              workspace_id = w;
              epoch = epoch;
              keywrap_digest = digest;
              escrow_wrap = escrow_wrap;
              rotate_seq = none;
            } in
            let inserted : write ≡ insert_epoch row = ground arith in
            let added = subst (λ x. write_epoch w epoch x committed ≡ some db) inserted k in
            let fresh : is_some (get_epoch committed w epoch) ≡ false = ground arith in
            let after : record committed { epochs = committed.epochs ++ row ∷ [] } ≡ db =
              ground arith in
            (
              row,
              subst (λ (d : Db). get_epoch d w epoch ≡ some row) after
                  (find-append_new (λ (r : WorkspaceEpoch). r.workspace_id == w && r.epoch == epoch)
                    committed.epochs row fresh (ground arith)),
              refl,
            )
      ]
    ]

-- The set that another request committed first.
resolve_upload_conflict-stores :
    (db : Db) (w epoch : ℕ) (entries : List WrapEntry) (digest : Bytes) (db' : Db)
    → resolve_upload_conflict db w epoch entries digest ≡ ok db'
    → IsCommitted db' w epoch digest × AllStored db' w epoch entries
unfolding resolve_upload_conflict
resolve_upload_conflict-stores db w epoch entries digest db' h =
    elim (Option-cases (get_epoch db w epoch)) [
      | inl absent ↦ absurd (ground arith)
      | inr (row, found) ↦
          subst (λ (d : Db). IsCommitted d w epoch digest × AllStored d w epoch entries) {x = db}
            {y = db'} (ground arith)
            (
              (row, found, ground (arith, bytes_eq_iff row.keywrap_digest digest)),
              require_stored-AllStored db w epoch entries (ground arith),
            )
    ]

-- The set that this request commits.
commit_upload-Stores :
    (lib : Primitives) (reading committed db done : Db) (w epoch : ℕ) (body : PutKeyWrapsRequest)
    (entries : List WrapEntry) (escrow_wrap : Bytes)
    (s : Stores lib reading committed w epoch body entries escrow_wrap db)
    → Keeps reading committed
    → commit_upload w epoch s.write s.rows committed ≡ some done
    → IsCommitted done w epoch s.digest × AllStored done w epoch entries
unfolding commit_upload
commit_upload-Stores lib reading committed db done w epoch body entries escrow_wrap s keeps h =
    elim (Option-cases (write_epoch w epoch s.write committed)) [
      | inl failed ↦ absurd (ground arith)
      | inr (mid, written) ↦
          let inserted : insert_wraps s.rows mid ≡ some done = ground arith in
          (
            IsCommitted-Keeps mid done w epoch s.digest
                (insert_wraps-Keeps s.rows mid done inserted)
                (write_epoch-IsCommitted lib reading committed mid w epoch body.keywrap_digest_b64
                  s.digest escrow_wrap s.write keeps s.staged_epoch written),
            stage_wraps-AllStored reading done w epoch entries s.rows
                (Keeps-trans reading committed done keeps
                  (commit_upload-Keeps w epoch s.write s.rows committed done h))
                s.staged_wraps (insert_wraps-AllRows s.rows mid done inserted),
          )
    ]

pub finish_upload-Stores :
    (lib : Primitives) (reading committed db : Db) (w epoch : ℕ) (body : PutKeyWrapsRequest)
    (entries : List WrapEntry) (escrow_wrap : Bytes)
    (s : Stores lib reading committed w epoch body entries escrow_wrap db)
    → Keeps reading committed
    → IsCommitted db w epoch s.digest × AllStored db w epoch entries
unfolding finish_upload
finish_upload-Stores lib reading committed db w epoch body entries escrow_wrap s keeps =
    let finished = s.finished in
    elim (Option-cases (commit_upload w epoch s.write s.rows committed)) [
      | inl failed ↦
          resolve_upload_conflict-stores committed w epoch entries s.digest db (ground arith)
      | inr (done, committed_now) ↦
          subst (λ (d : Db). IsCommitted d w epoch s.digest × AllStored d w epoch entries)
            {x = done} {y = db} (ground arith)
            (commit_upload-Stores lib reading committed db done w epoch body entries escrow_wrap s
              keeps committed_now)
    ]
