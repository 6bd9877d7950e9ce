-- ===== src/Keys/Upload/Sent.antt =====
-- That what the handler of an upload checks is what the request sent.
use jeeves.Common.{
  ℕ, suc, ◌≡◌, sym, ◌∙◌, arith, subst, List, [], ◌∷◌, ◌++◌, append_assoc, append-nil, some, String,
  Option-cases, Result-cases, inl, inr, ok, ok-injective, >>=-eq-ok,
}
use jeeves.Common.Bytes.{Bytes}
use jeeves.Crypto.{Primitives}
use jeeves.Json.{ℤ, pos, negsuc}
use jeeves.Store.{Db, Member}
use jeeves.Keys.Digest.{WrapEntry}
use jeeves.Keys.Upload.{
  PutKeyWrapsRequest, KeyWrapEntry, require_key_epoch, member_of_user, check_entry, check_entries,
}
use jeeves.Keys.Upload.Handler.{CheckedUpload, check_upload}

-- An entry is the one of the request with its two texts decoded, for a Member of the User.
pub record IsSent (lib : Primitives) (db : Db) (user_id : String) (sent : KeyWrapEntry)
    (entry : WrapEntry) : Type 0 where
  pub member : entry.member_id ≡ sent.member_id
  pub of_user : (row : Member) × (member_of_user db user_id sent.member_id ≡ some row)
  pub kex_key_id : lib.b64decode sent.kex_key_id_b64 ≡ some entry.kex_key_id
  pub wrap : lib.b64decode sent.wrap_b64 ≡ some entry.wrap

-- One entry for each that was sent, in the order of the request.
pub data AreSent (lib : Primitives) (db : Db) (user_id : String)
    : List KeyWrapEntry → List WrapEntry → Type 0 where
  none_sent : AreSent lib db user_id [] []
  sent_first :
      {sent : KeyWrapEntry} {entry : WrapEntry} {wraps : List KeyWrapEntry}
      {entries : List WrapEntry}
      → IsSent lib db user_id sent entry
      → AreSent lib db user_id wraps entries
      → AreSent lib db user_id (sent ∷ wraps) (entry ∷ entries)

check_entry-IsSent :
    (lib : Primitives) (db : Db) (user_id : String) (index : ℕ) (sent : KeyWrapEntry)
    (seen : List WrapEntry) (checked : WrapEntry)
    → check_entry lib db user_id index sent seen ≡ ok checked
    → IsSent lib db user_id sent checked
unfolding check_entry
check_entry-IsSent lib db user_id index sent seen checked h =
    elim (Option-cases (member_of_user db user_id sent.member_id)) [
      | inl absent ↦ absurd (ground arith)
      | inr (row, found) ↦ record {
        member = ground arith;
        of_user = (row, found);
        kex_key_id = ground arith;
        wrap = ground arith;
      }
    ]

check_entries-AreSent :
    (lib : Primitives) (db : Db) (user_id : String) (index : ℕ) (wraps : List KeyWrapEntry)
    (seen entries : List WrapEntry)
    → check_entries lib db user_id index wraps seen ≡ ok entries
    → (added : List WrapEntry) × (entries ≡ seen ++ added) × AreSent lib db user_id wraps added
unfolding check_entries
check_entries-AreSent lib db user_id index [] seen entries h =
    ([], sym (ok-injective h) ∙ sym (append-nil seen), none_sent)
check_entries-AreSent lib db user_id index (sent ∷ rest) seen entries h =
    let (checked, passed, h1) = >>=-eq-ok (check_entry lib db user_id index sent seen) _ h in
    let (added, joined, are_sent) =
      check_entries-AreSent lib db user_id (suc index) rest (seen ++ checked ∷ []) entries h1 in
    (
      checked ∷ added,
      joined ∙ append_assoc seen (checked ∷ []) added,
      sent_first (check_entry-IsSent lib db user_id index sent seen checked passed) are_sent,
    )

require_key_epoch-pos : (raw : ℤ) (epoch : ℕ) → require_key_epoch raw ≡ ok epoch → raw ≡ pos epoch
unfolding require_key_epoch
require_key_epoch-pos (pos n) epoch h = ground arith
require_key_epoch-pos (negsuc n) epoch h = cc

-- What the request sent, once it is decoded.
pub record IsRead (lib : Primitives) (db : Db) (user_id : String) (body : PutKeyWrapsRequest)
    (epoch : ℕ) (entries : List WrapEntry) (escrow_wrap : Bytes) : Type 0 where
  pub epoch_sent : body.epoch ≡ pos epoch
  pub wraps_sent : AreSent lib db user_id body.wraps entries
  pub escrow_sent : lib.b64decode body.escrow_wrap_b64 ≡ some escrow_wrap

pub check_upload-IsRead :
    (lib : Primitives) (db : Db) (w : ℕ) (member : Member) (body : PutKeyWrapsRequest)
    (checked : CheckedUpload)
    → check_upload lib db w member body ≡ ok checked
    → IsRead lib db member.user_id body checked.epoch checked.entries checked.escrow_wrap
unfolding check_upload
check_upload-IsRead lib db w member body checked h =
    elim (Result-cases (check_entries lib db member.user_id 0 body.wraps [])) [
      | inr (e, bad) ↦ absurd (ground arith)
      | inl (entries, passed) ↦ record {
        epoch_sent = require_key_epoch-pos body.epoch checked.epoch (ground arith);
        wraps_sent =
            let (added, joined, are_sent) =
              check_entries-AreSent lib db member.user_id 0 body.wraps [] entries passed in
            subst (AreSent lib db member.user_id body.wraps) {x = added} {y = checked.entries}
              (ground (arith, joined)) are_sent;
        escrow_sent = ground arith;
      }
    ]
