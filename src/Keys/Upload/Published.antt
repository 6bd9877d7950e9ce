-- ===== src/Keys/Upload/Published.antt =====
-- What an upload of wraps that is answered has published.
use mathlib.Core.HLevel.{⊥_prop}
use mathlib.Core.Logic.Or
use mathlib.Core.List.{Mem, mem-cons, not-mem-nil}
use jeeves.Keys.Digest.Order.{IsOneWrapEach, WrapEntry-set}
use jeeves.Common.{
  ℕ, suc, ◌≡◌, refl, sym, ap, ◌∙◌, arith, subst, true, false, ◌||◌, ◌==◌, List, [], ◌∷◌, ◌++◌,
  String, any-append, Result-cases, inl, inr, ok, ok-injective, >>=-eq-ok,
}
use jeeves.Common.Bytes.{Bytes}
use jeeves.Crypto.{Primitives}
use jeeves.Grants.{grant_index, live_roles, has_role, role_owner}
use jeeves.Store.{Db, Member, KeyWrap}
use jeeves.Keys.Digest.{WrapEntry, keywrap_digest}
use jeeves.Keys.Upload.{PutKeyWrapsRequest, KeyWrapEntry, has_wrap_for, check_entry, check_entries}
use jeeves.Keys.Upload.Handler.{CheckedUpload, check_upload, require_owner, put_keywraps}
use jeeves.Keys.Upload.Stored.{AllStored, IsCommitted, finish_upload-Stores}
use jeeves.Keys.Upload.Steps.{put_keywraps-Uploads}
use jeeves.Keys.Upload.Sent.{IsRead, check_upload-IsRead}
use jeeves.Keys.Upload.Keeps.{Keeps}

-- Each entry is for a Member that no later one is for.
abbrev pub AllDistinct : List WrapEntry → Type 0
AllDistinct [] = Unit
AllDistinct (entry ∷ rest) = (has_wrap_for rest entry.member_id ≡ false) × AllDistinct rest

has_wrap_for-append :
    (entries : List WrapEntry) (entry : WrapEntry) (id : ℕ)
    → has_wrap_for (entries ++ entry ∷ []) id ≡ (has_wrap_for entries id || (entry.member_id == id))
has_wrap_for-append entries entry id =
    any-append (λ (e : WrapEntry). e.member_id == id) entries (entry ∷ []) ∙ ground arith

AllDistinct-append :
    (entries : List WrapEntry) (entry : WrapEntry)
    → AllDistinct entries
    → has_wrap_for entries entry.member_id ≡ false
    → AllDistinct (entries ++ entry ∷ [])
AllDistinct-append [] entry h k = (refl, tt)
AllDistinct-append (x ∷ xs) entry h k = (
  ground (arith, has_wrap_for-append xs entry x.member_id),
  AllDistinct-append xs entry h.1 (ground arith),
)

check_entry-new :
    (lib : Primitives) (db : Db) (user_id : String) (index : ℕ) (entry : KeyWrapEntry)
    (seen : List WrapEntry) (checked : WrapEntry)
    → check_entry lib db user_id index entry seen ≡ ok checked
    → has_wrap_for seen checked.member_id ≡ false
unfolding check_entry
check_entry-new lib db user_id index entry seen checked h = ground arith

check_entries-AllDistinct :
    (lib : Primitives) (db : Db) (user_id : String) (index : ℕ) (wraps : List KeyWrapEntry)
    (seen entries : List WrapEntry)
    → AllDistinct seen
    → check_entries lib db user_id index wraps seen ≡ ok entries
    → AllDistinct entries
unfolding check_entries
check_entries-AllDistinct lib db user_id index [] seen entries d h =
    subst AllDistinct (ok-injective h) d
check_entries-AllDistinct lib db user_id index (entry ∷ rest) seen entries d h =
    let (checked, passed, h1) = >>=-eq-ok (check_entry lib db user_id index entry seen) _ h in
    check_entries-AllDistinct lib db user_id (suc index) rest (seen ++ checked ∷ []) entries
      (AllDistinct-append seen checked d
        (check_entry-new lib db user_id index entry seen checked passed))
      h1

check_upload-owner :
    (lib : Primitives) (db : Db) (w : ℕ) (member : Member) (body : PutKeyWrapsRequest)
    (checked : CheckedUpload)
    → check_upload lib db w member body ≡ ok checked
    → has_role (live_roles (grant_index db w) member.member_id) role_owner ≡ true
unfolding check_upload require_owner
check_upload-owner lib db w member body checked h = ground arith

check_upload-AllDistinct :
    (lib : Primitives) (db : Db) (w : ℕ) (member : Member) (body : PutKeyWrapsRequest)
    (checked : CheckedUpload)
    → check_upload lib db w member body ≡ ok checked
    → AllDistinct checked.entries
unfolding check_upload
check_upload-AllDistinct lib db w member body checked h =
    elim (Result-cases (check_entries lib db member.user_id 0 body.wraps [])) [
      | inr (e, bad) ↦ absurd (ground arith)
      | inl (entries, passed) ↦
          subst AllDistinct {x = entries} {y = checked.entries} (ground arith)
            (check_entries-AllDistinct lib db member.user_id 0 body.wraps [] entries tt passed)
    ]

not-mem-new :
    (entries : List WrapEntry) (entry : WrapEntry) (id : ℕ)
    → has_wrap_for entries id ≡ false
    → entry.member_id ≡ id
    → ¬ Mem entry entries
not-mem-new [] entry id h e m = not-mem-nil m
not-mem-new (x ∷ xs) entry id h e m =
    Or.elim ⊥_prop (mem-cons.0 m) (λ same. ground (arith, ap (λ (w : WrapEntry). w.member_id) same))
      (not-mem-new xs entry id (ground arith) e)

-- Entries for Members that differ are one wrap each, as the digest of a set asks for.
pub AllDistinct-IsOneWrapEach :
    (entries : List WrapEntry) → AllDistinct entries → IsOneWrapEach entries
AllDistinct-IsOneWrapEach [] h x y mx my same = absurd (not-mem-nil mx)
AllDistinct-IsOneWrapEach (e ∷ es) h x y mx my same =
    Or.elim (WrapEntry-set x y) (mem-cons.0 mx)
      (λ x_is.
        Or.elim (WrapEntry-set x y) (mem-cons.0 my) (λ y_is. x_is ∙ sym y_is)
          (λ later. absurd (
            not-mem-new es y e.member_id h.0 (sym same ∙ ap (λ (w : WrapEntry). w.member_id) x_is)
              later)))
      (λ earlier.
        Or.elim (WrapEntry-set x y) (mem-cons.0 my)
          (λ y_is. absurd (
            not-mem-new es x e.member_id h.0 (same ∙ ap (λ (w : WrapEntry). w.member_id) y_is)
              earlier))
          (λ later. AllDistinct-IsOneWrapEach es h.1 x y earlier later same))

-- An upload as the tables hold it.
pub record IsPublished (lib : Primitives) (reading db : Db) (w : ℕ) (member : Member)
    (body : PutKeyWrapsRequest) : Type 0 where
  pub epoch : ℕ
  pub entries : List WrapEntry
  pub escrow_wrap : Bytes
  pub digest : Bytes
  pub owner : has_role (live_roles (grant_index reading w) member.member_id) role_owner ≡ true
  pub read : IsRead lib reading member.user_id body epoch entries escrow_wrap
  pub distinct : AllDistinct entries
  pub digest_of : keywrap_digest lib epoch entries escrow_wrap ≡ ok digest
  pub committed_to : IsCommitted db w epoch digest
  pub stored : AllStored db w epoch entries

-- An upload that is answered came from an owner and leaves, whichever request committed it, each
-- wrap that the request sent stored as it was sent, for its epoch and its Member, and that epoch
-- committed to the digest of these wraps and the escrow wrap that was sent. The Members differ and
-- are of the caller's User. The rows that were read are still there at the commit.
pub put_keywraps-IsPublished :
    (lib : Primitives) (reading committed : Db) (w : ℕ) (member : Member)
    (body : PutKeyWrapsRequest) (db : Db) (wraps : List KeyWrap)
    → Keeps reading committed
    → put_keywraps lib reading committed w member body ≡ ok (db, wraps)
    → IsPublished lib reading db w member body
put_keywraps-IsPublished lib reading committed w member body db wraps keeps h =
    let u = put_keywraps-Uploads lib reading committed w member body db wraps h in
    let (committed_to, stored) =
      finish_upload-Stores lib reading committed db w u.checked.epoch body u.checked.entries
        u.checked.escrow_wrap u.stores keeps in
    record {
      epoch = u.checked.epoch;
      entries = u.checked.entries;
      escrow_wrap = u.checked.escrow_wrap;
      digest = u.stores.digest;
      owner = check_upload-owner lib reading w member body u.checked u.passed;
      read = check_upload-IsRead lib reading w member body u.checked u.passed;
      distinct = check_upload-AllDistinct lib reading w member body u.checked u.passed;
      digest_of = u.stores.digest_of;
      committed_to = committed_to;
      stored = stored;
    }
