-- ===== src/Post/Safety.antt =====
-- A POST that succeeds leaves a log, whatever other requests commit in between.
use jeeves.Common.{
  ℕ, ◌≡◌, ◌⊎◌, inl, inr, refl, ◌∙◌, subst, arith, Bool, not, List, [], ◌∷◌, Option, some, none,
  String, any, ok, >>=-eq-ok, ok-injective,
}
use jeeves.Common.{length, ltb, raise_if}
use jeeves.Crypto.{Primitives}
use jeeves.Ids.{require_derivable_workspace}
use jeeves.Store.{Db, Member}
use jeeves.Log.{ParsedOp, OpResult, Appended, refused, integrity_error, appended, append_batch}
use jeeves.Log.Chain.{IsLog}
use jeeves.Log.Append.{Behind, append_batch-IsLog}
use jeeves.Authorize.Walk.{Walk, ControlAdmission, verify_and_authorize}
use jeeves.Materialise.{materialise_control, materialise_prunes}
use jeeves.Materialise.Stamps.{materialise_control-log, materialise_prunes-Keeps}
use jeeves.Post.{
  Interleaving, posted, retried, append_with_retry, max_ops_per_batch, too_large, post_parsed,
  commit, store_batch, post_ops, parse_ops,
}

-- The states that a request meets are logs, and no author is ahead in what an append reads of what
-- is committed when it inserts.
pub record IsSound (i : Interleaving) (w : ℕ) : Type 0 where
  pub authorizing : IsLog i.authorizing.ops i.authorizing.next_seq
  pub behind : Behind i.reading.ops i.inserting.ops w
  pub inserting : IsLog i.inserting.ops i.inserting.next_seq
  pub behind_again : Behind i.reading_again.ops i.inserting_again.ops w
  pub inserting_again : IsLog i.inserting_again.ops i.inserting_again.next_seq

abbrev DbIsLog : Db → Type 0
DbIsLog db = IsLog db.ops db.next_seq

-- The append that went through.
abbrev Stored : Interleaving → ℕ → List ParsedOp → Db × List OpResult → Type 0
Stored i w parsed r =
    (append_batch i.reading i.inserting w parsed ≡ appended r.0 r.1)
    ⊎ (append_batch i.reading_again i.inserting_again w parsed ≡ appended r.0 r.1)

retried-eq-ok : (a : Appended) (r : Db × List OpResult) → retried a ≡ ok r → a ≡ appended r.0 r.1
unfolding retried
retried-eq-ok (refused e) r h = cc
retried-eq-ok integrity_error r h = cc
retried-eq-ok (appended db results) r h =
    subst (λ (q : Db × List OpResult). appended db results ≡ appended q.0 q.1) (ok-injective h) refl

append_with_retry-Stored :
    (i : Interleaving) (w : ℕ) (parsed : List ParsedOp) (a : Appended) (r : Db × List OpResult)
    → append_with_retry i w parsed a ≡ ok r
    → (a ≡ appended r.0 r.1)
      ⊎ (append_batch i.reading_again i.inserting_again w parsed ≡ appended r.0 r.1)
unfolding append_with_retry
append_with_retry-Stored i w parsed (refused e) r h = cc
append_with_retry-Stored i w parsed integrity_error r h =
    inr (retried-eq-ok (append_batch i.reading_again i.inserting_again w parsed) r h)
append_with_retry-Stored i w parsed (appended db results) r h = inl (
    subst (λ (q : Db × List OpResult). appended db results ≡ appended q.0 q.1) (ok-injective h)
      refl)

Stored-IsLog :
    (i : Interleaving) (w : ℕ) (parsed : List ParsedOp) (r : Db × List OpResult)
    → IsSound i w
    → Stored i w parsed r
    → DbIsLog r.0
Stored-IsLog i w parsed r sound (inl h) =
    append_batch-IsLog i.reading i.inserting r.0 w parsed r.1 sound.behind sound.inserting h
Stored-IsLog i w parsed r sound (inr h) =
    append_batch-IsLog i.reading_again i.inserting_again r.0 w parsed r.1 sound.behind_again
      sound.inserting_again h

commit-posted :
    (conflict : Option Db) (w : ℕ) (control : List ControlAdmission) (d db : Db)
    (rs results : List OpResult) (ms members : List ℕ) (poked : Bool)
    → commit conflict w control d rs ms ≡ posted db results members poked
    → (conflict ≡ none)
      × (d ≡ db)
      × (rs ≡ results)
      × (any (λ (r : OpResult). not r.duplicate) rs ≡ poked)
unfolding commit
commit-posted none w control d db rs results ms members poked h = (refl, cc, cc, cc)
commit-posted (some committed) w control d db rs results ms members poked h = absurd (ground arith)

-- What a stored batch has gone through.
pub record Storing (i : Interleaving) (now w : ℕ) (parsed : List ParsedOp) (admissions : Walk)
    (db : Db) (results : List OpResult) (poked : Bool) : Type 0 where
  pub inserted : Db
  pub stored :
      (append_batch i.reading i.inserting w parsed ≡ appended inserted results)
      ⊎ (append_batch i.reading_again i.inserting_again w parsed ≡ appended inserted results)
  pub pruned :
      materialise_prunes w admissions.prunes results
        (materialise_control now w admissions.control results inserted).0
      ≡ ok db
  pub news : any (λ (r : OpResult). not r.duplicate) results ≡ poked

store_batch-Storing :
    (i : Interleaving) (now w : ℕ) (parsed : List ParsedOp) (admissions : Walk) (db : Db)
    (results : List OpResult) (members : List ℕ) (poked : Bool)
    → store_batch i now w parsed admissions ≡ ok (posted db results members poked)
    → Storing i now w parsed admissions db results poked
unfolding store_batch
store_batch-Storing i now w parsed admissions db results members poked h =
    let (r, appends, h1) =
      >>=-eq-ok (append_with_retry i w parsed (append_batch i.reading i.inserting w parsed)) _ h in
    let (d, prunes, h2) =
      >>=-eq-ok
        (materialise_prunes w admissions.prunes r.1
          (materialise_control now w admissions.control r.1 r.0).0)
        _ h1 in
    let (_, same_db, same_results, poke) =
      commit-posted i.commit_conflict w admissions.control d db r.1 results _ members poked
        (ok-injective h2) in
    record {
      inserted = r.0;
      stored =
          subst (λ (rs : List OpResult). Stored i w parsed (r.0, rs)) same_results
            (append_with_retry-Stored i w parsed (append_batch i.reading i.inserting w parsed) r
              appends);
      pruned =
          subst
            (λ (rs : List OpResult).
              materialise_prunes w admissions.prunes rs
                (materialise_control now w admissions.control rs r.0).0
              ≡ ok db)
            same_results (prunes ∙ cc);
      news =
          subst (λ (rs : List OpResult). any (λ (r : OpResult). not r.duplicate) rs ≡ poked)
            same_results poke;
    }

Storing-IsLog :
    (i : Interleaving) (now w : ℕ) (parsed : List ParsedOp) (admissions : Walk) (db : Db)
    (results : List OpResult) (poked : Bool)
    → IsSound i w
    → Storing i now w parsed admissions db results poked
    → DbIsLog db
Storing-IsLog i now w parsed admissions db results poked sound s =
    let log = materialise_control-log now w admissions.control results s.inserted in
    (materialise_prunes-Keeps w admissions.prunes results _ db s.pruned).log
      (rw (log.0, log.1) (Stored-IsLog i w parsed (s.inserted, results) sound s.stored))

posted-db :
    {a b : Db} {rs rs' : List OpResult} {ms ms' : List ℕ} {p p' : Bool}
    → posted a rs ms p ≡ posted b rs' ms' p'
    → a ≡ b
posted-db h = cc

post_parsed-IsLog :
    (lib : Primitives) (i : Interleaving) (now w : ℕ) (member : Member) (parsed : List ParsedOp)
    (db : Db) (results : List OpResult) (members : List ℕ) (poked : Bool)
    → IsSound i w
    → post_parsed lib i now w member parsed ≡ ok (posted db results members poked)
    → DbIsLog db
unfolding post_parsed
post_parsed-IsLog lib i now w member [] db results members poked sound h =
    subst DbIsLog (posted-db (ok-injective h)) sound.authorizing
post_parsed-IsLog lib i now w member (op ∷ ops) db results members poked sound h =
    let (admissions, _, h1) =
      >>=-eq-ok (verify_and_authorize lib i.authorizing w member (op ∷ ops)) _ h in
    Storing-IsLog i now w (op ∷ ops) admissions db results poked sound
      (store_batch-Storing i now w (op ∷ ops) admissions db results members poked h1)

-- A POST that is answered with results leaves a log: every author's ops number 1, 2, 3, ... without
-- a gap or a fork, no op of an author stands twice, and the transport seqs ascend. The states that
-- the request meets may change under it, as long as they are logs themselves and no author is ahead
-- in a state that is read of the state that is inserted into.
pub post_ops-IsLog :
    (lib : Primitives) (i : Interleaving) (now w : ℕ) (member : Member) (body : List String)
    (db : Db)
    → (results : List OpResult) (members : List ℕ) (poked : Bool) → IsSound i w
    → post_ops lib i now w member body ≡ ok (posted db results members poked)
    → IsLog db.ops db.next_seq
unfolding post_ops
post_ops-IsLog lib i now w member body db results members poked sound h =
    let (_, _, h1) = >>=-eq-ok (require_derivable_workspace lib w member.user_id []) _ h in
    let (_, _, h2) = >>=-eq-ok (raise_if (ltb max_ops_per_batch (length body)) too_large) _ h1 in
    let (parsed, _, h3) = >>=-eq-ok (parse_ops lib w member 0 body) _ h2 in
    post_parsed-IsLog lib i now w member parsed db results members poked sound h3
