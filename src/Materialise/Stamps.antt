-- ===== src/Materialise/Stamps.antt =====
-- Stamps are written once, and stamping deletes no row.
use jeeves.Common.{
  ℕ, zero, suc, ◌≡◌, refl, ◌∙◌, arith, subst, List, [], ◌∷◌, ◌++◌, Option, none, some, ◌==◌, any,
  length, get_elem?, map, ok, >>=-eq-ok, ok-injective, inl, inr, Bool-cases,
}
use jeeves.Store.{Db, Op, Grant}
use jeeves.Prune.{PruneTarget}
use jeeves.Log.{OpResult, is_by, is_op}
use jeeves.Log.Chain.{chain, NoRepeat, Ascends, IsLog}
use jeeves.Authorize.Prunes.{PruneAdmission}
use jeeves.Authorize.Walk.{
  Admitted, ControlAdmission, founded, registered, granted, revoked, rotated,
}
use jeeves.Materialise.{
  stamp_grant, stamp_revocation, Materialised, materialise_op, materialise_result, materialise_all,
  materialise_control, is_prunable, stamp_ops, stamped_count, stamp_prune, prune_result,
  materialise_prunes,
}

stamp_revocation-keeps :
    (w g seq i : ℕ) (rows : List Grant) (row : Grant) (at : ℕ)
    → get_elem? rows i ≡ some row
    → row.revoked_by_seq ≡ some at
    → get_elem? (stamp_revocation w g seq rows) i ≡ some row
unfolding stamp_revocation stamp_grant
stamp_revocation-keeps w g seq i [] row at h r = cc
stamp_revocation-keeps w g seq zero (x ∷ rows) row at h r = ground arith
stamp_revocation-keeps w g seq (suc i) (x ∷ rows) row at h r =
    ground (arith, stamp_revocation-keeps w g seq i rows row at h r)

get_elem?-append :
    (rows ys : List Grant) (i : ℕ) (row : Grant)
    → get_elem? rows i ≡ some row
    → get_elem? (rows ++ ys) i ≡ some row
get_elem?-append [] ys i row h = cc
get_elem?-append (x ∷ rows) ys zero row h = h
get_elem?-append (x ∷ rows) ys (suc i) row h = get_elem?-append rows ys i row h

-- A grant row that carries its revocation.
abbrev pub RevokedAt : Db → ℕ → Grant → Type 0
RevokedAt db i row = get_elem? db.grants i ≡ some row

materialise_op-keeps :
    (now w seq : ℕ) (a : Admitted) (m : Materialised) (i : ℕ) (row : Grant) (at : ℕ)
    → row.revoked_by_seq ≡ some at
    → RevokedAt m.db i row
    → RevokedAt (materialise_op now w seq a m).db i row
unfolding materialise_op
materialise_op-keeps now w seq (founded c) m i row at r h = h
materialise_op-keeps now w seq (registered c) m i row at r h = h
materialise_op-keeps now w seq (granted c) m i row at r h = get_elem?-append m.db.grants _ i row h
materialise_op-keeps now w seq (revoked c) m i row at r h =
    stamp_revocation-keeps w c.grant_id seq i m.db.grants row at h r
materialise_op-keeps now w seq (rotated c) m i row at r h = h

materialise_result-keeps :
    (now w : ℕ) (result : Option OpResult) (a : Admitted) (m : Materialised) (i : ℕ) (row : Grant)
    (at : ℕ)
    → row.revoked_by_seq ≡ some at
    → RevokedAt m.db i row
    → RevokedAt (materialise_result now w result a m).db i row
unfolding materialise_result
materialise_result-keeps now w none a m i row at r h = h
materialise_result-keeps now w (some result) a m i row at r h = elim (Bool-cases result.duplicate) [
  | inl d ↦ rw (d) h
  | inr d ↦ rw (d) (materialise_op-keeps now w result.seq a m i row at r h)
]

materialise_all-keeps :
    (now w : ℕ) (results : List OpResult) (admissions : List ControlAdmission) (m : Materialised)
    (i : ℕ) (row : Grant) (at : ℕ)
    → row.revoked_by_seq ≡ some at
    → RevokedAt m.db i row
    → RevokedAt (materialise_all now w results admissions m).db i row
unfolding materialise_all
materialise_all-keeps now w results [] m i row at r h = h
materialise_all-keeps now w results (a ∷ rest) m i row at r h =
    materialise_all-keeps now w results rest _ i row at r
      (materialise_result-keeps now w (get_elem? results a.index) a.admitted m i row at r h)

-- A grant row that was revoked before stays as it is, its `revoked_by_seq` with it, whatever control
-- ops a batch materialises.
pub materialise_control-keeps_revoked :
    (now w : ℕ) (admissions : List ControlAdmission) (results : List OpResult) (db : Db) (i : ℕ)
    (row : Grant) (at : ℕ)
    → get_elem? db.grants i ≡ some row
    → row.revoked_by_seq ≡ some at
    → get_elem? (materialise_control now w admissions results db).0.grants i ≡ some row
unfolding materialise_control
materialise_control-keeps_revoked now w admissions results db i row at h r =
    materialise_all-keeps now w results admissions (record { db = db; revoked_from = [] }) i row at
      r h

-- The log of a database, which only prunes touch here.
abbrev SameLog : Db → Db → Type 0
SameLog db db' = (db'.ops ≡ db.ops) × (db'.next_seq ≡ db.next_seq)

materialise_op-log :
    (now w seq : ℕ) (a : Admitted) (m : Materialised)
    → SameLog m.db (materialise_op now w seq a m).db
unfolding materialise_op
materialise_op-log now w seq (founded c) m = (refl, refl)
materialise_op-log now w seq (registered c) m = (refl, refl)
materialise_op-log now w seq (granted c) m = (refl, refl)
materialise_op-log now w seq (revoked c) m = (refl, refl)
materialise_op-log now w seq (rotated c) m = (refl, refl)

materialise_result-log :
    (now w : ℕ) (result : Option OpResult) (a : Admitted) (m : Materialised)
    → SameLog m.db (materialise_result now w result a m).db
unfolding materialise_result
materialise_result-log now w none a m = (refl, refl)
materialise_result-log now w (some result) a m = elim (Bool-cases result.duplicate) [
  | inl d ↦ rw (d) (refl, refl)
  | inr d ↦ rw (d) (materialise_op-log now w result.seq a m)
]

materialise_all-log :
    (now w : ℕ) (results : List OpResult) (admissions : List ControlAdmission) (m : Materialised)
    → SameLog m.db (materialise_all now w results admissions m).db
unfolding materialise_all
materialise_all-log now w results [] m = (refl, refl)
materialise_all-log now w results (a ∷ rest) m =
    let here = materialise_result-log now w (get_elem? results a.index) a.admitted m in
    let later =
      materialise_all-log now w results rest
        (materialise_result now w (get_elem? results a.index) a.admitted m) in
    (later.0 ∙ here.0, later.1 ∙ here.1)

pub materialise_control-log :
    (now w : ℕ) (admissions : List ControlAdmission) (results : List OpResult) (db : Db)
    → ((materialise_control now w admissions results db).0.ops ≡ db.ops)
      × ((materialise_control now w admissions results db).0.next_seq ≡ db.next_seq)
unfolding materialise_control
materialise_control-log now w admissions results db =
    materialise_all-log now w results admissions (record { db = db; revoked_from = [] })

-- Prunes.
module _ (w : ℕ) (seqs : List ℕ) (by : ℕ) where
  stamp_ops-chain :
      (rows : List Op) (v a : ℕ) → chain (stamp_ops w seqs by rows) v a ≡ chain rows v a
  unfolding stamp_ops chain is_by
  stamp_ops-chain [] v a = refl
  stamp_ops-chain (row ∷ rows) v a = ground (arith, stamp_ops-chain rows v a)

  stamp_ops-any :
      (rows : List Op) (v a id : ℕ)
      → any (is_op v a id) (stamp_ops w seqs by rows) ≡ any (is_op v a id) rows
  unfolding stamp_ops is_op is_by
  stamp_ops-any [] v a id = refl
  stamp_ops-any (row ∷ rows) v a id = ground (arith, stamp_ops-any rows v a id)

  stamp_ops-NoRepeat : (rows : List Op) → NoRepeat rows → NoRepeat (stamp_ops w seqs by rows)
  unfolding stamp_ops
  stamp_ops-NoRepeat [] h = tt
  stamp_ops-NoRepeat (row ∷ rows) h =
      let head = stamp_ops-any rows row.workspace_id row.author_member_id row.op_id ∙ h.0 in
      let tail = stamp_ops-NoRepeat rows h.1 in
      elim (Bool-cases (is_prunable w seqs row)) [
        | inl p ↦ rw (p) (head, tail)
        | inr p ↦ rw (p) (head, tail)
      ]

  stamp_ops-Ascends :
      (from to : ℕ) (rows : List Op)
      → Ascends from rows to
      → Ascends from (stamp_ops w seqs by rows) to
  unfolding stamp_ops
  stamp_ops-Ascends from to [] h = h
  stamp_ops-Ascends from to (row ∷ rows) h =
      let tail = stamp_ops-Ascends (suc row.seq) to rows h.1 in
      elim (Bool-cases (is_prunable w seqs row)) [
        | inl p ↦ rw (p) (h.0, tail)
        | inr p ↦ rw (p) (h.0, tail)
      ]

  stamp_ops-IsLog :
      (rows : List Op) (next : ℕ) → IsLog rows next → IsLog (stamp_ops w seqs by rows) next
  stamp_ops-IsLog rows next log = record {
    chains = λ v a. rw (stamp_ops-chain rows v a) (log.chains v a);
    no_repeat = stamp_ops-NoRepeat rows log.no_repeat;
    ascends = stamp_ops-Ascends 1 next rows log.ascends;
  }

  stamp_ops-keeps :
      (rows : List Op) (i : ℕ) (row : Op) (at : ℕ)
      → get_elem? rows i ≡ some row
      → row.compacted_by ≡ some at
      → get_elem? (stamp_ops w seqs by rows) i ≡ some row
  unfolding stamp_ops is_prunable
  stamp_ops-keeps [] i row at h r = cc
  stamp_ops-keeps (x ∷ rows) zero row at h r = ground arith
  stamp_ops-keeps (x ∷ rows) (suc i) row at h r = ground (arith, stamp_ops-keeps rows i row at h r)

  stamp_ops-length : (rows : List Op) → length (stamp_ops w seqs by rows) ≡ length rows
  unfolding stamp_ops
  stamp_ops-length [] = refl
  stamp_ops-length (row ∷ rows) = ground (arith, stamp_ops-length rows)

-- What one prune leaves: the log's invariant, every row, and every stamp.
pub record Keeps (db db' : Db) : Type 0 where
  pub log : IsLog db.ops db.next_seq → IsLog db'.ops db'.next_seq
  pub rows : length db'.ops ≡ length db.ops
  pub stamps :
      (i : ℕ) (row : Op) (at : ℕ)
      → get_elem? db.ops i ≡ some row
      → row.compacted_by ≡ some at
      → get_elem? db'.ops i ≡ some row

stamp_prune-Keeps :
    (w by : ℕ) (prune : PruneAdmission) (db db' : Db)
    → stamp_prune w prune by db ≡ ok db'
    → Keeps db db'
unfolding stamp_prune
stamp_prune-Keeps w by prune db db' h =
    let seqs = map (λ (t : PruneTarget). t.seq) prune.targets in
    elim (Bool-cases (stamped_count w seqs db.ops == length seqs)) [
      | inr short ↦ cc (rw short at h)
      | inl full ↦ subst (Keeps db) (ok-injective (rw full at h)) (record {
        log = stamp_ops-IsLog w seqs by db.ops db.next_seq;
        rows = stamp_ops-length w seqs by db.ops;
        stamps = stamp_ops-keeps w seqs by db.ops;
      })
    ]

prune_result-Keeps :
    (w : ℕ) (result : Option OpResult) (prune : PruneAdmission) (db db' : Db)
    → prune_result w result prune db ≡ ok db'
    → Keeps db db'
unfolding prune_result
prune_result-Keeps w none prune db db' h =
    subst (Keeps db) (ok-injective h)
      (record { log = λ l. l; rows = refl; stamps = λ i row at g r. g })
prune_result-Keeps w (some result) prune db db' h = elim (Bool-cases result.duplicate) [
  | inl d ↦
      subst (Keeps db) (ok-injective (rw d at h))
        (record { log = λ l. l; rows = refl; stamps = λ i row at g r. g })
  | inr d ↦ stamp_prune-Keeps w result.seq prune db db' (rw d at h)
]

-- Prunes delete no row, move no stamp that is set, and keep the invariant of the log.
pub materialise_prunes-Keeps :
    (w : ℕ) (prunes : List PruneAdmission) (results : List OpResult) (db db' : Db)
    → materialise_prunes w prunes results db ≡ ok db'
    → Keeps db db'
unfolding materialise_prunes
materialise_prunes-Keeps w [] results db db' h =
    subst (Keeps db) (ok-injective h)
      (record { log = λ l. l; rows = refl; stamps = λ i row at g r. g })
materialise_prunes-Keeps w (prune ∷ prunes) results db db' h =
    let (mid, first, rest) =
      >>=-eq-ok (prune_result w (get_elem? results prune.index) prune db) _ h in
    let here = prune_result-Keeps w (get_elem? results prune.index) prune db mid first in
    let later = materialise_prunes-Keeps w prunes results mid db' rest in
    record {
      log = λ l. later.log (here.log l);
      rows = later.rows ∙ here.rows;
      stamps = λ i row at g r. later.stamps i row at (here.stamps i row at g r) r;
    }
