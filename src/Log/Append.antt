-- ===== src/Log/Append.antt =====
-- `_append_batch` keeps the invariant of the log, also when the state that it read is out of date.
use jeeves.Common.{
  ℕ, suc, ◌+◌, ◌≤◌, ◌≡◌, refl, subst, arith, true, false, List, [], ◌∷◌, ◌++◌, ◌==◌, length, none,
  some, length-append, if◌then◌else◌, inl, inr, Bool-cases, Option-cases, ok, >>=-eq-ok, some-eq,
  Result-cases, ok-injective,
}
use jeeves.Store.{Op, Db}
use jeeves.Log.{
  ParsedOp, op_row, is_by, existing_seq, max_author_seq, violates, Staging, staged_position,
  planned, stage_new, stage, stage_all, start, insert_op, insert_ops, OpResult, appended, flush,
  append_batch, results_of, stored, staged,
}
use jeeves.Log.Chain.{chain, IsRun, IsLog, chain-append, IsRun-append, IsLog-append}

-- The author_seqs of an author's ops in a batch.
unfoldable pub numbers : List ParsedOp → ℕ → List ℕ
numbers [] author = []
numbers (op ∷ ops) author =
    let rest = numbers ops author in
    if op.header.author_member_id == author then op.header.author_seq ∷ rest else rest

numbers-append :
    (xs ys : List ParsedOp) (a : ℕ) → numbers (xs ++ ys) a ≡ numbers xs a ++ numbers ys a
unfolding numbers
numbers-append [] ys a = refl
numbers-append (op ∷ xs) ys a = ground (arith, numbers-append xs ys a)

-- The staged ops of each author number on from what the Workspace holds of it.
record IsStaged (rows : List Op) (w : ℕ) (s : Staging) : Type 0 where
  runs : (a : ℕ) → IsRun (suc (max_author_seq rows w a)) (numbers s.staged_ops a)
  last : (a : ℕ) → s.last_author_seq a ≡ max_author_seq rows w a + length (numbers s.staged_ops a)

IsStaged-start : (rows : List Op) (w : ℕ) → IsStaged rows w (start rows w)
unfolding start numbers
IsStaged-start rows w = record { runs = λ a. tt; last = λ a. omega arith }

stage_new-IsStaged :
    (rows : List Op) (w : ℕ) (op : ParsedOp) (s : Staging)
    → op.header.author_seq ≡ s.last_author_seq op.header.author_member_id + 1
    → IsStaged rows w s
    → IsStaged rows w (stage_new s op)
unfolding stage_new numbers
stage_new-IsStaged rows w op s next st = record {
  runs = λ a. rw (numbers-append s.staged_ops (op ∷ []) a) (
      IsRun-append (suc (max_author_seq rows w a)) (numbers s.staged_ops a) (numbers (op ∷ []) a)
        (st.runs a) (ground (arith, st.last a)));
  last = λ a. ground (
    arith,
    st.last a,
    numbers-append s.staged_ops (op ∷ []) a,
    length-append (numbers s.staged_ops a) (numbers (op ∷ []) a),
  );
}

-- The three ways in which a turn of the loop goes well.
pub data Turn (rows : List Op) (w : ℕ) (op : ParsedOp) (s : Staging) : Staging → Type 0 where
  replayed :
      (seq : ℕ)
      → existing_seq rows w op.header.author_member_id op.header.op_id ≡ some seq
      → Turn rows w op s (planned s op (stored seq) true)
  repeated :
      (position : ℕ)
      → existing_seq rows w op.header.author_member_id op.header.op_id ≡ none
      → staged_position 0 s.staged_ops op.header.author_member_id op.header.op_id ≡ some position
      → Turn rows w op s (planned s op (staged position) true)
  fresh :
      existing_seq rows w op.header.author_member_id op.header.op_id ≡ none
      → staged_position 0 s.staged_ops op.header.author_member_id op.header.op_id ≡ none
      → op.header.author_seq ≡ s.last_author_seq op.header.author_member_id + 1
      → Turn rows w op s (stage_new s op)

pub stage-Turn :
    (rows : List Op) (w index : ℕ) (op : ParsedOp) (s s' : Staging)
    → stage rows w index op s ≡ ok s'
    → Turn rows w op s s'
unfolding stage
stage-Turn rows w index op s s' h =
    elim (Option-cases (existing_seq rows w op.header.author_member_id op.header.op_id)) [
      | inr (seq, found) ↦ subst (Turn rows w op s) (ground (arith, found)) (replayed seq found)
      | inl new ↦
          elim (Option-cases
            (staged_position 0 s.staged_ops op.header.author_member_id op.header.op_id)) [
              | inr (position, found) ↦
                  subst (Turn rows w op s) (ground (arith, found, new))
                    (repeated position new found)
              | inl unstaged ↦
                  subst (Turn rows w op s) (ground (arith, unstaged, new))
                    (fresh new unstaged (ground (arith, unstaged, new)))
            ]
    ]

stage-IsStaged :
    (rows : List Op) (w : ℕ) (op : ParsedOp) (s s' : Staging)
    → Turn rows w op s s'
    → IsStaged rows w s
    → IsStaged rows w s'
unfolding planned
stage-IsStaged rows w op s _ (replayed seq found) st = record { runs = st.runs; last = st.last }
stage-IsStaged rows w op s _ (repeated position new found) st = record {
  runs = st.runs;
  last = st.last;
}
stage-IsStaged rows w op s _ (fresh new unstaged next) st = stage_new-IsStaged rows w op s next st

stage_all-IsStaged :
    (rows : List Op) (w index : ℕ) (ops : List ParsedOp) (s s' : Staging)
    → IsStaged rows w s
    → stage_all rows w index ops s ≡ ok s'
    → IsStaged rows w s'
unfolding stage_all
stage_all-IsStaged rows w index [] s s' st h = subst (IsStaged rows w) (ok-injective h) st
stage_all-IsStaged rows w index (op ∷ ops) s s' st h =
    let (t, first, rest) =
      >>=-eq-ok (stage rows w index op s) (stage_all rows w (suc index) ops) h in
    stage_all-IsStaged rows w (suc index) ops t s'
      (stage-IsStaged rows w op s t (stage-Turn rows w index op s t first) st) rest

-- A view of the log that no author has got ahead of: what it says of each author's last number is
-- reached in what is committed.
abbrev pub Behind : List Op → List Op → ℕ → Type 0
Behind view committed w = (a : ℕ) → max_author_seq view w a ≤ length (chain committed w a)

-- The last numbers after one more op.
abbrev reached : (ℕ → ℕ) → ParsedOp → ℕ → ℕ
reached last op a = if op.header.author_member_id == a then suc (last a) else last a

module _ (last : ℕ → ℕ) (op : ParsedOp) (ops : List ParsedOp)
    (runs : (a : ℕ) → IsRun (suc (last a)) (numbers (op ∷ ops) a)) where
  reached-runs : (a : ℕ) → IsRun (suc (reached last op a)) (numbers ops a)
  unfolding numbers
  reached-runs a = ground (arith, runs a)

  first_number : op.header.author_seq ≡ suc (last op.header.author_member_id)
  unfolding numbers
  first_number = ground (arith, runs op.header.author_member_id)

reached-Behind :
    (w : ℕ) (op : ParsedOp) (db : Db) (last : ℕ → ℕ)
    → ((a : ℕ) → last a ≤ length (chain db.ops w a))
    → (a : ℕ) → reached last op a ≤ length (chain (insert_op w op db).ops w a)
unfolding insert_op op_row chain is_by
reached-Behind w op db last behind a =
    let row = op_row w db.next_seq op in
    ground (
      arith,
      behind a,
      chain-append db.ops (row ∷ []) w a,
      length-append (chain db.ops w a) (chain (row ∷ []) w a),
    )

insert_op-IsLog :
    (w : ℕ) (op : ParsedOp) (db : Db) (last : ℕ)
    → violates db.ops (op_row w db.next_seq op) ≡ false
    → last ≤ length (chain db.ops w op.header.author_member_id)
    → op.header.author_seq ≡ suc last
    → IsLog db.ops db.next_seq
    → IsLog (insert_op w op db).ops (insert_op w op db).next_seq
unfolding insert_op op_row
insert_op-IsLog w op db last free behind number log =
    IsLog-append db.ops (op_row w db.next_seq op) db.next_seq last log refl free behind number

-- Rows whose numbers go on from `last`, which the log has reached, make a longer log where none of
-- them violates a constraint.
insert_ops-IsLog :
    (w : ℕ) (ops : List ParsedOp) (db db' : Db) (last : ℕ → ℕ)
    → ((a : ℕ) → IsRun (suc (last a)) (numbers ops a))
    → ((a : ℕ) → last a ≤ length (chain db.ops w a))
    → IsLog db.ops db.next_seq
    → insert_ops w ops db ≡ some db'
    → IsLog db'.ops db'.next_seq
unfolding insert_ops
insert_ops-IsLog w [] db db' last runs behind log h =
    subst (λ (d : Db). IsLog d.ops d.next_seq) (some-eq h) log
insert_ops-IsLog w (op ∷ ops) db db' last runs behind log h =
    elim (Bool-cases (violates db.ops (op_row w db.next_seq op))) [
      | inl clash ↦ cc (rw clash at h)
      | inr free ↦
          insert_ops-IsLog w ops (insert_op w op db) db' (reached last op)
            (reached-runs last op ops runs) (reached-Behind w op db last behind)
            (insert_op-IsLog w op db (last op.header.author_member_id) free
              (behind op.header.author_member_id) (first_number last op ops runs) log)
            (rw free at h)
    ]

appended-injective :
    {d d' : Db} {rs rs' : List OpResult} → appended d rs ≡ appended d' rs' → (d ≡ d') × (rs ≡ rs')
appended-injective h = (cc, cc)

flush-eq-appended :
    (w : ℕ) (db db' : Db) (s : Staging) (results : List OpResult)
    → flush w db s ≡ appended db' results
    → (insert_ops w s.staged_ops db ≡ some db') × (results ≡ results_of db.next_seq s.plan)
unfolding flush
flush-eq-appended w db db' s results h = (ground arith, ground arith)

-- What an append that went well staged and inserted.
pub append_batch-eq-appended :
    (view committed db' : Db) (w : ℕ) (parsed : List ParsedOp) (results : List OpResult)
    → append_batch view committed w parsed ≡ appended db' results
    → (s : Staging) × (stage_all view.ops w 0 parsed (start view.ops w) ≡ ok s)
      × (insert_ops w s.staged_ops committed ≡ some db')
      × (results ≡ results_of committed.next_seq s.plan)
unfolding append_batch
append_batch-eq-appended view committed db' w parsed results h =
    elim (Result-cases (stage_all view.ops w 0 parsed (start view.ops w))) [
      | inr (e, raised) ↦ cc (rw raised at h)
      | inl (s, went) ↦
          let (inserted, same) = flush-eq-appended w committed db' s results (rw went at h) in
          (s, went, inserted, same)
    ]

-- An append that succeeds leaves a log, even where the state that it read is out of date, provided
-- no author's last number in that state is ahead of the committed log: the unique constraints turn
-- away what was numbered against a stale state.
pub append_batch-IsLog :
    (view committed db' : Db) (w : ℕ) (parsed : List ParsedOp) (results : List OpResult)
    → Behind view.ops committed.ops w
    → IsLog committed.ops committed.next_seq
    → append_batch view committed w parsed ≡ appended db' results
    → IsLog db'.ops db'.next_seq
append_batch-IsLog view committed db' w parsed results behind log h =
    let (s, staged_all, inserted, _) =
      append_batch-eq-appended view committed db' w parsed results h in
    let st =
      stage_all-IsStaged view.ops w 0 parsed (start view.ops w) s (IsStaged-start view.ops w)
        staged_all in
    insert_ops-IsLog w s.staged_ops committed db' (λ a. max_author_seq view.ops w a) st.runs behind
      log inserted
