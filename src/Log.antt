-- ===== src/Log.antt =====
-- The op log of backend/app/sync/routes.py: `_append_batch`, which resolves a batch against what is
-- stored and stages the new ops, and the page that `pull_ops` serves.
pub mod Chain
pub mod Append
pub mod Pages
use jeeves.Common.{
  ℕ, zero, suc, ◌+◌, Bool, true, false, not, ◌&&◌, ◌||◌, List, [], ◌∷◌, ◌++◌, Option, none, some,
  ◌==◌, ltb, leb, any, find, length, take, option_or, is_some, keep_if, max, if◌then◌else◌, Result,
  ok, err, ◌>>=◌,
}
use jeeves.Common.Bytes.{Bytes}
use jeeves.Codes.{author_chain_conflict}
use jeeves.Envelope.Header.{OpHeader}
use jeeves.Store.{Op, Db, HttpError, conflict, number}

pub record ParsedOp : Type 0 where
  pub envelope : Bytes
  pub header : OpHeader

-- The row that a parsed op is stored as.
unfoldable pub op_row : ℕ → ℕ → ParsedOp → Op
op_row workspace_id seq op = record {
  seq = seq;
  workspace_id = workspace_id;
  envelope = op.envelope;
  op_class = op.header.op_class;
  key_epoch = op.header.key_epoch;
  op_id = op.header.op_id;
  author_member_id = op.header.author_member_id;
  author_key_id = op.header.author_key_id;
  author_seq = op.header.author_seq;
  compacted_by = none;
}

-- Whether a row is of an author in a Workspace, and whether it is the author's op of an id.
unfoldable pub is_by : ℕ → ℕ → Op → Bool
is_by w author row = row.workspace_id == w && row.author_member_id == author

unfoldable pub is_op : ℕ → ℕ → ℕ → Op → Bool
unfolding is_by
is_op w author op_id row = is_by w author row && row.op_id == op_id

-- `existing_seq_by_key`, at a key.
unfoldable pub existing_seq : List Op → ℕ → ℕ → ℕ → Option ℕ
existing_seq [] w author op_id = none
existing_seq (row ∷ rows) w author op_id =
    if is_op w author op_id row then some row.seq else existing_seq rows w author op_id

-- `MAX(author_seq)` of an author's rows, 0 where there is none.
unfoldable pub max_author_seq : List Op → ℕ → ℕ → ℕ
max_author_seq [] w author = 0
max_author_seq (row ∷ rows) w author =
    let rest = max_author_seq rows w author in
    if is_by w author row then max row.author_seq rest else rest

-- A resolved seq, or the position among the staged ops of the one to read the seq off.
pub data Entry : Type 0 where
  stored : ℕ → Entry
  staged : ℕ → Entry

pub record Planned : Type 0 where
  pub op_id : ℕ
  pub entry : Entry
  pub duplicate : Bool

-- The loop's variables: `staged` in order of staging, `last_author_seq` with 0 for a missing key,
-- and `plan`.
pub record Staging : Type 0 where
  pub staged_ops : List ParsedOp
  pub last_author_seq : ℕ → ℕ
  pub plan : List Planned

-- The position of the op of a key among the staged ones, counted from `from`.
unfoldable pub staged_position : ℕ → List ParsedOp → ℕ → ℕ → Option ℕ
staged_position from [] author op_id = none
staged_position from (op ∷ ops) author op_id =
    if op.header.author_member_id == author && op.header.op_id == op_id
    then some from
    else staged_position (suc from) ops author op_id

unfoldable pub planned : Staging → ParsedOp → Entry → Bool → Staging
planned s op entry duplicate = record s {
  plan = s.plan ++ record { op_id = op.header.op_id; entry = entry; duplicate = duplicate } ∷ [];
}

-- `db.add(op)` and what goes with it.
unfoldable pub stage_new : Staging → ParsedOp → Staging
unfolding planned
stage_new s op =
    planned
      (record s {
        staged_ops = s.staged_ops ++ op ∷ [];
        last_author_seq = λ a.
            if a == op.header.author_member_id then op.header.author_seq else s.last_author_seq a;
      })
      op (staged (length s.staged_ops)) false

-- One turn of the loop over the batch.
unfoldable pub stage : List Op → ℕ → ℕ → ParsedOp → Staging → Result HttpError Staging
stage rows w index op s = elim (existing_seq rows w op.header.author_member_id op.header.op_id) [
  | some seq ↦ ok (planned s op (stored seq) true)
  | none ↦ elim (staged_position 0 s.staged_ops op.header.author_member_id op.header.op_id) [
    | some position ↦ ok (planned s op (staged position) true)
    | none ↦
        if op.header.author_seq == s.last_author_seq op.header.author_member_id + 1
        then ok (stage_new s op)
        else err (
            conflict author_chain_conflict (
              number "index" index
              ∷ number "author_seq" op.header.author_seq
              ∷ number "expected_author_seq" (s.last_author_seq op.header.author_member_id + 1)
              ∷ []))
  ]
]

unfoldable pub stage_all : List Op → ℕ → ℕ → List ParsedOp → Staging → Result HttpError Staging
stage_all rows w index [] s = ok s
stage_all rows w index (op ∷ ops) s =
    stage rows w index op s >>= λ s'. stage_all rows w (suc index) ops s'

unfoldable pub start : List Op → ℕ → Staging
start rows w = record {
  staged_ops = [];
  last_author_seq = λ author. max_author_seq rows w author;
  plan = [];
}

-- The two unique constraints of `ops`, for one more row.
unfoldable pub violates : List Op → Op → Bool
violates rows row =
    any
      (λ (r : Op).
        is_op row.workspace_id row.author_member_id row.op_id r
        || (is_by row.workspace_id row.author_member_id r && r.author_seq == row.author_seq))
      rows

unfoldable pub insert_op : ℕ → ParsedOp → Db → Db
unfolding op_row
insert_op w op db = record db {
  ops = db.ops ++ op_row w db.next_seq op ∷ [];
  next_seq = db.next_seq + 1;
}

-- The INSERTs of `db.flush()`, in order of staging; `none` is `IntegrityError`.
unfoldable pub insert_ops : ℕ → List ParsedOp → Db → Option Db
insert_ops w [] db = some db
insert_ops w (op ∷ ops) db =
    let rest = insert_ops w ops (insert_op w op db) in
    if violates db.ops (op_row w db.next_seq op) then none else rest

pub record OpResult : Type 0 where
  pub op_id : ℕ
  pub seq : ℕ
  pub duplicate : Bool

unfoldable pub entry_seq : ℕ → Entry → ℕ
entry_seq base (stored seq) = seq
entry_seq base (staged position) = base + position

unfoldable pub results_of : ℕ → List Planned → List OpResult
unfolding entry_seq
results_of base [] = []
results_of base (p ∷ ps) =
    record { op_id = p.op_id; seq = entry_seq base p.entry; duplicate = p.duplicate }
    ∷ results_of base ps

pub data Appended : Type 0 where
  refused : HttpError → Appended
  integrity_error : Appended
  appended : Db → List OpResult → Appended

unfoldable pub flush : ℕ → Db → Staging → Appended
flush w db s = elim (insert_ops w s.staged_ops db) [
  | none ↦ integrity_error
  | some db' ↦ appended db' (results_of db.next_seq s.plan)
]

unfoldable pub insert_staging : ℕ → Db → Result HttpError Staging → Appended
insert_staging w committed (ok s) = flush w committed s
insert_staging w committed (err e) = refused e

-- `_append_batch`: it reads `view`, and its INSERTs meet what is `committed` by then.
unfoldable pub append_batch : Db → Db → ℕ → List ParsedOp → Appended
unfolding insert_staging
append_batch view committed w parsed =
    insert_staging w committed (stage_all view.ops w 0 parsed (start view.ops w))

-- The rows that a pull selects.
unfoldable pub is_served : ℕ → ℕ → Bool → Op → Bool
is_served w since include_compacted row =
    row.workspace_id == w
    && (ltb since row.seq && (include_compacted || not (is_some row.compacted_by)))

-- ORDER BY seq
unfoldable pub insert_by_seq : Op → List Op → List Op
insert_by_seq row [] = row ∷ []
insert_by_seq row (x ∷ xs) =
    let rest = insert_by_seq row xs in if leb row.seq x.seq then row ∷ x ∷ xs else x ∷ rest

unfoldable pub order_by_seq : List Op → List Op
unfolding insert_by_seq
order_by_seq [] = []
order_by_seq (row ∷ rows) = insert_by_seq row (order_by_seq rows)

pub record Page : Type 0 where
  pub rows : List Op
  pub has_more : Bool

-- The query of `pull_ops`, its `limit + 1` rows, and the page made of them.
unfoldable pub page_of : List Op → ℕ → Page
page_of rows limit = record { rows = take limit rows; has_more = ltb limit (length rows) }

unfoldable pub select_page : List Op → ℕ → ℕ → ℕ → Bool → Page
unfolding page_of order_by_seq is_served
select_page ops w since limit include_compacted =
    page_of (take (limit + 1) (order_by_seq (keep_if (is_served w since include_compacted) ops)))
      limit
