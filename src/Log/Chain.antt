-- ===== src/Log/Chain.antt =====
-- The invariant of the log: each author's ops in a Workspace are numbered 1, 2, 3, ... in the order
-- of the log, no author has two ops of one id, and the transport seqs ascend.
use jeeves.Common.{
  ℕ, suc, ◌+◌, ◌≤◌, ◌<◌, ◌≡◌, refl, arith, true, false, ◌&&◌, List, [], ◌∷◌, ◌++◌, ◌==◌, any,
  any-append, any-or_false, length, max, if◌then◌else◌, inl, inr, Bool-cases,
}
use mathlib.Core.Path.{subst₂}
use jeeves.Store.{Op}
use jeeves.Log.{is_by, is_op, max_author_seq, violates}

-- The author_seqs of an author in a Workspace, in the order of the log.
unfoldable pub chain : List Op → ℕ → ℕ → List ℕ
chain [] w author = []
chain (row ∷ rows) w author =
    let rest = chain rows w author in if is_by w author row then row.author_seq ∷ rest else rest

-- from, from + 1, ...
abbrev pub IsRun : ℕ → List ℕ → Type 0
IsRun from [] = Unit
IsRun from (x ∷ xs) = (x ≡ from) × IsRun (suc from) xs

-- No row is the op of an earlier one.
abbrev pub NoRepeat : List Op → Type 0
NoRepeat [] = Unit
NoRepeat (row ∷ rows) =
    (any (is_op row.workspace_id row.author_member_id row.op_id) rows ≡ false) × NoRepeat rows

-- The seqs ascend from `from` and stay below `to`.
abbrev pub Ascends : ℕ → List Op → ℕ → Type 0
Ascends from [] to = from ≤ to
Ascends from (row ∷ rows) to = (from ≤ row.seq) × Ascends (suc row.seq) rows to

pub record IsLog (ops : List Op) (next_seq : ℕ) : Type 0 where
  pub chains : (w author : ℕ) → IsRun 1 (chain ops w author)
  pub no_repeat : NoRepeat ops
  pub ascends : Ascends 1 ops next_seq

pub chain-append : (xs ys : List Op) (w a : ℕ) → chain (xs ++ ys) w a ≡ chain xs w a ++ chain ys w a
unfolding chain
chain-append [] ys w a = refl
chain-append (row ∷ xs) ys w a = ground (arith, chain-append xs ys w a)

pub IsRun-append :
    (from : ℕ) (xs ys : List ℕ)
    → IsRun from xs
    → IsRun (from + length xs) ys
    → IsRun from (xs ++ ys)
IsRun-append from [] ys h k = rw (zero_right from) at k
  where
    zero_right : (n : ℕ) → n + 0 ≡ n
    zero_right n = omega arith
IsRun-append from (x ∷ xs) ys h k =
    (h.0, IsRun-append (suc from) xs ys h.1 (rw (shift from (length xs)) at k))
  where
    shift : (n m : ℕ) → n + suc m ≡ suc n + m
    shift n m = omega arith

-- The largest number of a run that begins after `below`.
max-run :
    (below : ℕ) (rows : List Op) (w a : ℕ)
    → IsRun (suc below) (chain rows w a)
    → max below (max_author_seq rows w a) ≡ below + length (chain rows w a)
unfolding chain max_author_seq
max-run below [] w a h = omega arith
max-run below (row ∷ rows) w a h =
    ground (arith, max-run below rows w a, max-run (suc below) rows w a)

-- In a log an author's last number is how many ops it has.
pub max_author_seq-eq-length :
    (rows : List Op) (w a : ℕ)
    → IsRun 1 (chain rows w a)
    → max_author_seq rows w a ≡ length (chain rows w a)
max_author_seq-eq-length rows w a h = omega (arith, max-run 0 rows w a h)

-- A number up to the length of a run stands in it, so a row that violates no constraint has none.
in-run :
    (from n : ℕ) (xs : List ℕ)
    → IsRun from xs
    → from ≤ n
    → n < from + length xs
    → any (λ x. x == n) xs ≡ true
in-run from n [] h lo hi = absurd (omega arith)
in-run from n (x ∷ xs) h lo hi = ground (arith, in-run (suc from) n xs h.1)

has-number :
    (rows : List Op) (w a n : ℕ)
    → any (λ x. x == n) (chain rows w a) ≡ true
    → any (λ (r : Op). is_by w a r && r.author_seq == n) rows ≡ true
unfolding chain
has-number [] w a n h = cc
has-number (row ∷ rows) w a n h = ground (arith, has-number rows w a n)

violates-false :
    (rows : List Op) (row : Op)
    → violates rows row ≡ false
    → (any (is_op row.workspace_id row.author_member_id row.op_id) rows ≡ false)
      × (any
            (λ (r : Op).
              is_by row.workspace_id row.author_member_id r && r.author_seq == row.author_seq)
            rows
          ≡ false)
unfolding violates
violates-false rows row h = any-or_false _ _ rows h

-- A row after those of a run, which takes no number of it and is not past its end, comes next.
next_number :
    (rows : List Op) (row : Op) (w a last : ℕ)
    → IsRun 1 (chain rows w a)
    → last ≤ length (chain rows w a)
    → row.author_seq ≡ suc last
    → any (λ (r : Op). is_by w a r && r.author_seq == row.author_seq) rows ≡ false
    → row.author_seq ≡ suc (length (chain rows w a))
next_number rows row w a last run behind number free =
    ground (arith, in-run 1 row.author_seq (chain rows w a) run, has-number rows w a row.author_seq)

NoRepeat-append :
    (rows : List Op) (row : Op)
    → NoRepeat rows
    → any (is_op row.workspace_id row.author_member_id row.op_id) rows ≡ false
    → NoRepeat (rows ++ row ∷ [])
unfolding is_op is_by
NoRepeat-append [] row h free = (refl, tt)
NoRepeat-append (r ∷ rows) row h free = ground (
  arith,
  NoRepeat-append rows row h.1,
  any-append (is_op r.workspace_id r.author_member_id r.op_id) rows (row ∷ []),
)

Ascends-append :
    (from : ℕ) (rows : List Op) (row : Op) (to : ℕ)
    → Ascends from rows to
    → row.seq ≡ to
    → Ascends from (rows ++ row ∷ []) (to + 1)
Ascends-append from [] row to h e = omega arith
Ascends-append from (r ∷ rows) row to h e = (h.0, Ascends-append (suc r.seq) rows row to h.1 e)

pub is_by-eq :
    (w a : ℕ) (row : Op)
    → is_by w a row ≡ true
    → (row.workspace_id ≡ w) × (row.author_member_id ≡ a)
unfolding is_by
is_by-eq w a row h = ground arith

pub chain-one_other : (row : Op) (w a : ℕ) → is_by w a row ≡ false → chain (row ∷ []) w a ≡ []
unfolding chain
chain-one_other row w a h = rw h

pub chain-one_own :
    (row : Op) → chain (row ∷ []) row.workspace_id row.author_member_id ≡ row.author_seq ∷ []
unfolding chain is_by
chain-one_own row = ground arith

-- What follows an author's run in the log: its next number, or another author's.
IsRun-goes_on :
    (rows : List Op) (row : Op) (w a : ℕ)
    → row.author_seq ≡ suc (length (chain rows row.workspace_id row.author_member_id))
    → IsRun (1 + length (chain rows w a)) (chain (row ∷ []) w a)
IsRun-goes_on rows row w a number = elim (Bool-cases (is_by w a row)) [
  | inr other ↦ rw (chain-one_other row w a other) tt
  | inl own ↦
      let (same_w, same_a) = is_by-eq w a row own in
      subst₂ (λ v b. IsRun (1 + length (chain rows v b)) (chain (row ∷ []) v b)) same_w same_a
        (rw (chain-one_own row) (omega arith))
]

-- A row that violates neither constraint and whose number is the next after one that the author has
-- reached makes a longer log.
pub IsLog-append :
    (rows : List Op) (row : Op) (next last : ℕ)
    → IsLog rows next
    → row.seq ≡ next
    → violates rows row ≡ false
    → last ≤ length (chain rows row.workspace_id row.author_member_id)
    → row.author_seq ≡ suc last
    → IsLog (rows ++ row ∷ []) (next + 1)
IsLog-append rows row next last log at_end free behind number =
    let (new_id, new_number) = violates-false rows row free in
    record {
      chains = λ w a. rw (chain-append rows (row ∷ []) w a) (
          IsRun-append 1 (chain rows w a) (chain (row ∷ []) w a) (log.chains w a) (
            IsRun-goes_on rows row w a (
              next_number rows row row.workspace_id row.author_member_id last
                (log.chains row.workspace_id row.author_member_id) behind number new_number)));
      no_repeat = NoRepeat-append rows row log.no_repeat new_id;
      ascends = Ascends-append 1 rows row next log.ascends at_end;
    }
