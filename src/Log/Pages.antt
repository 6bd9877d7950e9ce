-- ===== src/Log/Pages.antt =====
-- Paging: the pages that `pull_ops` serves, each after the last seq of the one before, are the log.
use jeeves.Common.{
  ℕ, zero, suc, ◌+◌, ◌≤◌, ◌≡◌, refl, sym, ap, ◌∙◌, arith, Bool, List, [], ◌∷◌, ◌++◌, ltb, length,
  take, keep_if, Bool-cases, length-append, length-take, inl, inr,
}
use jeeves.Store.{Op}
use jeeves.Log.{is_served, insert_by_seq, order_by_seq, page_of, select_page}
use jeeves.Log.Chain.{Ascends, IsLog}

-- The `since` of the pull after a page.
abbrev pub last_seq : ℕ → List Op → ℕ
last_seq since [] = since
last_seq since (row ∷ rows) = last_seq row.seq rows

Ascends-weaken : (a b : ℕ) (rows : List Op) (to : ℕ) → a ≤ b → Ascends b rows to → Ascends a rows to
Ascends-weaken a b [] to le h = omega arith
Ascends-weaken a b (row ∷ rows) to le h = (omega (arith, h.0), h.1)

keep_if-Ascends :
    (p : Op → Bool) (from : ℕ) (rows : List Op) (to : ℕ)
    → Ascends from rows to
    → Ascends from (keep_if p rows) to
keep_if-Ascends p from [] to h = h
keep_if-Ascends p from (row ∷ rows) to h = elim (Bool-cases (p row)) [
  | inl y ↦ rw (y) (h.0, keep_if-Ascends p (suc row.seq) rows to h.1)
  | inr n ↦ rw (n) (
      Ascends-weaken from (suc row.seq) (keep_if p rows) to (omega (arith, h.0))
        (keep_if-Ascends p (suc row.seq) rows to h.1))
]

insert_by_seq-first :
    (row : Op) (rows : List Op) (to : ℕ)
    → Ascends (suc row.seq) rows to
    → insert_by_seq row rows ≡ row ∷ rows
unfolding insert_by_seq
insert_by_seq-first row [] to h = refl
insert_by_seq-first row (x ∷ rows) to h = ground (arith, h.0)

order_by_seq-ordered :
    (from : ℕ) (rows : List Op) (to : ℕ) → Ascends from rows to → order_by_seq rows ≡ rows
unfolding order_by_seq
order_by_seq-ordered from [] to h = refl
order_by_seq-ordered from (row ∷ rows) to h =
    rw (order_by_seq-ordered (suc row.seq) rows to h.1) (insert_by_seq-first row rows to h.1)

after : ℕ → List Op → List Op
after s rows = keep_if (λ (r : Op). ltb s r.seq) rows

after-all : (s : ℕ) (rows : List Op) (to : ℕ) → Ascends (suc s) rows to → after s rows ≡ rows
unfolding after
after-all s [] to h = refl
after-all s (row ∷ rows) to h = ground (
  arith,
  after-all s rows to (Ascends-weaken (suc s) (suc row.seq) rows to (omega (arith, h.0)) h.1),
  h.0,
)

last_seq-ge :
    (n s : ℕ) (rows : List Op) (to : ℕ) → Ascends (suc s) rows to → s ≤ last_seq s (take n rows)
last_seq-ge zero s [] to h = omega arith
last_seq-ge (suc n) s [] to h = omega arith
last_seq-ge zero s (row ∷ rows) to h = omega arith
last_seq-ge (suc n) s (row ∷ rows) to h = omega (arith, h.0, last_seq-ge n row.seq rows to h.1)

page-rest :
    (n s : ℕ) (rows : List Op) (to : ℕ)
    → Ascends (suc s) rows to
    → rows ≡ take n rows ++ after (last_seq s (take n rows)) rows
unfolding after
page-rest zero s [] to h = refl
page-rest (suc n) s [] to h = refl
page-rest zero s (row ∷ rows) to h = sym (unfold after in after-all s (row ∷ rows) to h)
page-rest (suc n) s (row ∷ rows) to h =
    ground (arith, page-rest n row.seq rows to h.1, last_seq-ge n row.seq rows to h.1)

after-served :
    (w s t : ℕ) (include_compacted : Bool) (rows : List Op)
    → s ≤ t
    → after t (keep_if (is_served w s include_compacted) rows)
      ≡ keep_if (is_served w t include_compacted) rows
unfolding after is_served
after-served w s t inc [] le = refl
after-served w s t inc (row ∷ rows) le = ground (arith, after-served w s t inc rows le)

served-Ascends :
    (w s : ℕ) (include_compacted : Bool) (from : ℕ) (rows : List Op) (to : ℕ)
    → Ascends from rows to
    → suc s ≤ to
    → Ascends (suc s) (keep_if (is_served w s include_compacted) rows) to
served-Ascends w s inc from [] to h le = le
served-Ascends w s inc from (row ∷ rows) to h le = elim (Bool-cases (is_served w s inc row)) [
  | inl y ↦ rw (y) (
    unfold is_served in ground arith,
    keep_if-Ascends (is_served w s inc) (suc row.seq) rows to h.1,
  )
  | inr n ↦ rw (n) (served-Ascends w s inc (suc row.seq) rows to h.1 le)
]

Ascends-extend :
    (from : ℕ) (rows : List Op) (a b : ℕ) → a ≤ b → Ascends from rows a → Ascends from rows b
Ascends-extend from [] a b le h = omega arith
Ascends-extend from (row ∷ rows) a b le h = (h.0, Ascends-extend (suc row.seq) rows a b le h.1)

take-take-suc : (n : ℕ) (rows : List Op) → take n (take (suc n) rows) ≡ take n rows
take-take-suc zero rows = refl
take-take-suc (suc n) [] = refl
take-take-suc (suc n) (row ∷ rows) = ap (λ (xs : List Op). row ∷ xs) (take-take-suc n rows)

take-take : (n : ℕ) (rows : List Op) → take n (take (n + 1) rows) ≡ take n rows
take-take n rows = rw (next n) (take-take-suc n rows)
  where
    next : (m : ℕ) → m + 1 ≡ suc m
    next m = omega arith

-- The rows of a page are the first `limit` that are served.
select_page-rows :
    (ops : List Op) (next w since limit : ℕ) (include_compacted : Bool)
    → IsLog ops next
    → (select_page ops w since limit include_compacted).rows
      ≡ take limit (keep_if (is_served w since include_compacted) ops)
unfolding select_page page_of
select_page-rows ops next w since limit inc log =
    take-take limit (order_by_seq (keep_if (is_served w since inc) ops))
    ∙ ap (take limit) (
        order_by_seq-ordered 1 (keep_if (is_served w since inc) ops) next
          (keep_if-Ascends (is_served w since inc) 1 ops next log.ascends))

-- In a log, a page is what is served first, and the pull after its last seq serves exactly the rest:
-- nothing is skipped and nothing is served twice.
pub select_page-rest :
    (ops : List Op) (next w since limit : ℕ) (include_compacted : Bool)
    → IsLog ops next
    → keep_if (is_served w since include_compacted) ops
      ≡ (select_page ops w since limit include_compacted).rows
        ++ keep_if
            (is_served w
              (last_seq since (select_page ops w since limit include_compacted).rows)
              include_compacted)
            ops
select_page-rest ops next w since limit inc log =
    let to = suc (next + since) in
    let served = keep_if (is_served w since inc) ops in
    let ordered =
      served-Ascends w since inc 1 ops to (Ascends-extend 1 ops next to (omega arith) log.ascends)
        (omega arith) in
    rw (select_page-rows ops next w since limit inc log) (
      page-rest limit since served to ordered
      ∙ ap (λ (xs : List Op). take limit served ++ xs)
          (after-served w since (last_seq since (take limit served)) inc ops
            (last_seq-ge limit since served to ordered)))

select_page-more :
    (ops : List Op) (next w since limit : ℕ) (include_compacted : Bool)
    → IsLog ops next
    → (select_page ops w since limit include_compacted).has_more
      ≡ ltb limit (length (take (limit + 1) (keep_if (is_served w since include_compacted) ops)))
unfolding select_page page_of
select_page-more ops next w since limit inc log =
    ap (λ (xs : List Op). ltb limit (length (take (limit + 1) xs)))
      (order_by_seq-ordered 1 (keep_if (is_served w since inc) ops) next
        (keep_if-Ascends (is_served w since inc) 1 ops next log.ascends))

-- A page says that there is more exactly where the pull after it serves something.
pub select_page-has_more :
    (ops : List Op) (next w since limit : ℕ) (include_compacted : Bool)
    → IsLog ops next
    → (select_page ops w since limit include_compacted).has_more
      ≡ ltb 0 (
          length (
            keep_if
              (is_served w
                (last_seq since (select_page ops w since limit include_compacted).rows)
                include_compacted)
              ops))
select_page-has_more ops next w since limit inc log =
    let served = keep_if (is_served w since inc) ops in
    let rows = (select_page ops w since limit inc).rows in
    let rest = keep_if (is_served w (last_seq since rows) inc) ops in
    let split = ap length (select_page-rest ops next w since limit inc log) in
    select_page-more ops next w since limit inc log
    ∙ ground (
      arith,
      split,
      length-append rows rest,
      ap length (select_page-rows ops next w since limit inc log),
      length-take limit served,
      length-take (limit + 1) served,
    )
