-- ===== src/Escrow/Limit.antt =====
-- How many fetches of the recovery escrow one window serves.
use jeeves.Common.{
  ℕ, ◌+◌, ◌-◌, ◌≤◌, ◌≡◌, ◌≢◌, sym, ◌∙◌, arith, subst, false, List, [], ◌∷◌, String, str_eq,
  str_eq_iff, ltb, Result, err, Result-cases, Option-cases, Bool-cases, inl, inr,
}
use jeeves.Crypto.{Primitives}
use jeeves.Redis.{Redis, increment_in_window, IsCounting}
use jeeves.Store.{Db, User, RecoveryEscrow, RecoveryEscrowFetch, HttpError, get_escrow}
use jeeves.Text.{append_text_cancel}
use jeeves.Ids.{require_derivable_workspace}
use jeeves.Escrow.{recovery_fetch_daily_limit, recovery_fetch_window_seconds}
use jeeves.Escrow.Fetches.{
  recovery_fetch_counter_key, count_recovery_fetch, serve_escrow, get_recovery_escrow, no_slot,
  left_by, one_if_served, audits, audits-append,
}

module _ {R : Type 0} (redis : Redis R) (lib : Primitives) (counting : IsCounting redis) where
  -- The fetches that a User has left.
  abbrev left : R → String → ℕ
  left r user_id =
      recovery_fetch_daily_limit - counting.count r (recovery_fetch_counter_key user_id)

  abbrev count_of : R → String → ℕ
  count_of r user_id = counting.count r (recovery_fetch_counter_key user_id)

  counted_mine :
      (r : R) (user_id : String)
      → ((count_recovery_fetch redis lib r user_id).1 ≡ count_of r user_id + 1)
        × (count_of (count_recovery_fetch redis lib r user_id).0 user_id ≡ count_of r user_id + 1)
  unfolding count_recovery_fetch increment_in_window
  counted_mine r user_id =
      let key = recovery_fetch_counter_key user_id in
      (
        counting.incr_count r key,
        counting.expire_nx_count (redis.incr r key).0 key key recovery_fetch_window_seconds
            ∙ counting.incr_same r key,
      )

  counted_other :
      (r : R) (user_id watched : String)
      → str_eq user_id watched ≡ false
      → count_of (count_recovery_fetch redis lib r user_id).0 watched ≡ count_of r watched
  unfolding count_recovery_fetch increment_in_window recovery_fetch_counter_key
  counted_other r user_id watched other =
      let key = recovery_fetch_counter_key user_id in
      let apart : recovery_fetch_counter_key watched ≢ key = λ e. ground (
        arith,
        append_text_cancel "recovery_escrow_fetch:" watched user_id e,
        str_eq_iff user_id watched,
      ) in
      counting.expire_nx_count (redis.incr r key).0 key (recovery_fetch_counter_key watched)
        recovery_fetch_window_seconds
      ∙ counting.incr_other r key (recovery_fetch_counter_key watched) apart

  -- What one request adds for a User that is watched: an audit row where it serves that User, and
  -- then it takes one of the fetches that were left.
  abbrev IsOneFetch : R → Db → String → String → R × Result HttpError (Db × RecoveryEscrow) → Type 0
  IsOneFetch r db user_id watched answer =
      (audits (left_by db answer.1).escrow_fetches watched
        ≡ audits db.escrow_fetches watched + one_if_served (str_eq user_id watched) answer.1)
      × (one_if_served (str_eq user_id watched) answer.1 + left answer.0 watched ≤ left r watched)

  serve_escrow-IsOneFetch :
      (r : R) (db : Db) (w : ℕ) (user_id : String) (stored : RecoveryEscrow) (watched : String)
      → IsOneFetch r db user_id watched (serve_escrow redis lib r db w user_id stored)
  unfolding serve_escrow
  serve_escrow-IsOneFetch r db w user_id stored watched =
      let counted = count_recovery_fetch redis lib r user_id in
      let row : RecoveryEscrowFetch = record { workspace_id = w; user_id = user_id } in
      let added = audits-append db.escrow_fetches row watched in
      elim (Bool-cases (str_eq user_id watched)) [
        | inl mine ↦
            let same : user_id ≡ watched = (str_eq_iff user_id watched).0 mine in
            let (n, now) =
              subst
                (λ u. (counted.1 ≡ count_of r u + 1) × (count_of counted.0 u ≡ count_of r u + 1))
                same (counted_mine r user_id) in
            elim (Bool-cases (ltb recovery_fetch_daily_limit counted.1)) [
              | inl over ↦ rw over (omega arith, omega (arith, now))
              | inr under ↦ rw (under, mine) (ground arith, ground arith)
            ]
        | inr other ↦
            let same = counted_other r user_id watched other in
            elim (Bool-cases (ltb recovery_fetch_daily_limit counted.1)) [
              | inl over ↦ rw over (omega arith, omega (arith, same))
              | inr under ↦ rw (under, other) (ground arith, ground arith)
            ]
      ]

  refused-IsOneFetch :
      (r : R) (db : Db) (user_id watched : String) (e : HttpError)
      → IsOneFetch r db user_id watched (r, err e)
  refused-IsOneFetch r db user_id watched e = (omega arith, omega arith)

  get_recovery_escrow-IsOneFetch :
      (r : R) (db : Db) (w : ℕ) (user : User) (watched : String)
      → IsOneFetch r db user.user_id watched (get_recovery_escrow redis lib r db w user)
  unfolding get_recovery_escrow
  get_recovery_escrow-IsOneFetch r db w user watched =
      elim (Result-cases (require_derivable_workspace lib w user.user_id [])) [
        | inr (e, refused) ↦
            answered (r, err e) (ground arith) (refused-IsOneFetch r db user.user_id watched e)
        | inl (_, passed) ↦ elim (Option-cases (get_escrow db w user.user_id)) [
          | inl absent ↦
              answered (r, err no_slot) (ground arith)
                (refused-IsOneFetch r db user.user_id watched no_slot)
          | inr (stored, found) ↦
              answered (serve_escrow redis lib r db w user.user_id stored) (ground arith)
                (serve_escrow-IsOneFetch r db w user.user_id stored watched)
        ]
      ]
    where
      answered :
          (answer : R × Result HttpError (Db × RecoveryEscrow))
          → get_recovery_escrow redis lib r db w user ≡ answer
          → IsOneFetch r db user.user_id watched answer
          → IsOneFetch r db user.user_id watched (get_recovery_escrow redis lib r db w user)
      answered answer same one = subst (IsOneFetch r db user.user_id watched) (sym same) one

-- Requests one after the other: the state they leave, and how many of a User were served.
unfoldable pub fetch_all :
    {R : Type 0} → Redis R → Primitives → R → Db → List (ℕ × User) → String → R × (Db × ℕ)
unfolding get_recovery_escrow
fetch_all redis lib r db [] watched = (r, (db, 0))
fetch_all redis lib r db ((w, user) ∷ rest) watched =
    let answer = get_recovery_escrow redis lib r db w user in
    let later = fetch_all redis lib answer.0 (left_by db answer.1) rest watched in
    (later.0, (later.1.0, one_if_served (str_eq user.user_id watched) answer.1 + later.1.1))

fetch_all-left :
    {R : Type 0} (redis : Redis R) (lib : Primitives) (counting : IsCounting redis) (r : R)
    (db : Db) (requests : List (ℕ × User)) (watched : String)
    → (audits (fetch_all redis lib r db requests watched).1.0.escrow_fetches watched
        ≡ audits db.escrow_fetches watched + (fetch_all redis lib r db requests watched).1.1)
      × ((fetch_all redis lib r db requests watched).1.1 ≤ left redis lib counting r watched)
unfolding fetch_all
fetch_all-left redis lib counting r db [] watched = (omega arith, omega arith)
fetch_all-left redis lib counting r db ((w, user) ∷ rest) watched =
    let answer = get_recovery_escrow redis lib r db w user in
    let (row, fewer) = get_recovery_escrow-IsOneFetch redis lib counting r db w user watched in
    let (rows, bound) =
      fetch_all-left redis lib counting answer.0 (left_by db answer.1) rest watched in
    (omega (arith, row, rows), omega (arith, fewer, bound))

-- However many requests for whatever slots are sent within one window, each fetch that is served to
-- a User leaves one audit row of that User and no other request does, and no more are served than
-- 20 less those that were counted for the User before.
pub fetch_all-Limit :
    {R : Type 0} (redis : Redis R) (lib : Primitives) (counting : IsCounting redis) (r : R)
    (db : Db) (requests : List (ℕ × User)) (user_id : String)
    → (audits (fetch_all redis lib r db requests user_id).1.0.escrow_fetches user_id
        ≡ audits db.escrow_fetches user_id + (fetch_all redis lib r db requests user_id).1.1)
      × ((fetch_all redis lib r db requests user_id).1.1
          ≤ 20 - counting.count r (recovery_fetch_counter_key user_id))
fetch_all-Limit redis lib counting r db requests user_id =
    fetch_all-left redis lib counting r db requests user_id
