-- ===== src/Escrow/Fetches.antt =====
-- `get_recovery_escrow` of backend/app/sync/routes.py: every fetch that is served is audited, and
-- their number is limited.
use jeeves.Common.{
  ℕ, zero, suc, ◌+◌, ◌≡◌, arith, Bool, List, [], ◌∷◌, ◌++◌, none, some, String, str_eq, ltb,
  if◌then◌else◌, Result, ok, err,
}
use jeeves.Codes.{Code}
use jeeves.Crypto.{Primitives}
use jeeves.Json.{ℤ, pos, negsuc}
use jeeves.Redis.{Redis, increment_in_window}
use jeeves.Store.{Db, User, RecoveryEscrow, RecoveryEscrowFetch, HttpError, number, get_escrow}
use jeeves.Text.{append_text}
use jeeves.Ids.{require_derivable_workspace}
use jeeves.Escrow.{recovery_fetch_daily_limit, recovery_fetch_window_seconds}

unfoldable pub recovery_fetch_counter_key : String → String
recovery_fetch_counter_key user_id = append_text "recovery_escrow_fetch:" user_id

abbrev pub no_slot : HttpError
no_slot = record { status = 404; code = Code.no_recovery_escrow; detail = [] }

abbrev pub positive_or : ℕ → ℤ → ℕ
positive_or d (pos zero) = d
positive_or d (pos (suc n)) = suc n
positive_or d (negsuc n) = d

module _ {R : Type 0} (redis : Redis R) (lib : Primitives) where
  unfoldable pub count_recovery_fetch : R → String → R × ℕ
  unfolding recovery_fetch_counter_key
  count_recovery_fetch r user_id =
      increment_in_window redis r (recovery_fetch_counter_key user_id) recovery_fetch_window_seconds

  unfoldable pub recovery_fetch_retry_after_seconds : R → String → ℕ
  unfolding recovery_fetch_counter_key
  recovery_fetch_retry_after_seconds r user_id =
      positive_or recovery_fetch_window_seconds (redis.ttl r (recovery_fetch_counter_key user_id))

  -- A slot that holds a record: the limit, then the audit row.
  unfoldable pub serve_escrow :
      R → Db → ℕ → String → RecoveryEscrow → R × Result HttpError (Db × RecoveryEscrow)
  unfolding count_recovery_fetch recovery_fetch_retry_after_seconds
  serve_escrow r db w user_id stored =
      let counted = count_recovery_fetch r user_id in
      if ltb recovery_fetch_daily_limit counted.1
      then (
        counted.0,
        err (record {
          status = 429;
          code = Code.escrow_fetch_rate_limited;
          detail =
              number "retry_after_seconds" (recovery_fetch_retry_after_seconds counted.0 user_id)
              ∷ [];
        }),
      )
      else (
        counted.0,
        ok (
          record db {
            escrow_fetches =
                db.escrow_fetches ++ record { workspace_id = w; user_id = user_id } ∷ [];
          },
          stored,
        ),
      )

  -- `get_recovery_escrow`, with the state of the counters
  unfoldable pub get_recovery_escrow :
      R → Db → ℕ → User → R × Result HttpError (Db × RecoveryEscrow)
  unfolding serve_escrow
  get_recovery_escrow r db w user = elim (require_derivable_workspace lib w user.user_id []) [
    | err e ↦ (r, err e)
    | ok _ ↦ elim (get_escrow db w user.user_id) [
      | none ↦ (r, err no_slot)
      | some stored ↦ serve_escrow r db w user.user_id stored
    ]
  ]

-- The database after a request.
abbrev pub left_by : Db → Result HttpError (Db × RecoveryEscrow) → Db
left_by db (err e) = db
left_by db (ok (after, out)) = after

abbrev pub one_if_served : Bool → Result HttpError (Db × RecoveryEscrow) → ℕ
one_if_served mine (err e) = 0
one_if_served mine (ok served) = if mine then 1 else 0

-- The audit rows of a User.
unfoldable pub audits : List RecoveryEscrowFetch → String → ℕ
audits [] user_id = 0
audits (row ∷ rows) user_id =
    let rest = audits rows user_id in if str_eq row.user_id user_id then suc rest else rest

pub audits-append :
    (rows : List RecoveryEscrowFetch) (row : RecoveryEscrowFetch) (user_id : String)
    → audits (rows ++ row ∷ []) user_id
      ≡ audits rows user_id + (if str_eq row.user_id user_id then 1 else 0)
unfolding audits
audits-append [] row user_id = ground arith
audits-append (x ∷ xs) row user_id = ground (arith, audits-append xs row user_id)
