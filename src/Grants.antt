-- ===== src/Grants.antt =====
-- `_GrantIndex` of backend/app/sync/routes.py, the role matrix of control_payload.py, and the two
-- gates that read them: `_require_role` and `_refuse_if_revoked`.
pub mod Laws
use jeeves.Common.{
  ℕ, Bool, true, false, not, ◌&&◌, ◌||◌, List, [], ◌∷◌, Option, none, some, String, str_eq, ◌==◌,
  any, all, is_some, if◌then◌else◌, Result, ok, err,
}
use jeeves.Codes.{Code, no_live_grant, role_forbids_op_class}
use jeeves.Store.{Grant, Member, Db, HttpError, forbidden, number, flag, texts}

abbrev pub role_owner : String
role_owner = "owner"

abbrev pub role_participant : String
role_participant = "participant"

abbrev pub role_compactor : String
role_compactor = "compactor"

abbrev pub role_suggester : String
role_suggester = "suggester"

abbrev pub known_roles : List String
known_roles = role_owner ∷ role_participant ∷ role_compactor ∷ role_suggester ∷ []

-- `role in {...}`
abbrev pub has_role : List String → String → Bool
has_role roles role = any (λ r. str_eq role r) roles

-- `ROLE_OP_CLASS_MATRIX.get(op_class, frozenset())`
unfoldable pub role_op_class_matrix : ℕ → List String
role_op_class_matrix op_class =
    if op_class == 1
    then role_owner ∷ role_participant ∷ []
    else if op_class == 2
    then role_owner ∷ []
    else if op_class == 3
    then known_roles
    else if op_class == 4
    then role_owner ∷ role_compactor ∷ []
    else if op_class == 5
    then role_owner ∷ role_compactor ∷ []
    else []

pub record GrantState : Type 0 where
  pub member_id : ℕ
  pub role : String
  pub revoked : Bool

-- The dict of `_GrantIndex`, by grant id, in insertion order.
abbrev pub GrantIndex : Type 0
GrantIndex = List (ℕ × GrantState)

unfoldable pub state : GrantIndex → ℕ → Option GrantState
state [] grant_id = none
state ((k, s) ∷ rest) grant_id = if k == grant_id then some s else state rest grant_id

-- `self._states[grant_id] = s`
unfoldable pub put_state : GrantIndex → ℕ → GrantState → GrantIndex
put_state [] grant_id s = (grant_id, s) ∷ []
put_state ((k, t) ∷ rest) grant_id s =
    if k == grant_id then (k, s) ∷ rest else (k, t) ∷ put_state rest grant_id s

abbrev pub row_state : Grant → GrantState
row_state row = record {
  member_id = row.member_id;
  role = row.role;
  revoked = is_some row.revoked_by_seq;
}

unfoldable pub index_of_rows : GrantIndex → List Grant → GrantIndex
unfolding put_state
index_of_rows index [] = index
index_of_rows index (row ∷ rows) = index_of_rows (put_state index row.grant_id (row_state row)) rows

unfoldable pub rows_of_workspace : ℕ → List Grant → List Grant
rows_of_workspace w [] = []
rows_of_workspace w (row ∷ rows) =
    let rest = rows_of_workspace w rows in if row.workspace_id == w then row ∷ rest else rest

-- `_grant_index`
unfoldable pub grant_index : Db → ℕ → GrantIndex
unfolding index_of_rows rows_of_workspace
grant_index db w = index_of_rows [] (rows_of_workspace w db.grants)

unfoldable pub live_roles : GrantIndex → ℕ → List String
live_roles [] member_id = []
live_roles ((k, s) ∷ rest) member_id =
    let roles = live_roles rest member_id in
    if s.member_id == member_id && not s.revoked then s.role ∷ roles else roles

unfoldable pub has_any_grant : GrantIndex → ℕ → Bool
has_any_grant index member_id = any (λ (e : ℕ × GrantState). e.1.member_id == member_id) index

abbrev pub is_empty : List String → Bool
is_empty [] = true
is_empty (r ∷ rs) = false

unfoldable pub is_revoked : GrantIndex → ℕ → Bool
unfolding has_any_grant live_roles
is_revoked index member_id = has_any_grant index member_id && is_empty (live_roles index member_id)

unfoldable pub add : GrantIndex → ℕ → ℕ → String → GrantIndex
unfolding put_state
add index grant_id member_id role =
    put_state index grant_id (record { member_id = member_id; role = role; revoked = false })

unfoldable pub revoke : GrantIndex → ℕ → GrantIndex
revoke [] grant_id = []
revoke ((k, s) ∷ rest) grant_id =
    if k == grant_id then (k, record s { revoked = true }) ∷ rest else (k, s) ∷ revoke rest grant_id

-- `_require_role`. The detail's `roles` are the live roles in the index's order.
unfoldable pub require_role : GrantIndex → ℕ → ℕ → ℕ → Result HttpError (Unit {0})
require_role grants member_id op_class index =
    let roles = live_roles grants member_id in
    if is_empty roles
    then (if has_any_grant grants member_id
        then err (forbidden no_live_grant (number "index" index ∷ flag "revoked" true ∷ []))
        else err (forbidden no_live_grant (number "index" index ∷ [])))
    else if not (any (has_role (role_op_class_matrix op_class)) roles)
    then err (
        forbidden role_forbids_op_class
          (number "index" index ∷ number "op_class" op_class ∷ texts "roles" roles ∷ []))
    else ok tt

-- `_refuse_if_revoked`: the `revoked_by_seq` column of the Member's rows.
unfoldable pub revocations : List Grant → ℕ → ℕ → List (Option ℕ)
revocations [] w member_id = []
revocations (row ∷ rows) w member_id =
    let rest = revocations rows w member_id in
    if row.workspace_id == w && row.member_id == member_id then row.revoked_by_seq ∷ rest else rest

abbrev all_revoked : List (Option ℕ) → Bool
all_revoked [] = false
all_revoked (r ∷ rs) = is_some r && all is_some rs

unfoldable pub refuse_if_revoked : Db → ℕ → Member → Result HttpError (Unit {0})
unfolding revocations
refuse_if_revoked db w member =
    if all_revoked (revocations db.grants w member.member_id)
    then err (forbidden no_live_grant (flag "revoked" true ∷ []))
    else ok tt
