-- ===== src/Grants/Laws.antt =====
-- The grant index.
use jeeves.Common.{
  ℕ, ◌≡◌, ◌↔◌, refl, arith, inl, inr, Bool-cases, true, false, Bool, not, ◌&&◌, List, [], ◌∷◌, none,
  some, String, ◌==◌, any, if◌then◌else◌, ok,
}
use mathlib.Core.Option
use jeeves.Store.{Grant}
use jeeves.Grants.{
  GrantState, GrantIndex, row_state, state, put_state, index_of_rows, revoke, live_roles,
  require_role, role_op_class_matrix, has_role,
}

-- A live grant of a role.
abbrev pub LiveGrant : GrantIndex → ℕ → String → Type 0
LiveGrant index member_id role =
    (grant_id : ℕ) × (state index grant_id
      ≡ some (record { member_id = member_id; role = role; revoked = false }))

pub state-put_state :
    (index : GrantIndex) (g h : ℕ) (s : GrantState)
    → state (put_state index g s) h ≡ (if g == h then some s else state index h)
unfolding state put_state
state-put_state [] g h s = refl
state-put_state ((k, t) ∷ rest) g h s = ground (arith, state-put_state rest g h s)

-- Revoking marks the named grant, if there is one, and leaves every other as it was.
pub state-revoke :
    (index : GrantIndex) (g h : ℕ)
    → state (revoke index g) h ≡ (
        if g == h
        then Option.map (λ (s : GrantState). record s { revoked = true }) (state index h)
        else state index h)
unfolding state revoke
state-revoke [] g h = ground arith
state-revoke ((k, t) ∷ rest) g h = ground (arith, state-revoke rest g h)

-- The keys of a dict are distinct.
abbrev pub Distinct : GrantIndex → Type 0
Distinct [] = Unit
Distinct ((k, s) ∷ rest) = (state rest k ≡ none) × Distinct rest

pub put_state-Distinct :
    (index : GrantIndex) (g : ℕ) (s : GrantState) → Distinct index → Distinct (put_state index g s)
unfolding put_state
put_state-Distinct [] g s d = (unfold state in refl, tt)
put_state-Distinct ((k, t) ∷ rest) g s d =
    ground (arith, put_state-Distinct rest g s d.1, state-put_state rest g k s)

pub index_of_rows-Distinct :
    (rows : List Grant) (index : GrantIndex) → Distinct index → Distinct (index_of_rows index rows)
unfolding index_of_rows
index_of_rows-Distinct [] index d = d
index_of_rows-Distinct (row ∷ rows) index d =
    index_of_rows-Distinct rows (put_state index row.grant_id (row_state row))
      (put_state-Distinct index row.grant_id (row_state row) d)

pub revoke-Distinct : (index : GrantIndex) (g : ℕ) → Distinct index → Distinct (revoke index g)
unfolding revoke
revoke-Distinct [] g d = d
revoke-Distinct ((k, t) ∷ rest) g d =
    ground (arith, revoke-Distinct rest g d.1, state-revoke rest g k)

-- A grant of `member_id` that is not revoked and whose role passes a test.
pub record LiveWhere (p : String → Bool) (index : GrantIndex) (member_id : ℕ) : Type 0 where
  pub grant_id : ℕ
  pub grant : GrantState
  pub found : state index grant_id ≡ some grant
  pub holder : grant.member_id ≡ member_id
  pub live : grant.revoked ≡ false
  pub passes : p grant.role ≡ true

any-live_roles-of_LiveWhere :
    (p : String → Bool) (index : GrantIndex) (m g : ℕ) (s : GrantState)
    → state index g ≡ some s
    → s.member_id ≡ m
    → s.revoked ≡ false
    → p s.role ≡ true
    → any p (live_roles index m) ≡ true
unfolding state live_roles
any-live_roles-of_LiveWhere p [] m g s found holder live passes = cc
any-live_roles-of_LiveWhere p ((k, t) ∷ rest) m g s found holder live passes =
    ground (arith, any-live_roles-of_LiveWhere p rest m g s)

LiveWhere-cons :
    (p : String → Bool) (k : ℕ) (t : GrantState) (rest : GrantIndex) (m : ℕ)
    → state rest k ≡ none
    → LiveWhere p rest m
    → LiveWhere p ((k, t) ∷ rest) m
LiveWhere-cons p k t rest m fresh l = record {
  grant_id = l.grant_id;
  grant = l.grant;
  found = unfold state in ground (arith, l.found);
  holder = l.holder;
  live = l.live;
  passes = l.passes;
}

LiveWhere-head :
    (p : String → Bool) (k : ℕ) (t : GrantState) (rest : GrantIndex) (m : ℕ)
    → t.member_id ≡ m
    → t.revoked ≡ false
    → p t.role ≡ true
    → LiveWhere p ((k, t) ∷ rest) m
LiveWhere-head p k t rest m holder live passes = record {
  grant_id = k;
  grant = t;
  found = unfold state in ground arith;
  holder = holder;
  live = live;
  passes = passes;
}

LiveWhere-of_any :
    (p : String → Bool) (index : GrantIndex) (m : ℕ)
    → Distinct index
    → any p (live_roles index m) ≡ true
    → LiveWhere p index m
unfolding live_roles
LiveWhere-of_any p [] m d h = absurd (cc h)
LiveWhere-of_any p ((k, t) ∷ rest) m d h =
    elim (Bool-cases (t.member_id == m && (not t.revoked && p t.role))) [
      | inl here ↦ LiveWhere-head p k t rest m (ground arith) (ground arith) (ground arith)
      | inr other ↦ LiveWhere-cons p k t rest m d.0 (LiveWhere-of_any p rest m d.1 (ground arith))
    ]

-- Whether the matrix admits a role for an op class.
abbrev pub admits : ℕ → String → Bool
admits op_class role = has_role (role_op_class_matrix op_class) role

-- The role gate passes exactly when the Member holds a grant that is not revoked and whose role the
-- matrix admits for the op class.
pub require_role_iff :
    (index : GrantIndex) (member_id op_class i : ℕ)
    → Distinct index
    → (require_role index member_id op_class i ≡ ok tt)
      ↔ LiveWhere (admits op_class) index member_id
unfolding require_role
require_role_iff index m c i d = (
  λ passed. LiveWhere-of_any (admits c) index m d (ground arith),
  λ l. ground (
    arith,
    any-live_roles-of_LiveWhere (admits c) index m l.grant_id l.grant l.found l.holder l.live
        l.passes,
  ),
)
