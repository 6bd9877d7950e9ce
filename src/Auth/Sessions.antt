-- ===== src/Auth/Sessions.antt =====
-- The session routes of backend/app/auth/routes.py: sign-in, rotation, sign-out, registration; and the
-- rotation and revocation of member tokens of backend/app/sync/routes.py.
use jeeves.Common.{
  ℕ, suc, Bool, true, false, not, ◌&&◌, ◌||◌, List, [], ◌∷◌, ◌++◌, Option, none, some, String,
  str_eq, ◌==◌, ltb, find, is_some, if◌then◌else◌, Result, ok, ◌>>=◌, ◌>>◌, raise_if, or_raise,
}
use jeeves.Codes.{Code}
use jeeves.Store.{Db, User, RefreshToken, HttpError, get_member}
use jeeves.Auth.{
  AuthPrimitives, Lifetimes, Drawn, Token, hash_refresh_token, active_user, issue_user_tokens,
  issue_member_tokens,
}

abbrev has_hash : String → RefreshToken → Bool
has_hash token_hash row = str_eq row.token_hash token_hash

-- `select(RefreshToken).where(RefreshToken.token_hash == token_hash)`
unfoldable pub get_refresh_token : Db → String → Option RefreshToken
get_refresh_token db token_hash = find (has_hash token_hash) db.refresh_tokens

-- `record.revoked_at = now`
unfoldable pub stamp_token : String → ℕ → List RefreshToken → List RefreshToken
stamp_token token_hash now [] = []
stamp_token token_hash now (row ∷ rows) =
    let rest = stamp_token token_hash now rows in
    if has_hash token_hash row then record row { revoked_at = some now } ∷ rows else row ∷ rest

unfoldable pub revoke_token : Db → String → ℕ → Db
unfolding stamp_token
revoke_token db token_hash now = record db {
  refresh_tokens = stamp_token token_hash now db.refresh_tokens;
}

-- Neither revoked nor past its end.
abbrev pub is_live : ℕ → RefreshToken → Bool
is_live now row = not (is_some row.revoked_at) && ltb now row.expires_at

abbrev pub invalid_session : HttpError
invalid_session = record { status = 401; code = Code.invalid_or_expired_refresh_token; detail = [] }

abbrev pub invalid_member_token : HttpError
invalid_member_token = record { status = 401; code = Code.invalid_refresh_token; detail = [] }

abbrev pub is_for : ℕ → Option ℕ → Bool
is_for member_id none = false
is_for member_id (some id) = id == member_id

unfoldable pub refresh_session :
    AuthPrimitives → Lifetimes → Drawn → Db → String → Result HttpError (Db × Token)
unfolding get_refresh_token revoke_token
refresh_session lib lifetimes drawn db refresh_token = do
  let token_hash = hash_refresh_token lib refresh_token
  row ← or_raise (get_refresh_token db token_hash) invalid_session
  raise_if (is_some row.member_id || not (is_live drawn.now row)) invalid_session
  user ← or_raise (active_user db row.user_id) invalid_session
  ok (issue_user_tokens lib lifetimes drawn (revoke_token db token_hash drawn.now) user.user_id)

unfoldable pub refresh_member_token :
    AuthPrimitives → Lifetimes → Drawn → Db → ℕ → String → Result HttpError (Db × Token)
unfolding get_refresh_token revoke_token
refresh_member_token lib lifetimes drawn db member_id refresh_token = do
  let token_hash = hash_refresh_token lib refresh_token
  row ← or_raise (get_refresh_token db token_hash) invalid_member_token
  raise_if (not (is_for member_id row.member_id) || not (is_live drawn.now row))
      invalid_member_token
  member ← or_raise (get_member db member_id) invalid_member_token
  raise_if (not (is_some (active_user db member.user_id))) invalid_member_token
  ok (issue_member_tokens lib lifetimes drawn (revoke_token db token_hash drawn.now) member)

-- `revoke_member_transport`: the rows, and how many were stamped.
unfoldable pub revoke_member_transport : ℕ → ℕ → List RefreshToken → List RefreshToken × ℕ
revoke_member_transport member_id now [] = ([], 0)
revoke_member_transport member_id now (row ∷ rows) =
    let rest = revoke_member_transport member_id now rows in
    if is_for member_id row.member_id && not (is_some row.revoked_at)
    then (record row { revoked_at = some now } ∷ rest.0, suc rest.1)
    else (row ∷ rest.0, rest.1)

abbrev has_email : String → User → Bool
has_email email row = elim row.email [ none ↦ false | some e ↦ str_eq e email ]

abbrev password_ok : AuthPrimitives → String → User → Bool
password_ok lib password row = elim row.hashed_password [
  | none ↦ false
  | some hash ↦ row.is_active && (not (str_eq hash "") && lib.verify_password password hash)
]

-- `login`
unfoldable pub login :
    AuthPrimitives → Lifetimes → Drawn → Db → String → String → Result HttpError (Db × Token)
login lib lifetimes drawn db email password = do
  let refused : HttpError = record {
    status = 401;
    code = Code.incorrect_email_or_password;
    detail = [];
  }
  user ← or_raise (find (has_email email) db.users) refused
  raise_if (not (password_ok lib password user)) refused
  ok (issue_user_tokens lib lifetimes drawn db user.user_id)

-- `logout`, with or without a refresh token in the body
unfoldable pub logout : AuthPrimitives → ℕ → Db → User → Option String → Db
unfolding stamp_token
logout lib now db user none = db
logout lib now db user (some refresh_token) =
    let token_hash = hash_refresh_token lib refresh_token in
    elim (find (λ (row : RefreshToken). has_hash token_hash row && str_eq row.user_id user.user_id)
      db.refresh_tokens) [
        | none ↦ db
        | some row ↦
            if is_some row.revoked_at || str_eq refresh_token ""
            then db
            else record db { refresh_tokens = stamp_token token_hash now db.refresh_tokens }
      ]

-- `register_user`, under the id that is drawn for it
unfoldable pub register_user :
    AuthPrimitives
    → Lifetimes
    → Drawn
    → Db
    → String
    → String
    → String
    → Result HttpError (Db × Token)
register_user lib lifetimes drawn db user_id email password = do
  raise_if (is_some (find (has_email email) db.users))
      (record { status = 409; code = Code.email_already_registered; detail = [] })
  let user : User = record {
    user_id = user_id;
    email = some email;
    hashed_password = some (lib.hash_password password);
    solana_public_key = none;
    is_active = true;
  }
  ok (issue_user_tokens lib lifetimes drawn (record db { users = db.users ++ user ∷ [] }) user_id)
