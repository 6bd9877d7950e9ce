-- ===== src/Auth.antt =====
-- backend/app/auth/tokens.py and dependencies.py: access tokens with their claims, refresh tokens,
-- and who a bearer token stands for. Times are numbers of one clock.
pub mod Sessions
pub mod Members
pub mod Challenge
pub mod Separation
pub mod Exchange
use jeeves.Common.{
  ℕ, ◌+◌, Bool, true, false, not, ◌&&◌, ◌||◌, List, [], ◌∷◌, ◌++◌, Option, none, some, String,
  str_eq, ◌==◌, ltb, leb, find, is_some, if◌then◌else◌, Result, ok, err, ◌>>=◌, ◌>>◌, raise_if,
  or_raise,
}
use jeeves.Codes.{Code}
use jeeves.Json.{Json, Fields, text, int, pos, null, end, field, get}
use jeeves.Text.{uuid_text}
use jeeves.Store.{Db, User, Member, RefreshToken, HttpError, get_user, get_member}

-- PyJWT, hashlib, uuid and the password hash; the secret and the algorithm are settings.
pub record AuthPrimitives : Type 0 where
  pub jwt_encode : Fields → String
  -- `none` is `InvalidTokenError`, an expired token included
  pub jwt_decode : String → Option Fields
  -- `hashlib.sha256(raw.encode()).hexdigest()`
  pub sha256_hex : String → String
  -- `uuid.UUID(raw)`, where `none` is `ValueError`
  pub parse_uuid : String → Option ℕ
  pub hash_password : String → String
  pub verify_password : String → String → Bool

-- The lifetimes, on the clock of `now`.
pub record Lifetimes : Type 0 where
  pub access : ℕ
  pub refresh : ℕ

abbrev pub token_use_member : String
token_use_member = "member"

abbrev unauthorized : Code → HttpError
unauthorized code = record { status = 401; code = code; detail = [] }

-- `_credentials_exception`
abbrev pub credentials_exception : HttpError
credentials_exception = unauthorized Code.could_not_validate_credentials

-- `to_encode`: the claims, then the two times
unfoldable pub with_times : Fields → ℕ → ℕ → Fields
with_times end iat exp = field "iat" (int (pos iat)) (field "exp" (int (pos exp)) end)
with_times (field key value rest) iat exp = field key value (with_times rest iat exp)

unfoldable pub create_access_token : AuthPrimitives → Lifetimes → ℕ → Fields → String
unfolding with_times
create_access_token lib lifetimes now claims =
    lib.jwt_encode (with_times claims now (now + lifetimes.access))

unfoldable pub hash_refresh_token : AuthPrimitives → String → String
hash_refresh_token lib raw = lib.sha256_hex raw

-- `create_refresh_token`, of the random `raw`
unfoldable pub create_refresh_token :
    AuthPrimitives → Lifetimes → ℕ → String → String → Option ℕ → RefreshToken
unfolding hash_refresh_token
create_refresh_token lib lifetimes now raw user_id member_id = record {
  user_id = user_id;
  member_id = member_id;
  token_hash = hash_refresh_token lib raw;
  expires_at = now + lifetimes.refresh;
  revoked_at = none;
}

-- `user is not None and user.is_active`
unfoldable pub active_user : Db → String → Option User
active_user db user_id = elim (get_user db user_id) [
  | none ↦ none
  | some row ↦ if row.is_active then some row else none
]

abbrev pub is_member_use : Json → Bool
is_member_use (text token_use) = str_eq token_use token_use_member
is_member_use _ = false

-- The User that `sub` names. A missing `sub` is refused; another value than a text names nobody.
unfoldable pub user_of_sub : Db → Json → Option User
unfolding active_user
user_of_sub db (text user_id) = active_user db user_id
user_of_sub db _ = none

unfoldable pub get_current_user : AuthPrimitives → Db → String → Result HttpError User
unfolding user_of_sub
get_current_user lib db token = do
  payload ← or_raise (lib.jwt_decode token) credentials_exception
  raise_if (is_member_use (get payload "token_use")) credentials_exception
  or_raise (user_of_sub db (get payload "sub")) credentials_exception

-- `uuid.UUID(raw_member_id)`, of a text
unfoldable pub member_id_of : AuthPrimitives → Json → Option ℕ
member_id_of lib (text raw) = lib.parse_uuid raw
member_id_of lib _ = none

unfoldable pub resolve_member_token : AuthPrimitives → Db → String → Result HttpError Member
unfolding member_id_of active_user
resolve_member_token lib db token = do
  payload ← or_raise (lib.jwt_decode token) credentials_exception
  raise_if (not (is_member_use (get payload "token_use"))) credentials_exception
  member_id ← or_raise (member_id_of lib (get payload "member_id")) credentials_exception
  row ← or_raise (get_member db member_id) credentials_exception
  raise_if (not (is_some (active_user db row.user_id))) credentials_exception
  ok row

-- `Token`
pub record Token : Type 0 where
  pub access_token : String
  pub refresh_token : String

-- What a request draws: the clock and the random refresh token.
pub record Drawn : Type 0 where
  pub now : ℕ
  pub raw : String

-- A user session: `create_access_token({"sub": user.id})` and its refresh token.
unfoldable pub issue_user_tokens : AuthPrimitives → Lifetimes → Drawn → Db → String → Db × Token
unfolding create_access_token create_refresh_token
issue_user_tokens lib lifetimes drawn db user_id = (
  record db {
    refresh_tokens =
        db.refresh_tokens
        ++ create_refresh_token lib lifetimes drawn.now drawn.raw user_id none ∷ [];
  },
  record {
    access_token = create_access_token lib lifetimes drawn.now (field "sub" (text user_id) end);
    refresh_token = drawn.raw;
  },
)

abbrev pub member_claims : Member → Fields
member_claims row = field "sub" (text (uuid_text row.member_id)) (
    field "token_use" (text token_use_member)
      (field "member_id" (text (uuid_text row.member_id)) (field "user_id" (text row.user_id) end)))

-- `_issue_member_tokens`
unfoldable pub issue_member_tokens : AuthPrimitives → Lifetimes → Drawn → Db → Member → Db × Token
unfolding create_access_token create_refresh_token
issue_member_tokens lib lifetimes drawn db row = (
  record db {
    refresh_tokens =
        db.refresh_tokens
        ++ create_refresh_token lib lifetimes drawn.now drawn.raw row.user_id (some row.member_id)
          ∷ [];
  },
  record {
    access_token = create_access_token lib lifetimes drawn.now (member_claims row);
    refresh_token = drawn.raw;
  },
)
