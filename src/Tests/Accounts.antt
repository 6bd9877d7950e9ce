-- ===== src/Tests/Accounts.antt =====
-- The recovery escrow, tokens and challenges at concrete requests.
use jeeves.Common.{
  ℕ, ◌+◌, ◌-◌, ◌≤◌, ◌≡◌, refl, sym, arith, true, inl, List, [], ◌∷◌, ◌++◌, Option, none, some,
  String, str_eq, str_eq_iff, if◌then◌else◌, ok, err, some-eq,
}
use jeeves.Common.Bytes.{codes}
use jeeves.Json.{Json, text, object, field, end, get, pos}
use jeeves.Redis.{Redis, IsCounting, IsGetdel}
use jeeves.Store.{Db, User, RecoveryEscrow, HttpError}
use jeeves.Text.{uuid_text}
use jeeves.Escrow.{RecoveryEscrowRequest, verify_escrow_signature, put_recovery_escrow}
use jeeves.Escrow.Advances.{Advances, same_row}
use jeeves.Escrow.Slot.{Writes, put_recovery_escrow-Writes}
use jeeves.Escrow.Fetches.{audits}
use jeeves.Escrow.Limit.{fetch_all, fetch_all-Limit}
use jeeves.Auth.{
  AuthPrimitives, Lifetimes, Drawn, Token, is_member_use, get_current_user, resolve_member_token,
  credentials_exception, issue_user_tokens, issue_member_tokens,
}
use jeeves.Auth.Sessions.{refresh_session}
use jeeves.Auth.Exchange.{IsRefused, refresh-IsRefused}
use jeeves.Auth.Challenge.{MemberTokenRequest, issue_member_token}
use jeeves.Auth.Separation.{
  IsHonest, issued_to_member, issued_to_user, access_tokens-kinds, Proves, issue_member_token-once,
}
use jeeves.Tests.Samples.{world, db, member, key}

abbrev user : User
user = record {
  user_id = "user";
  email = none;
  hashed_password = none;
  solana_public_key = none;
  is_active = true;
}

-- Everything signed verifies; a text decodes to its own bytes, and a long signature to zeros.
abbrev rewrap : RecoveryEscrowRequest
rewrap = record {
  version = pos 2;
  blob_b64 = "blob";
  root_sig_b64 = "0123456789abcdef0123456789abcdef0123456789abcdef0123456789abcdef";
  root_pk_b64 = "0123456789abcdef0123456789abcdef";
}

abbrev rewrapped : RecoveryEscrow
rewrapped = record {
  workspace_id = 7;
  user_id = "user";
  version = 2;
  blob = codes "blob";
  root_sig = codes "0123456789abcdef0123456789abcdef0123456789abcdef0123456789abcdef";
  root_pk = key;
}

abbrev rewrapped_db : Db
rewrapped_db = record db { escrows = rewrapped ∷ [] }

escrow_put : put_recovery_escrow world db db 7 user rewrap ≡ ok (rewrapped_db, rewrapped)
unfolding put_recovery_escrow jeeves.Ids.require_derivable_workspace jeeves.Ids.is_derivable
    jeeves.Escrow.decode_escrow jeeves.Escrow.require_escrow_version verify_escrow_signature
    jeeves.Escrow.write_escrow jeeves.Escrow.replace_escrow
escrow_put = refl

-- The loser of two re-wraps learns that the version has moved on.
escrow_lost : (e : HttpError) × (put_recovery_escrow world db rewrapped_db 7 user rewrap ≡ err e)
unfolding put_recovery_escrow jeeves.Ids.require_derivable_workspace jeeves.Ids.is_derivable
    jeeves.Escrow.decode_escrow jeeves.Escrow.require_escrow_version verify_escrow_signature
    jeeves.Escrow.write_escrow jeeves.Escrow.replace_escrow
escrow_lost = (_, refl)

db-Advances : Advances db db
db-Advances w user_id row found = (row, found, same_row row)

put_recovery_escrow-Writes_example :
    Writes db rewrapped_db 7 "user" rewrapped
    × (verify_escrow_signature world 7 2 rewrapped.blob rewrapped.root_sig rewrapped.root_pk
        ≡ ok tt)
put_recovery_escrow-Writes_example =
    put_recovery_escrow-Writes world db db 7 user rewrap rewrapped_db rewrapped db-Advances
      escrow_put

-- A store of counters.
abbrev counters : Redis (String → ℕ)
counters = record {
  incr = λ r k. (λ j. if str_eq j k then r k + 1 else r j, r k + 1);
  expire_nx = λ r k seconds. r;
  ttl = λ r k. pos 60;
  set_ex = λ r k value seconds. r;
  getdel = λ r k. (r, none);
}

counters-IsCounting : IsCounting counters
counters-IsCounting = record {
  count = λ r k. r k;
  incr_count = λ r k. refl;
  incr_same = λ r k. ground (arith, str_eq_iff k k);
  incr_other = λ r k j apart. ground (arith, str_eq_iff j k);
  expire_nx_count = λ r k j seconds. refl;
}

abbrev two_fetches : List (ℕ × User)
two_fetches = (7, user) ∷ (7, user) ∷ []

fetch_all-Limit_example :
    (audits (fetch_all counters world (λ k. 0) db two_fetches "user").1.0.escrow_fetches "user"
      ≡ audits [] "user" + (fetch_all counters world (λ k. 0) db two_fetches "user").1.1)
    × ((fetch_all counters world (λ k. 0) db two_fetches "user").1.1 ≤ 20 - 0)
unfolding counters-IsCounting
fetch_all-Limit_example =
    fetch_all-Limit counters world counters-IsCounting (λ k. 0) db two_fetches "user"

two_served : (fetch_all counters world (λ k. 0) db two_fetches "user").1.1 ≡ 2
unfolding fetch_all jeeves.Ids.require_derivable_workspace jeeves.Ids.is_derivable
    jeeves.Redis.increment_in_window jeeves.Text.append_text
two_served = refl

one_left : (fetch_all counters world (λ k. 19) db two_fetches "user").1.1 ≡ 1
unfolding fetch_all jeeves.Ids.require_derivable_workspace jeeves.Ids.is_derivable
    jeeves.Redis.increment_in_window jeeves.Text.append_text
one_left = refl

-- Tokens that are their kind, and claims of one Member and one User at time 10.
abbrev lifetimes : Lifetimes
lifetimes = record { access = 5; refresh = 100 }

abbrev drawn : Drawn
drawn = record { now = 10; raw = "fresh" }

abbrev auth : AuthPrimitives
auth = record {
  jwt_encode = λ claims. if is_member_use (get claims "token_use") then "member" else "user";
  jwt_decode = λ token.
      if str_eq token "member"
      then some (issued_to_member lifetimes 10 member)
      else some (issued_to_user lifetimes 10 "user");
  sha256_hex = λ raw. raw;
  parse_uuid = λ raw. some 5;
  hash_password = λ password. password;
  verify_password = str_eq;
}

member_claims-IsHonest : IsHonest auth (issued_to_member lifetimes 10 member)
unfolding jeeves.Auth.with_times get
member_claims-IsHonest decoded h = sym (some-eq h)

user_claims-IsHonest : IsHonest auth (issued_to_user lifetimes 10 "user")
unfolding jeeves.Auth.with_times get
user_claims-IsHonest decoded h = sym (some-eq h)

abbrev accounts_db : Db
accounts_db = record db {
  users = user ∷ [];
  refresh_tokens =
      record {
        user_id = "user";
        member_id = none;
        token_hash = "old";
        expires_at = 50;
        revoked_at = none;
      }
      ∷ [];
}

access_tokens-kinds_example :
    (get_current_user auth accounts_db
        (issue_member_tokens auth lifetimes drawn db member).1.access_token
      ≡ err credentials_exception)
    × (resolve_member_token auth accounts_db
          (issue_user_tokens auth lifetimes drawn db "user").1.access_token
        ≡ err credentials_exception)
access_tokens-kinds_example =
    access_tokens-kinds auth lifetimes drawn db accounts_db "user" member member_claims-IsHonest
      user_claims-IsHonest

-- Shown for what it is, each token is taken.
member_token_taken : resolve_member_token auth accounts_db "member" ≡ ok member
unfolding resolve_member_token get jeeves.Auth.with_times
member_token_taken = refl

user_token_taken : get_current_user auth accounts_db "user" ≡ ok user
unfolding get_current_user get jeeves.Auth.with_times
user_token_taken = refl

abbrev refreshed_db : Db
refreshed_db = record accounts_db {
  refresh_tokens =
      record {
        user_id = "user";
        member_id = none;
        token_hash = "old";
        expires_at = 50;
        revoked_at = some 10;
      }
      ∷ record {
        user_id = "user";
        member_id = none;
        token_hash = "fresh";
        expires_at = 110;
        revoked_at = none;
      }
      ∷ [];
}

session_refreshed :
    refresh_session auth lifetimes drawn accounts_db "old"
    ≡ ok (refreshed_db, record { access_token = "user"; refresh_token = "fresh" })
unfolding refresh_session jeeves.Auth.hash_refresh_token jeeves.Auth.active_user issue_user_tokens
    get
session_refreshed = refl

refresh-IsRefused_example : IsRefused auth lifetimes refreshed_db "old"
refresh-IsRefused_example =
    refresh-IsRefused auth lifetimes drawn accounts_db 5 "old" refreshed_db
      (record { access_token = "user"; refresh_token = "fresh" }) (inl session_refreshed)

-- A store of challenges.
abbrev challenges : Redis (String → Option Json)
challenges = record {
  incr = λ r k. (r, 1);
  expire_nx = λ r k seconds. r;
  ttl = λ r k. pos 60;
  set_ex = λ r k value seconds j. if str_eq j k then some value else r j;
  getdel = λ r k. (λ j. if str_eq j k then none else r j, r k);
}

challenges-IsGetdel : IsGetdel challenges
challenges-IsGetdel = record {
  value = λ r k. r k;
  getdel_value = λ r k. refl;
  getdel_same = λ r k. ground (arith, str_eq_iff k k);
}

abbrev issued_challenges : String → Option Json
issued_challenges k = some (object (field "member_id" (text (uuid_text 5)) end))

abbrev proof_5 : MemberTokenRequest
proof_5 = record { nonce = "0123456789abcdef0123456789abcdef"; signature = "signed" }

abbrev tokens_db : Db
tokens_db = record accounts_db {
  refresh_tokens =
      accounts_db.refresh_tokens
      ++ record {
        user_id = "user";
        member_id = some 5;
        token_hash = "fresh";
        expires_at = 110;
        revoked_at = none;
      }
        ∷ [];
}

token_issued :
    (issue_member_token challenges world auth lifetimes drawn issued_challenges accounts_db 5
      proof_5).1
    ≡ ok (tokens_db, record { access_token = "member"; refresh_token = "fresh" })
unfolding issue_member_token jeeves.Auth.active_user jeeves.Auth.Challenge.is_for_member get
    uuid_text jeeves.Auth.Challenge.verify_member_challenge issue_member_tokens
token_issued = refl

issue_member_token-once_example :
    Proves challenges world issued_challenges accounts_db 5 proof_5
    × ((e : HttpError) × ((issue_member_token challenges world auth lifetimes drawn
            (issue_member_token challenges world auth lifetimes drawn issued_challenges accounts_db
              5 proof_5).0
            tokens_db
            5
            proof_5).1
          ≡ err e))
issue_member_token-once_example =
    issue_member_token-once challenges world auth lifetimes drawn drawn issued_challenges
      accounts_db tokens_db 5 5 proof_5 proof_5 tokens_db
      (record { access_token = "member"; refresh_token = "fresh" }) challenges-IsGetdel refl
      token_issued
