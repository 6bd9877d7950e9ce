-- ===== src/Auth/Challenge.antt =====
-- backend/app/sync/member_auth.py and the two routes on it in backend/app/sync/routes.py: a Device
-- proves that it holds its signing key and gets a token of its own.
use jeeves.Common.{
  ℕ, Bool, true, false, not, [], ◌∷◌, ◌++◌, Option, none, some, String, str_eq, ◌==◌, ltb, length,
  is_some, if◌then◌else◌, Result, ok, err, ◌>>=◌, ◌>>◌, raise_if, or_raise,
}
use jeeves.Common.Bytes.{Bytes, codes, to_be}
use jeeves.Codes.{Code}
use jeeves.Crypto.{Primitives, Verdict}
use jeeves.Json.{Json, text, object, get, field, end}
use jeeves.Redis.{Redis, increment_in_window}
use jeeves.Store.{Db, Member, HttpError, number, unprocessable, get_member}
use jeeves.Text.{append_text, uuid_text}
use jeeves.Escrow.Fetches.{positive_or}
use jeeves.Auth.{AuthPrimitives, Lifetimes, Drawn, Token, active_user, issue_member_tokens}

abbrev pub signing_domain_auth_challenge_v1 : Bytes
signing_domain_auth_challenge_v1 = codes "jeeves/auth-challenge/v1"

abbrev pub member_challenge_ttl_seconds : ℕ
member_challenge_ttl_seconds = 120

abbrev pub member_challenge_nonce_bytes : ℕ
member_challenge_nonce_bytes = 32

unfoldable pub member_challenge_signing_input : ℕ → Bytes → Bytes
member_challenge_signing_input member_id nonce =
    signing_domain_auth_challenge_v1 ++ (to_be 16 member_id ++ nonce)

-- Whether `verify_member_challenge` returns.
abbrev is_proof : Verdict → Bool
is_proof Verdict.verified = true
is_proof Verdict.bad_signature = false
is_proof Verdict.value_error = false

unfoldable pub verify_member_challenge : Primitives → ℕ → Bytes → Bytes → Bytes → Bool
verify_member_challenge lib member_id nonce signature sign_pk =
    is_proof (lib.ed25519_verify sign_pk (member_challenge_signing_input member_id nonce) signature)

unfoldable pub challenge_key : String → String
challenge_key nonce_b64 = append_text "member_challenge:" nonce_b64

unfoldable pub member_challenge_counter_key : ℕ → String
member_challenge_counter_key member_id =
    append_text "member_challenge_issued:" (uuid_text member_id)

-- The two settings, and what a challenge draws: a nonce in base64, and the time as a text.
pub record ChallengeSettings : Type 0 where
  pub daily_limit : ℕ
  pub window_seconds : ℕ

pub record MemberTokenRequest : Type 0 where
  pub nonce : String
  pub signature : String

abbrev pub bad_member_challenge : HttpError
bad_member_challenge = record { status = 401; code = Code.bad_member_challenge; detail = [] }

abbrev names_member : ℕ → Json → Bool
names_member member_id (text id) = str_eq id (uuid_text member_id)
names_member member_id _ = false

-- `stored is None or stored.get("member_id") != str(member_id)`, negated
unfoldable pub is_for_member : ℕ → Option Json → Bool
is_for_member member_id (some (object fields)) = names_member member_id (get fields "member_id")
is_for_member member_id _ = false

module _ {R : Type 0} (redis : Redis R) where
  unfoldable pub create_member_challenge : R → ℕ → String → String → R
  create_member_challenge r member_id nonce_b64 issued_at =
      redis.set_ex r (challenge_key nonce_b64)
        (object
          (field "member_id" (text (uuid_text member_id)) (field "issued_at" (text issued_at) end)))
        member_challenge_ttl_seconds

  unfoldable pub consume_member_challenge : R → String → R × Option Json
  consume_member_challenge r nonce_b64 = redis.getdel r (challenge_key nonce_b64)

  unfoldable pub count_member_challenge : ChallengeSettings → R → ℕ → R × ℕ
  count_member_challenge settings r member_id =
      increment_in_window redis r (member_challenge_counter_key member_id) settings.window_seconds

  -- `issue_member_challenge`, of the nonce and the time that are drawn
  unfoldable pub issue_member_challenge :
      ChallengeSettings → R → Db → ℕ → String → String → R × Result HttpError String
  unfolding create_member_challenge count_member_challenge
  issue_member_challenge settings r db member_id nonce_b64 issued_at =
      let counted = count_member_challenge settings r member_id in
      if not (is_some (get_member db member_id))
      then (r, err (record { status = 404; code = Code.unknown_member; detail = [] }))
      else if ltb settings.daily_limit counted.1
      then (
        counted.0,
        err (record {
          status = 429;
          code = Code.member_challenge_rate_limited;
          detail =
              number "retry_after_seconds" (
                positive_or settings.window_seconds
                  (redis.ttl counted.0 (member_challenge_counter_key member_id)))
              ∷ [];
        }),
      )
      else (create_member_challenge counted.0 member_id nonce_b64 issued_at, ok nonce_b64)

-- The Member of an active User.
unfoldable pub active_member : Db → ℕ → Option Member
active_member db member_id = elim (get_member db member_id) [
  | none ↦ none
  | some row ↦ if is_some (active_user db row.user_id) then some row else none
]

-- What follows the GETDEL.
unfoldable pub check_challenge :
    Primitives → ℕ → Member → MemberTokenRequest → Option Json → Result HttpError (Unit {0})
check_challenge lib member_id member body stored = do
  nonce ← or_raise (lib.b64decode body.nonce) (unprocessable Code.bad_member_challenge [])
  raise_if (not (length nonce == member_challenge_nonce_bytes)) bad_member_challenge
  signature ← or_raise (lib.b64decode body.signature) (unprocessable Code.bad_member_challenge [])
  raise_if (not (is_for_member member_id stored)) bad_member_challenge
  raise_if (not (verify_member_challenge lib member_id nonce signature member.sign_pk))
      bad_member_challenge

-- `issue_member_token`, with the state of the challenges
unfoldable pub issue_member_token :
    {R : Type 0}
    → Redis R
    → Primitives
    → AuthPrimitives
    → Lifetimes
    → Drawn
    → R
    → Db
    → ℕ
    → MemberTokenRequest
    → R × Result HttpError (Db × Token)
unfolding consume_member_challenge active_member check_challenge
issue_member_token redis lib auth lifetimes drawn r db member_id body =
    elim (active_member db member_id) [
      | none ↦ (r, err bad_member_challenge)
      | some member ↦
          let consumed = consume_member_challenge redis r body.nonce in
          (
            consumed.0,
            check_challenge lib member_id member body consumed.1
                >> ok (issue_member_tokens auth lifetimes drawn db member),
          )
    ]
