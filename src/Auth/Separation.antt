-- ===== src/Auth/Separation.antt =====
-- A token of a Member never stands for its User, nor one of a User for a Member; and a nonce is
-- spent on the Member that proves its key.
use jeeves.Common.{
  ℕ, ◌+◌, ◌≡◌, refl, sym, ap, ◌∙◌, arith, subst, true, none, some, String, ok, err, Result-cases,
  Option-cases, inl, inr,
}
use jeeves.Common.Bytes.{Bytes}
use jeeves.Crypto.{Primitives}
use jeeves.Json.{Fields, get, field, end, text}
use jeeves.Redis.{Redis, IsGetdel}
use jeeves.Store.{Db, Member, HttpError}
use jeeves.Auth.{
  AuthPrimitives, Lifetimes, Drawn, Token, with_times, create_access_token, get_current_user,
  resolve_member_token, credentials_exception, issue_user_tokens, issue_member_tokens,
  member_claims,
}
use jeeves.Auth.Challenge.{
  MemberTokenRequest, challenge_key, consume_member_challenge, is_for_member, check_challenge,
  verify_member_challenge, active_member, issue_member_token,
}

-- Where the token of some claims decodes, it has the claims that were encoded.
abbrev pub IsHonest : AuthPrimitives → Fields → Type 0
IsHonest lib claims =
    (decoded : Fields) → lib.jwt_decode (lib.jwt_encode claims) ≡ some decoded → decoded ≡ claims

-- The claims of a token of a Member and of a User.
abbrev pub issued_to_member : Lifetimes → ℕ → Member → Fields
issued_to_member lifetimes now member =
    with_times (member_claims member) now (now + lifetimes.access)

abbrev pub issued_to_user : Lifetimes → ℕ → String → Fields
issued_to_user lifetimes now user_id =
    with_times (field "sub" (text user_id) end) now (now + lifetimes.access)

-- What an issued token decodes to, where it decodes.
issued_claims :
    (lib : AuthPrimitives) (lifetimes : Lifetimes) (now : ℕ) (claims decoded_claims : Fields)
    → IsHonest lib (with_times claims now (now + lifetimes.access))
    → lib.jwt_decode (create_access_token lib lifetimes now claims) ≡ some decoded_claims
    → lib.jwt_decode (create_access_token lib lifetimes now claims)
      ≡ some (with_times claims now (now + lifetimes.access))
unfolding create_access_token
issued_claims lib lifetimes now claims decoded_claims honest h =
    h ∙ ap some (honest decoded_claims h)

member_token_refused :
    (lib : AuthPrimitives) (lifetimes : Lifetimes) (now : ℕ) (db : Db) (member : Member)
    → IsHonest lib (issued_to_member lifetimes now member)
    → get_current_user lib db (create_access_token lib lifetimes now (member_claims member))
      ≡ err credentials_exception
unfolding get_current_user with_times get
member_token_refused lib lifetimes now db member honest =
    let token = create_access_token lib lifetimes now (member_claims member) in
    elim (Option-cases (lib.jwt_decode token)) [
      | inl invalid ↦ rw invalid refl
      | inr (claims, found) ↦
          rw (issued_claims lib lifetimes now (member_claims member) claims honest found) refl
    ]

user_token_refused :
    (lib : AuthPrimitives) (lifetimes : Lifetimes) (now : ℕ) (db : Db) (user_id : String)
    → IsHonest lib (issued_to_user lifetimes now user_id)
    → resolve_member_token lib db
        (create_access_token lib lifetimes now (field "sub" (text user_id) end))
      ≡ err credentials_exception
unfolding resolve_member_token with_times get
user_token_refused lib lifetimes now db user_id honest =
    let data_of : Fields = field "sub" (text user_id) end in
    elim (Option-cases (lib.jwt_decode (create_access_token lib lifetimes now data_of))) [
      | inl invalid ↦ rw invalid refl
      | inr (claims, found) ↦ rw (issued_claims lib lifetimes now data_of claims honest found) refl
    ]

-- The access token that a Member is issued is refused as that of a User, and the one that a User is
-- issued is refused as that of a Member, whatever the tables hold when it is shown; where one of
-- them decodes, it has its claims.
pub access_tokens-kinds :
    (lib : AuthPrimitives) (lifetimes : Lifetimes) (drawn : Drawn) (db later : Db)
    (user_id : String) (member : Member)
    → IsHonest lib (issued_to_member lifetimes drawn.now member)
    → IsHonest lib (issued_to_user lifetimes drawn.now user_id)
    → (get_current_user lib later (issue_member_tokens lib lifetimes drawn db member).1.access_token
        ≡ err credentials_exception)
      × (resolve_member_token lib later
            (issue_user_tokens lib lifetimes drawn db user_id).1.access_token
          ≡ err credentials_exception)
unfolding issue_member_tokens issue_user_tokens
access_tokens-kinds lib lifetimes drawn db later user_id member of_member of_user = (
  member_token_refused lib lifetimes drawn.now later member of_member,
  user_token_refused lib lifetimes drawn.now later user_id of_user,
)

-- What a token that was issued on a challenge was issued for.
pub record Proves {R : Type 0} (redis : Redis R) (lib : Primitives) (r : R) (db : Db)
    (member_id : ℕ) (body : MemberTokenRequest) : Type 0 where
  pub member : Member
  pub nonce : Bytes
  pub signature : Bytes
  pub registered : active_member db member_id ≡ some member
  pub issued : is_for_member member_id (consume_member_challenge redis r body.nonce).1 ≡ true
  pub nonce_of : lib.b64decode body.nonce ≡ some nonce
  pub signed : verify_member_challenge lib member_id nonce signature member.sign_pk ≡ true

issue_member_token-Proves :
    {R : Type 0} (redis : Redis R) (lib : Primitives) (auth : AuthPrimitives)
    (lifetimes : Lifetimes) (drawn : Drawn) (r : R) (db : Db) (member_id : ℕ)
    (body : MemberTokenRequest) (after : Db) (token : Token)
    → (issue_member_token redis lib auth lifetimes drawn r db member_id body).1 ≡ ok (after, token)
    → Proves redis lib r db member_id body
unfolding issue_member_token check_challenge
issue_member_token-Proves redis lib auth lifetimes drawn r db member_id body after token h =
    elim (Option-cases (active_member db member_id)) [
      | inl unknown ↦ absurd (ground arith)
      | inr (member, registered) ↦ elim (Option-cases (lib.b64decode body.nonce)) [
        | inl bad ↦ absurd (ground arith)
        | inr (nonce, nonce_of) ↦ elim (Option-cases (lib.b64decode body.signature)) [
          | inl bad ↦ absurd (ground arith)
          | inr (signature, signature_of) ↦ record {
            member = member;
            nonce = nonce;
            signature = signature;
            registered = registered;
            issued = ground arith;
            nonce_of = nonce_of;
            signed = ground arith;
          }
        ]
      ]
    ]

-- A token request on a nonce that is gone is refused.
spent_nonce_refused :
    {R : Type 0} (redis : Redis R) (lib : Primitives) (auth : AuthPrimitives)
    (lifetimes : Lifetimes) (drawn : Drawn) (r : R) (db : Db) (member_id : ℕ)
    (body : MemberTokenRequest)
    → (consume_member_challenge redis r body.nonce).1 ≡ none
    → (e : HttpError) × ((issue_member_token redis lib auth lifetimes drawn r db member_id body).1
        ≡ err e)
unfolding issue_member_token check_challenge is_for_member
spent_nonce_refused redis lib auth lifetimes drawn r db member_id body gone =
    elim (Result-cases (issue_member_token redis lib auth lifetimes drawn r db member_id body).1) [
      | inr refused ↦ refused
      | inl (served, bad) ↦ absurd (ground arith)
    ]

-- The request of a registered Member leaves no challenge under its nonce.
nonce_spent :
    {R : Type 0} (redis : Redis R) (lib : Primitives) (auth : AuthPrimitives)
    (lifetimes : Lifetimes) (drawn : Drawn) (r : R) (db : Db) (member_id : ℕ)
    (body : MemberTokenRequest) (member : Member)
    → IsGetdel redis
    → active_member db member_id ≡ some member
    → (consume_member_challenge redis
        (issue_member_token redis lib auth lifetimes drawn r db member_id body).0
        body.nonce).1
      ≡ none
unfolding issue_member_token consume_member_challenge
nonce_spent redis lib auth lifetimes drawn r db member_id body member getdel registered =
    let key = challenge_key body.nonce in
    let left : (issue_member_token redis lib auth lifetimes drawn r db member_id body).0
        ≡ (redis.getdel r key).0 =
      ground arith in
    subst (λ s. (redis.getdel s key).1 ≡ none) (sym left)
      (getdel.getdel_value (redis.getdel r key).0 key ∙ getdel.getdel_same r key)

-- A Member token is issued only to a registered Member of an active User, for a nonce that was
-- handed out to that Member and is signed with the registered key; and the state that the request
-- leaves refuses every request on that nonce, for whatever Member and with whatever signature.
pub issue_member_token-once :
    {R : Type 0} (redis : Redis R) (lib : Primitives) (auth : AuthPrimitives)
    (lifetimes : Lifetimes) (drawn again : Drawn) (r : R) (db later : Db) (member_id other : ℕ)
    (body retry : MemberTokenRequest) (after : Db) (token : Token)
    → IsGetdel redis
    → retry.nonce ≡ body.nonce
    → (issue_member_token redis lib auth lifetimes drawn r db member_id body).1 ≡ ok (after, token)
    → Proves redis lib r db member_id body
      × ((e : HttpError) × ((issue_member_token redis lib auth lifetimes again
              (issue_member_token redis lib auth lifetimes drawn r db member_id body).0
              later
              other
              retry).1
            ≡ err e))
issue_member_token-once redis lib auth lifetimes drawn again r db later member_id other body retry
      after token getdel same h =
    let proves =
      issue_member_token-Proves redis lib auth lifetimes drawn r db member_id body after token h in
    (
      proves,
      spent_nonce_refused redis lib auth lifetimes again _ later other retry (
          rw same (
            nonce_spent redis lib auth lifetimes drawn r db member_id body proves.member getdel
              proves.registered)),
    )
