-- ===== src/Auth/Exchange.antt =====
-- A refresh token is exchanged once, and only for a session of its own kind.
use jeeves.Common.{
  ℕ, ◌≡◌, refl, arith, subst, true, List, [], ◌∷◌, ◌++◌, none, some, String, str_eq, find,
  find-append, is_some, ok, err, Option-cases, Bool-cases, ◌⊎◌, inl, inr,
}
use jeeves.Store.{Db, RefreshToken, get_member}
use jeeves.Auth.{
  AuthPrimitives, Lifetimes, Drawn, Token, hash_refresh_token, active_user, create_refresh_token,
  issue_user_tokens, issue_member_tokens,
}
use jeeves.Auth.Sessions.{
  get_refresh_token, stamp_token, revoke_token, invalid_session, invalid_member_token,
  refresh_session, refresh_member_token,
}

-- The row of a token, where it is stamped.
abbrev IsSpent : AuthPrimitives → Db → String → Type 0
IsSpent lib db refresh_token =
    (row : RefreshToken) × (get_refresh_token db (hash_refresh_token lib refresh_token) ≡ some row)
    × (is_some row.revoked_at ≡ true)

-- Neither route takes the token, whenever it is tried.
abbrev pub IsRefused : AuthPrimitives → Lifetimes → Db → String → Type 0
IsRefused lib lifetimes db refresh_token =
    (drawn : Drawn) (member_id : ℕ)
    → (refresh_session lib lifetimes drawn db refresh_token ≡ err invalid_session)
      × (refresh_member_token lib lifetimes drawn db member_id refresh_token
          ≡ err invalid_member_token)

IsSpent-IsRefused :
    (lib : AuthPrimitives) (lifetimes : Lifetimes) (db : Db) (refresh_token : String)
    → IsSpent lib db refresh_token
    → IsRefused lib lifetimes db refresh_token
unfolding refresh_session refresh_member_token
IsSpent-IsRefused lib lifetimes db refresh_token (row, found, spent) drawn member_id =
    (ground arith, ground arith)

find-stamp_token :
    (token_hash : String) (now : ℕ) (rows : List RefreshToken) (row : RefreshToken)
    → find (λ (r : RefreshToken). str_eq r.token_hash token_hash) rows ≡ some row
    → find (λ (r : RefreshToken). str_eq r.token_hash token_hash) (stamp_token token_hash now rows)
      ≡ some (record row { revoked_at = some now })
unfolding stamp_token
find-stamp_token token_hash now [] row h = absurd (ground arith)
find-stamp_token token_hash now (r ∷ rs) row h =
    elim (Bool-cases (str_eq r.token_hash token_hash)) [
      | inl here ↦ rw (here, here) (ground arith)
      | inr there ↦ rw (there, there) (find-stamp_token token_hash now rs row (ground arith))
    ]

-- The tables after an exchange.
abbrev exchanged : AuthPrimitives → Db → String → ℕ → RefreshToken → Db
exchanged lib db refresh_token now added = record db {
  refresh_tokens =
      stamp_token (hash_refresh_token lib refresh_token) now db.refresh_tokens ++ added ∷ [];
}

-- The exchange stamps the row, and what is added behind it is found after it.
revoke_token-IsSpent :
    (lib : AuthPrimitives) (db : Db) (refresh_token : String) (now : ℕ) (row added : RefreshToken)
    → get_refresh_token db (hash_refresh_token lib refresh_token) ≡ some row
    → IsSpent lib (exchanged lib db refresh_token now added) refresh_token
unfolding get_refresh_token
revoke_token-IsSpent lib db refresh_token now row added found =
    let token_hash = hash_refresh_token lib refresh_token in
    (
      record row { revoked_at = some now },
      find-append (λ (r : RefreshToken). str_eq r.token_hash token_hash)
          (stamp_token token_hash now db.refresh_tokens) (added ∷ [])
          (find-stamp_token token_hash now db.refresh_tokens row found),
      refl,
    )

refresh_session-IsSpent :
    (lib : AuthPrimitives) (lifetimes : Lifetimes) (drawn : Drawn) (db : Db)
    (refresh_token : String) (after : Db) (token : Token)
    → refresh_session lib lifetimes drawn db refresh_token ≡ ok (after, token)
    → IsSpent lib after refresh_token
unfolding refresh_session issue_user_tokens revoke_token
refresh_session-IsSpent lib lifetimes drawn db refresh_token after token h =
    elim (Option-cases (get_refresh_token db (hash_refresh_token lib refresh_token))) [
      | inl unknown ↦ absurd (ground arith)
      | inr (row, found) ↦ elim (Option-cases (active_user db row.user_id)) [
        | inl inactive ↦ absurd (ground arith)
        | inr (user, active) ↦
            let added = create_refresh_token lib lifetimes drawn.now drawn.raw user.user_id none in
            subst (λ d. IsSpent lib d refresh_token)
              {x = exchanged lib db refresh_token drawn.now added} {y = after} (ground arith)
              (revoke_token-IsSpent lib db refresh_token drawn.now row added found)
      ]
    ]

refresh_member_token-IsSpent :
    (lib : AuthPrimitives) (lifetimes : Lifetimes) (drawn : Drawn) (db : Db) (member_id : ℕ)
    (refresh_token : String) (after : Db) (token : Token)
    → refresh_member_token lib lifetimes drawn db member_id refresh_token ≡ ok (after, token)
    → IsSpent lib after refresh_token
unfolding refresh_member_token issue_member_tokens revoke_token
refresh_member_token-IsSpent lib lifetimes drawn db member_id refresh_token after token h =
    elim (Option-cases (get_refresh_token db (hash_refresh_token lib refresh_token))) [
      | inl unknown ↦ absurd (ground arith)
      | inr (row, found) ↦ elim (Option-cases (get_member db member_id)) [
        | inl missing ↦ absurd (ground arith)
        | inr (member, known) ↦
            let added =
              create_refresh_token lib lifetimes drawn.now drawn.raw member.user_id
                (some member.member_id) in
            subst (λ d. IsSpent lib d refresh_token)
              {x = exchanged lib db refresh_token drawn.now added} {y = after} (ground arith)
              (revoke_token-IsSpent lib db refresh_token drawn.now row added found)
      ]
    ]

-- A refresh token that a user session or a Member was refreshed with is taken by neither route
-- again, at whatever time, as long as the tables stay as they were left.
pub refresh-IsRefused :
    (lib : AuthPrimitives) (lifetimes : Lifetimes) (drawn : Drawn) (db : Db) (member_id : ℕ)
    (refresh_token : String) (after : Db) (token : Token)
    → (refresh_session lib lifetimes drawn db refresh_token ≡ ok (after, token))
      ⊎ (refresh_member_token lib lifetimes drawn db member_id refresh_token ≡ ok (after, token))
    → IsRefused lib lifetimes after refresh_token
refresh-IsRefused lib lifetimes drawn db member_id refresh_token after token (inl h) =
    IsSpent-IsRefused lib lifetimes after refresh_token
      (refresh_session-IsSpent lib lifetimes drawn db refresh_token after token h)
refresh-IsRefused lib lifetimes drawn db member_id refresh_token after token (inr h) =
    IsSpent-IsRefused lib lifetimes after refresh_token
      (refresh_member_token-IsSpent lib lifetimes drawn db member_id refresh_token after token h)
