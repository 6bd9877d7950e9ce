-- ===== src/Auth/Members.antt =====
-- The Member registry of backend/app/sync/routes.py.
use jeeves.Common.{
  ℕ, Bool, true, false, not, ◌||◌, List, [], ◌∷◌, ◌++◌, Option, none, some, String, str_eq, ◌==◌,
  length, keep_if, Result, ok, ◌>>=◌, ◌>>◌, raise_if, or_raise, catch_as,
}
use jeeves.Common.Bytes.{Bytes, bytes_eq}
use jeeves.Codes.{Code}
use jeeves.Crypto.{Primitives}
use jeeves.Envelope.{sign_public_key_bytes}
use jeeves.Envelope.Wire.{derive_key_id}
use jeeves.Grants.{refuse_if_revoked}
use jeeves.Ids.{require_derivable_workspace}
use jeeves.Store.{Db, User, Member, HttpError, number, unprocessable, conflict, get_member}

abbrev pub kex_key_bytes : ℕ
kex_key_bytes = 32

pub record MemberRegisterRequest : Type 0 where
  pub member_id : ℕ
  pub sign_pk : String
  pub kex_pk : Option String
  pub key_id : Option String

unfoldable pub decode_sign_pk : Primitives → String → Result HttpError Bytes
decode_sign_pk lib encoded = do
  sign_pk ← or_raise (lib.b64decode encoded) (unprocessable Code.malformed_sign_pk [])
  raise_if (not (length sign_pk == sign_public_key_bytes))
      (unprocessable Code.malformed_sign_pk (number "expected_bytes" sign_public_key_bytes ∷ []))
  ok sign_pk

unfoldable pub decode_kex_pk : Primitives → Option String → Result HttpError (Option Bytes)
decode_kex_pk lib none = ok none
decode_kex_pk lib (some encoded) = do
  kex_pk ← or_raise (lib.b64decode encoded) (unprocessable Code.malformed_kex_pk [])
  raise_if (not (length kex_pk == kex_key_bytes))
      (unprocessable Code.malformed_kex_pk (number "expected_bytes" kex_key_bytes ∷ []))
  ok (some kex_pk)

-- A key id that is offered must be the derived one.
unfoldable pub check_key_id : Primitives → Option String → Bytes → Result HttpError (Unit {0})
check_key_id lib none key_id = ok tt
check_key_id lib (some encoded) key_id = do
  offered ← or_raise (lib.b64decode encoded) (unprocessable Code.malformed_key_id [])
  raise_if (not (bytes_eq offered key_id)) (unprocessable Code.key_id_not_derived_from_sign_pk [])

-- `kex_pk is not None and existing.kex_pk != kex_pk`
abbrev other_kex_pk : Option Bytes → Option Bytes → Bool
other_kex_pk none stored = false
other_kex_pk (some kex_pk) none = true
other_kex_pk (some kex_pk) (some stored) = not (bytes_eq stored kex_pk)

abbrev pub internal_error : HttpError
internal_error = record { status = 500; code = Code.internal_error; detail = [] }

-- The id is registered, or a row is added.
unfoldable pub register_row :
    Db → ℕ → String → Bytes → Bytes → Option Bytes → Option Member → Result HttpError (Db × Member)
register_row db member_id user_id sign_pk key_id kex_pk none =
    let row : Member = record {
      member_id = member_id;
      user_id = user_id;
      sign_pk = sign_pk;
      key_id = key_id;
      kex_pk = kex_pk;
      member_kind = none;
      chained_at = none;
    } in
    ok (record db { members = db.members ++ row ∷ [] }, row)
register_row db member_id user_id sign_pk key_id kex_pk (some existing) = do
  raise_if (not (str_eq existing.user_id user_id) || not (bytes_eq existing.sign_pk sign_pk))
      (conflict Code.member_id_already_registered [])
  raise_if (other_kex_pk kex_pk existing.kex_pk) (conflict Code.member_id_already_registered [])
  ok (db, existing)

-- `register_member`: the database, and the row that is shown.
unfoldable pub register_member :
    Primitives → Db → User → MemberRegisterRequest → Result HttpError (Db × Member)
unfolding register_row
register_member lib db user body = do
  sign_pk ← decode_sign_pk lib body.sign_pk
  kex_pk ← decode_kex_pk lib body.kex_pk
  key_id ← catch_as (λ e. internal_error) (derive_key_id lib sign_pk)
  check_key_id lib body.key_id key_id
  register_row db body.member_id user.user_id sign_pk key_id kex_pk (get_member db body.member_id)

-- `list_workspace_members`
unfoldable pub list_workspace_members :
    Primitives → Db → ℕ → Member → Result HttpError (List Member)
list_workspace_members lib db w member = do
  require_derivable_workspace lib w member.user_id []
  refuse_if_revoked db w member
  ok (keep_if (λ (row : Member). str_eq row.user_id member.user_id) db.members)
