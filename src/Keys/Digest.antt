-- ===== src/Keys/Digest.antt =====
-- `keywrap_digest` of backend/app/sync/key_wraps.py: the commitment that a rotate op carries.
pub mod Order
pub mod Binding
use mathlib.Core.List.{Mem, Perm}
use mathlib.Core.List.Perm
use jeeves.Common.{
  ℕ, ◌+◌, ◌*◌, ◌^◌, ◌<◌, ◌≡◌, refl, ap, ap₂, Bool, true, false, not, List, [], ◌∷◌, ◌++◌, ◌==◌, leb,
  arith, if◌then◌else◌, length, Result, ok, err, ◌>>=◌, ◌>>◌, raise_if,
}
use jeeves.Common.Bytes.{Bytes, bytes_eq, bytes_eq_iff, codes, to_be}
use jeeves.Crypto.{Primitives}
use jeeves.Envelope.{author_key_id_bytes, workspace_key_bytes, aead_tag_bytes}
use jeeves.Keys.Consts.{KeyWrapError, keywrap_bytes, epoch_key_escrow_wrap_bytes, epoch_bytes}
use jeeves.Keys.Sorting.{pair_leb, sorted}

abbrev pub keywrap_digest_domain : Bytes
keywrap_digest_domain = codes "jeeves/keywrap-digest/v1"

-- One of `member_wraps`.
pub record WrapEntry : Type 0 where
  pub member_id : ℕ
  pub kex_key_id : Bytes
  pub wrap : Bytes

-- The key of the sort: the tuple of the id's bytes and the key id.
unfoldable pub entry_leb : WrapEntry → WrapEntry → Bool
entry_leb a b = pair_leb (to_be 16 a.member_id) a.kex_key_id (to_be 16 b.member_id) b.kex_key_id

-- `len(member_wraps).to_bytes(4, "big")`
unfoldable pub count_bytes : ℕ → Result KeyWrapError Bytes
count_bytes n = if leb n 0xFFFFFFFF then ok (to_be 4 n) else err KeyWrapError.overflow_error

-- What the loop feeds to the hash.
unfoldable pub entries_bytes : Primitives → List WrapEntry → Result KeyWrapError Bytes
entries_bytes lib [] = ok []
entries_bytes lib (entry ∷ rest) = do
  raise_if (not (length entry.wrap == keywrap_bytes)) KeyWrapError.malformed_keywrap
  raise_if (not (length entry.kex_key_id == author_key_id_bytes)) KeyWrapError.malformed_keywrap
  later ← entries_bytes lib rest
  ok (to_be 16 entry.member_id ++ (entry.kex_key_id ++ (lib.sha256 entry.wrap ++ later)))

-- All that is hashed.
unfoldable pub digest_input : Primitives → ℕ → List WrapEntry → Bytes → Result KeyWrapError Bytes
digest_input lib epoch member_wraps escrow_wrap = do
  raise_if (not (length escrow_wrap == epoch_key_escrow_wrap_bytes)) KeyWrapError.malformed_keywrap
  e ← epoch_bytes epoch
  n ← count_bytes (length member_wraps)
  entries ← entries_bytes lib (sorted entry_leb member_wraps)
  ok (keywrap_digest_domain ++ (e ++ (n ++ (entries ++ lib.sha256 escrow_wrap))))

unfoldable pub keywrap_digest : Primitives → ℕ → List WrapEntry → Bytes → Result KeyWrapError Bytes
keywrap_digest lib epoch member_wraps escrow_wrap = do
  input ← digest_input lib epoch member_wraps escrow_wrap
  ok (lib.sha256 input)
