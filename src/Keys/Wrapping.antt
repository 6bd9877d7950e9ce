-- ===== src/Keys/Wrapping.antt =====
-- The two wraps of an epoch key in backend/app/sync/key_wraps.py: sealed to a Member's X25519 key,
-- and under the master wrap key of the recovery escrow. X25519, HMAC and the cipher are parameters.
pub mod RoundTrip
pub mod Slots
use jeeves.Common.{
  ℕ, ◌+◌, not, [], ◌++◌, Option, none, some, ◌==◌, length, take, drop, Result, ok, err, ◌>>=◌, ◌>>◌,
  raise_if, or_raise,
}
use jeeves.Common.Bytes.{Bytes, codes, to_be}
use jeeves.Envelope.{author_key_id_bytes, workspace_key_bytes}
use jeeves.Envelope.Aead.{Cipher}
use jeeves.Keys.Consts.{
  KeyWrapError, ephemeral_public_key_bytes, wrap_nonce_bytes, master_wrap_key_bytes, keywrap_bytes,
  epoch_key_escrow_wrap_bytes, epoch_bytes,
}
use jeeves.Keys.Hkdf.{hkdf_sha256}

pub record WrapPrimitives : Type 0 where
  pub cipher : Cipher
  -- `hmac.new(key, message, hashlib.sha256).digest()`
  pub hmac : Bytes → Bytes → Bytes
  -- `crypto_scalarmult_base`
  pub scalarmult_base : Bytes → Bytes
  -- `crypto_scalarmult`, where `none` is `RuntimeError`
  pub scalarmult : Bytes → Bytes → Option Bytes

-- The slot that a wrap is for.
pub record Slot : Type 0 where
  pub workspace_id : ℕ
  pub epoch : ℕ
  pub member_id : ℕ
  pub kex_key_id : Bytes

abbrev pub keywrap_info_domain : Bytes
keywrap_info_domain = codes "jeeves/keywrap/v1"

abbrev pub epoch_key_escrow_info_domain : Bytes
epoch_key_escrow_info_domain = codes "jeeves/epoch-key-escrow/v1"

unfoldable pub keywrap_info : Bytes → Slot → Result KeyWrapError Bytes
keywrap_info ephemeral_public_key slot = do
  raise_if (not (length ephemeral_public_key == ephemeral_public_key_bytes))
      KeyWrapError.value_error
  raise_if (not (length slot.kex_key_id == author_key_id_bytes)) KeyWrapError.value_error
  epoch ← epoch_bytes slot.epoch
  ok (
      keywrap_info_domain
      ++ (ephemeral_public_key
          ++ (to_be 16 slot.workspace_id
              ++ (epoch ++ (to_be 16 slot.member_id ++ slot.kex_key_id)))))

unfoldable pub epoch_key_escrow_info : ℕ → ℕ → Result KeyWrapError Bytes
epoch_key_escrow_info workspace_id epoch = do
  e ← epoch_bytes epoch
  ok (epoch_key_escrow_info_domain ++ (to_be 16 workspace_id ++ e))

-- The key of the AEAD.
unfoldable pub derived_key : WrapPrimitives → Bytes → Bytes → Result KeyWrapError Bytes
derived_key lib shared info = hkdf_sha256 lib.hmac shared [] info workspace_key_bytes

unfoldable pub wrap_epoch_key_for_member :
    WrapPrimitives → Bytes → Bytes → Slot → Bytes → Bytes → Result KeyWrapError Bytes
wrap_epoch_key_for_member lib workspace_key kex_pk slot ephemeral_secret_key nonce = do
  raise_if (not (length workspace_key == workspace_key_bytes)) KeyWrapError.value_error
  raise_if (not (length kex_pk == ephemeral_public_key_bytes)) KeyWrapError.value_error
  raise_if (not (length nonce == wrap_nonce_bytes)) KeyWrapError.value_error
  let epk = lib.scalarmult_base ephemeral_secret_key
  info ← keywrap_info epk slot
  shared ← or_raise (lib.scalarmult ephemeral_secret_key kex_pk) KeyWrapError.value_error
  key ← derived_key lib shared info
  ok (epk ++ (nonce ++ lib.cipher.encrypt workspace_key info nonce key))

unfoldable pub unwrap_epoch_key_for_member :
    WrapPrimitives → Bytes → Bytes → Slot → Result KeyWrapError Bytes
unwrap_epoch_key_for_member lib wrap kex_secret_key slot = do
  raise_if (not (length wrap == keywrap_bytes)) KeyWrapError.malformed_keywrap
  let epk = take ephemeral_public_key_bytes wrap
  let nonce = take wrap_nonce_bytes (drop ephemeral_public_key_bytes wrap)
  let sealed = drop (ephemeral_public_key_bytes + wrap_nonce_bytes) wrap
  info ← keywrap_info epk slot
  shared ← or_raise (lib.scalarmult kex_secret_key epk) KeyWrapError.malformed_keywrap
  key ← derived_key lib shared info
  or_raise (lib.cipher.decrypt sealed info nonce key) KeyWrapError.aead_failure

unfoldable pub wrap_epoch_key_for_escrow :
    WrapPrimitives → Bytes → Bytes → ℕ → ℕ → Bytes → Result KeyWrapError Bytes
wrap_epoch_key_for_escrow lib workspace_key master_wrap_key workspace_id epoch nonce = do
  raise_if (not (length workspace_key == workspace_key_bytes)) KeyWrapError.value_error
  raise_if (not (length master_wrap_key == master_wrap_key_bytes)) KeyWrapError.value_error
  raise_if (not (length nonce == wrap_nonce_bytes)) KeyWrapError.value_error
  info ← epoch_key_escrow_info workspace_id epoch
  ok (nonce ++ lib.cipher.encrypt workspace_key info nonce master_wrap_key)

unfoldable pub unwrap_epoch_key_from_escrow :
    WrapPrimitives → Bytes → Bytes → ℕ → ℕ → Result KeyWrapError Bytes
unwrap_epoch_key_from_escrow lib escrow_wrap master_wrap_key workspace_id epoch = do
  raise_if (not (length escrow_wrap == epoch_key_escrow_wrap_bytes)) KeyWrapError.malformed_keywrap
  let nonce = take wrap_nonce_bytes escrow_wrap
  let sealed = drop wrap_nonce_bytes escrow_wrap
  info ← epoch_key_escrow_info workspace_id epoch
  or_raise (lib.cipher.decrypt sealed info nonce master_wrap_key) KeyWrapError.aead_failure
