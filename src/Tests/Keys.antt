-- ===== src/Tests/Keys.antt =====
-- The key plane at concrete uploads.
use mathlib.Core.List.{Perm}
use mathlib.Core.List.Perm
use jeeves.Common.{
  ℕ, ◌≤◌, ◌<◌, ◌≡◌, refl, arith, ◌⊎◌, [], ◌∷◌, ◌++◌, none, some, str_eq, length, take,
  length-append, length-take, if◌then◌else◌, ok, err,
}
use jeeves.Common.Bytes.{Bytes, codes, zeros, to_be}
use jeeves.Crypto.{Primitives}
use jeeves.Json.{pos}
use jeeves.Store.{Db, KeyWrap, WorkspaceEpoch}
use jeeves.Keys.Consts.{KeyWrapError}
use jeeves.Keys.Digest.{WrapEntry, keywrap_digest}
use jeeves.Keys.Digest.Order.{
  AreUuids, AreUuids-cons, AreUuids-nil, IsOneWrapEach, keywrap_digest-of_perm,
}
use jeeves.Keys.Digest.Binding.{Collision, HasDigestSize, keywrap_digest-Binding}
use jeeves.Keys.Hkdf.{hkdf_sha256, rfc_blocks, hkdf_sha256-Rfc}
use jeeves.Keys.Wrapping.{
  WrapPrimitives, Slot, keywrap_info, wrap_epoch_key_for_member, unwrap_epoch_key_for_member,
}
use jeeves.Keys.Wrapping.RoundTrip.{
  IsExchange, unwrap_epoch_key_for_member-wrap_epoch_key_for_member,
}
use jeeves.Keys.Wrapping.Slots.{keywrap_info-injective}
use jeeves.Keys.Upload.{PutKeyWrapsRequest, KeyWrapEntry}
use jeeves.Keys.Upload.Handler.{put_keywraps}
use jeeves.Keys.Upload.Keeps.{Keeps, Keeps-refl, put_keywraps-Keeps}
use jeeves.Keys.Upload.Published.{IsPublished, AllDistinct-IsOneWrapEach, put_keywraps-IsPublished}
use jeeves.Tests.Samples.{world, db, member, key}
use jeeves.Tests.Codecs.{plain_cipher, plain_cipher-IsAead}

-- A hash of 32 bytes.
abbrev padded_world : Primitives
padded_world = record world { sha256 = λ bytes. take 32 (bytes ++ zeros 32) }

padded_world-HasDigestSize : HasDigestSize padded_world
padded_world-HasDigestSize bytes =
    omega (arith, length-take 32 (bytes ++ zeros 32), length-append bytes (zeros 32))

abbrev wrap_104 : Bytes
wrap_104 = zeros 104

abbrev entry_5 : WrapEntry
entry_5 = record { member_id = 5; kex_key_id = codes "01234567"; wrap = wrap_104 }

abbrev entry_6 : WrapEntry
entry_6 = record { member_id = 6; kex_key_id = codes "01234567"; wrap = wrap_104 }

entries-AreUuids : AreUuids (entry_5 ∷ entry_6 ∷ [])
entries-AreUuids =
    AreUuids-cons entry_5 (entry_6 ∷ []) (omega arith)
      (AreUuids-cons entry_6 [] (omega arith) AreUuids-nil)

swapped-AreUuids : AreUuids (entry_6 ∷ entry_5 ∷ [])
swapped-AreUuids =
    AreUuids-cons entry_6 (entry_5 ∷ []) (omega arith)
      (AreUuids-cons entry_5 [] (omega arith) AreUuids-nil)

entries-IsOneWrapEach : IsOneWrapEach (entry_5 ∷ entry_6 ∷ [])
entries-IsOneWrapEach = AllDistinct-IsOneWrapEach (entry_5 ∷ entry_6 ∷ []) (refl, (refl, tt))

keywrap_digest-of_perm_example :
    keywrap_digest padded_world 1 (entry_5 ∷ entry_6 ∷ []) (zeros 72)
    ≡ keywrap_digest padded_world 1 (entry_6 ∷ entry_5 ∷ []) (zeros 72)
keywrap_digest-of_perm_example =
    keywrap_digest-of_perm padded_world 1 (entry_5 ∷ entry_6 ∷ []) (entry_6 ∷ entry_5 ∷ [])
      (zeros 72) entries-AreUuids entries-IsOneWrapEach (Perm.swap entry_6 entry_5 [])

abbrev digest_1 : Bytes
digest_1 = codes "jeeves/keywrap-digest/v1" ++ (to_be 4 1 ++ to_be 4 2)

entries_digest : keywrap_digest padded_world 1 (entry_5 ∷ entry_6 ∷ []) (zeros 72) ≡ ok digest_1
unfolding keywrap_digest jeeves.Keys.Digest.digest_input jeeves.Keys.Consts.epoch_bytes
    jeeves.Keys.Digest.count_bytes jeeves.Keys.Digest.entries_bytes jeeves.Keys.Sorting.sorted
    jeeves.Keys.Digest.entry_leb jeeves.Keys.Sorting.pair_leb to_be jeeves.Keys.Sorting.bytes_leb
entries_digest = refl

swapped_digest : keywrap_digest padded_world 1 (entry_6 ∷ entry_5 ∷ []) (zeros 72) ≡ ok digest_1
unfolding keywrap_digest jeeves.Keys.Digest.digest_input jeeves.Keys.Consts.epoch_bytes
    jeeves.Keys.Digest.count_bytes jeeves.Keys.Digest.entries_bytes jeeves.Keys.Sorting.sorted
    jeeves.Keys.Digest.entry_leb jeeves.Keys.Sorting.pair_leb to_be jeeves.Keys.Sorting.bytes_leb
swapped_digest = refl

keywrap_digest-Binding_example :
    ((◌≡◌ {A = ℕ} 1 1)
      × (Perm (entry_5 ∷ entry_6 ∷ []) (entry_6 ∷ entry_5 ∷ []) × (zeros 72 ≡ zeros 72)))
    ⊎ Collision padded_world
keywrap_digest-Binding_example =
    keywrap_digest-Binding padded_world 1 1 (entry_5 ∷ entry_6 ∷ []) (entry_6 ∷ entry_5 ∷ [])
      (zeros 72) (zeros 72) digest_1 padded_world-HasDigestSize entries-AreUuids swapped-AreUuids
      entries_digest swapped_digest

abbrev blank_hmac : Bytes → Bytes → Bytes
blank_hmac k message = zeros 32

hkdf_sha256-Rfc_example :
    ((40 ≤ 8160)
      × ((okm : Bytes) × (hkdf_sha256 blank_hmac key [] key 40 ≡ ok okm)
          × ((length okm ≡ 40)
              × (okm ≡ take 40 (rfc_blocks blank_hmac (blank_hmac (zeros 32) key) key 2)))))
    ⊎ ((8160 < 40) × (hkdf_sha256 blank_hmac key [] key 40 ≡ err KeyWrapError.value_error))
hkdf_sha256-Rfc_example = hkdf_sha256-Rfc blank_hmac key [] key 40 (λ k message. refl)

abbrev wrap_world : WrapPrimitives
wrap_world = record {
  cipher = plain_cipher;
  hmac = blank_hmac;
  scalarmult_base = λ secret. zeros 32;
  scalarmult = λ secret public_key. some (zeros 32);
}

wrap_world-IsExchange : IsExchange wrap_world
wrap_world-IsExchange = record { agrees = λ a b. refl; sized = λ a. refl }

abbrev slot_5 : Slot
slot_5 = record { workspace_id = 7; epoch = 1; member_id = 5; kex_key_id = codes "01234567" }

abbrev wrapped_key : Bytes
wrapped_key = zeros 32 ++ (zeros 24 ++ (key ++ zeros 16))

key_wrapped :
    wrap_epoch_key_for_member wrap_world key (zeros 32) slot_5 key (zeros 24) ≡ ok wrapped_key
unfolding wrap_epoch_key_for_member keywrap_info jeeves.Keys.Consts.epoch_bytes
    jeeves.Keys.Wrapping.derived_key hkdf_sha256
key_wrapped = refl

unwrap_epoch_key_example :
    (length wrapped_key ≡ 104)
    × (unwrap_epoch_key_for_member wrap_world wrapped_key key slot_5 ≡ ok key)
unwrap_epoch_key_example =
    unwrap_epoch_key_for_member-wrap_epoch_key_for_member wrap_world key key slot_5 key (zeros 24)
      wrapped_key plain_cipher-IsAead wrap_world-IsExchange key_wrapped

abbrev info_5 : Bytes
info_5 =
    codes "jeeves/keywrap/v1"
    ++ (key ++ (to_be 16 7 ++ (to_be 4 1 ++ (to_be 16 5 ++ codes "01234567"))))

slot_info : keywrap_info key slot_5 ≡ ok info_5
unfolding keywrap_info jeeves.Keys.Consts.epoch_bytes
slot_info = refl

keywrap_info-injective_example : (key ≡ key) × (slot_5 ≡ slot_5)
keywrap_info-injective_example =
    keywrap_info-injective key key slot_5 slot_5 info_5 (omega arith, omega arith)
      (omega arith, omega arith) slot_info slot_info

-- The Workspace has rotated to epoch 1, and its owner uploads a wrap for itself.
abbrev rotated_row : WorkspaceEpoch
rotated_row = record {
  workspace_id = 7;
  epoch = 1;
  keywrap_digest = codes "jeeves/keywrap-digest/v1" ++ (to_be 4 1 ++ to_be 4 1);
  escrow_wrap = [];
  rotate_seq = some 3;
}

abbrev rotated_db : Db
rotated_db = record db { epochs = rotated_row ∷ [] }

abbrev upload_world : Primitives
upload_world = record padded_world {
  b64decode = λ s.
      if str_eq s "wrap"
      then some wrap_104
      else if str_eq s "escrow"
      then some (zeros 72)
      else some (codes s);
}

abbrev upload : PutKeyWrapsRequest
upload = record {
  epoch = pos 1;
  wraps = record { member_id = 5; kex_key_id_b64 = "01234567"; wrap_b64 = "wrap" } ∷ [];
  escrow_wrap_b64 = "escrow";
  keywrap_digest_b64 = none;
}

abbrev stored_wrap : KeyWrap
stored_wrap = record {
  workspace_id = 7;
  member_id = 5;
  epoch = 1;
  kex_key_id = codes "01234567";
  wrap = wrap_104;
}

abbrev uploaded_db : Db
uploaded_db = record rotated_db {
  epochs = record rotated_row { escrow_wrap = zeros 72 } ∷ [];
  keywraps = stored_wrap ∷ [];
}

uploaded :
    put_keywraps upload_world rotated_db rotated_db 7 member upload
    ≡ ok (uploaded_db, stored_wrap ∷ [])
unfolding put_keywraps jeeves.Keys.Upload.Handler.check_upload
    jeeves.Ids.require_derivable_workspace jeeves.Ids.is_derivable jeeves.Grants.refuse_if_revoked
    jeeves.Keys.Upload.require_key_epoch jeeves.Keys.Upload.Handler.require_owner
    jeeves.Grants.live_roles jeeves.Grants.grant_index jeeves.Keys.Upload.check_entries
    jeeves.Keys.Upload.check_entry jeeves.Keys.Upload.member_of_user
    jeeves.Keys.Upload.require_registered_key jeeves.Envelope.Wire.derive_key_id keywrap_digest
    jeeves.Keys.Digest.digest_input jeeves.Keys.Consts.epoch_bytes to_be jeeves.Grants.has_any_grant
    jeeves.Grants.index_of_rows jeeves.Grants.is_revoked jeeves.Grants.put_state
    jeeves.Grants.revocations jeeves.Grants.rows_of_workspace jeeves.Ids.default_workspace_id
    jeeves.Ids.user_preferences_workspace_id jeeves.Keys.Digest.count_bytes
    jeeves.Keys.Digest.entries_bytes jeeves.Keys.Digest.entry_leb jeeves.Keys.Sorting.bytes_leb
    jeeves.Keys.Sorting.insert_sorted jeeves.Keys.Sorting.pair_leb jeeves.Keys.Sorting.sorted
    jeeves.Keys.Upload.Handler.commit_upload jeeves.Keys.Upload.Handler.finish_upload
    jeeves.Keys.Upload.Handler.insert_wraps jeeves.Keys.Upload.Handler.keywraps_for_member
    jeeves.Keys.Upload.Handler.require_stored jeeves.Keys.Upload.Handler.resolve_upload_conflict
    jeeves.Keys.Upload.Handler.set_escrow jeeves.Keys.Upload.Handler.store_upload
    jeeves.Keys.Upload.Handler.write_epoch jeeves.Keys.Upload.claimed_digest
    jeeves.Keys.Upload.stage_epoch jeeves.Keys.Upload.stage_wraps
uploaded = refl

-- The same upload again is answered in the same way and changes nothing.
uploaded_again :
    put_keywraps upload_world uploaded_db uploaded_db 7 member upload
    ≡ ok (uploaded_db, stored_wrap ∷ [])
unfolding put_keywraps jeeves.Keys.Upload.Handler.check_upload
    jeeves.Ids.require_derivable_workspace jeeves.Ids.is_derivable jeeves.Grants.refuse_if_revoked
    jeeves.Keys.Upload.require_key_epoch jeeves.Keys.Upload.Handler.require_owner
    jeeves.Grants.live_roles jeeves.Grants.grant_index jeeves.Keys.Upload.check_entries
    jeeves.Keys.Upload.check_entry jeeves.Keys.Upload.member_of_user
    jeeves.Keys.Upload.require_registered_key jeeves.Envelope.Wire.derive_key_id keywrap_digest
    jeeves.Keys.Digest.digest_input jeeves.Keys.Consts.epoch_bytes to_be jeeves.Grants.has_any_grant
    jeeves.Grants.index_of_rows jeeves.Grants.is_revoked jeeves.Grants.put_state
    jeeves.Grants.revocations jeeves.Grants.rows_of_workspace jeeves.Ids.default_workspace_id
    jeeves.Ids.user_preferences_workspace_id jeeves.Keys.Digest.count_bytes
    jeeves.Keys.Digest.entries_bytes jeeves.Keys.Digest.entry_leb jeeves.Keys.Sorting.bytes_leb
    jeeves.Keys.Sorting.insert_sorted jeeves.Keys.Sorting.pair_leb jeeves.Keys.Sorting.sorted
    jeeves.Keys.Upload.Handler.commit_upload jeeves.Keys.Upload.Handler.finish_upload
    jeeves.Keys.Upload.Handler.insert_wraps jeeves.Keys.Upload.Handler.keywraps_for_member
    jeeves.Keys.Upload.Handler.require_stored jeeves.Keys.Upload.Handler.resolve_upload_conflict
    jeeves.Keys.Upload.Handler.set_escrow jeeves.Keys.Upload.Handler.store_upload
    jeeves.Keys.Upload.Handler.write_epoch jeeves.Keys.Upload.claimed_digest
    jeeves.Keys.Upload.stage_epoch jeeves.Keys.Upload.stage_wraps
uploaded_again = refl

-- Two uploads at once: the one that loses finds the set of the other.
uploaded_twice :
    put_keywraps upload_world rotated_db uploaded_db 7 member upload
    ≡ ok (uploaded_db, stored_wrap ∷ [])
unfolding put_keywraps jeeves.Keys.Upload.Handler.check_upload
    jeeves.Ids.require_derivable_workspace jeeves.Ids.is_derivable jeeves.Grants.refuse_if_revoked
    jeeves.Keys.Upload.require_key_epoch jeeves.Keys.Upload.Handler.require_owner
    jeeves.Grants.live_roles jeeves.Grants.grant_index jeeves.Keys.Upload.check_entries
    jeeves.Keys.Upload.check_entry jeeves.Keys.Upload.member_of_user
    jeeves.Keys.Upload.require_registered_key jeeves.Envelope.Wire.derive_key_id keywrap_digest
    jeeves.Keys.Digest.digest_input jeeves.Keys.Consts.epoch_bytes to_be jeeves.Grants.has_any_grant
    jeeves.Grants.index_of_rows jeeves.Grants.is_revoked jeeves.Grants.put_state
    jeeves.Grants.revocations jeeves.Grants.rows_of_workspace jeeves.Ids.default_workspace_id
    jeeves.Ids.user_preferences_workspace_id jeeves.Keys.Digest.count_bytes
    jeeves.Keys.Digest.entries_bytes jeeves.Keys.Digest.entry_leb jeeves.Keys.Sorting.bytes_leb
    jeeves.Keys.Sorting.insert_sorted jeeves.Keys.Sorting.pair_leb jeeves.Keys.Sorting.sorted
    jeeves.Keys.Upload.Handler.commit_upload jeeves.Keys.Upload.Handler.finish_upload
    jeeves.Keys.Upload.Handler.insert_wraps jeeves.Keys.Upload.Handler.keywraps_for_member
    jeeves.Keys.Upload.Handler.require_stored jeeves.Keys.Upload.Handler.resolve_upload_conflict
    jeeves.Keys.Upload.Handler.set_escrow jeeves.Keys.Upload.Handler.store_upload
    jeeves.Keys.Upload.Handler.write_epoch jeeves.Keys.Upload.claimed_digest
    jeeves.Keys.Upload.stage_epoch jeeves.Keys.Upload.stage_wraps
uploaded_twice = refl

put_keywraps-Keeps_example : Keeps rotated_db uploaded_db
put_keywraps-Keeps_example =
    put_keywraps-Keeps upload_world rotated_db rotated_db 7 member upload uploaded_db
      (stored_wrap ∷ []) uploaded

put_keywraps-IsPublished_example : IsPublished upload_world rotated_db uploaded_db 7 member upload
put_keywraps-IsPublished_example =
    put_keywraps-IsPublished upload_world rotated_db rotated_db 7 member upload uploaded_db
      (stored_wrap ∷ []) (Keeps-refl rotated_db) uploaded
