-- ===== src/Keys/Wrapping/Slots.antt =====
-- The info of a wrap, which is the associated data too, holds the whole slot.
use jeeves.Common.{◌^◌, ◌<◌, ◌≡◌, refl, sym, ◌∙◌, arith, ◌++◌, length, append_cancel, ok}
use jeeves.Common.Bytes.{Bytes, to_be, length-to_be}
use jeeves.Keys.Consts.{epoch_bytes}
use jeeves.Keys.Digest.Order.{to_be-injective, to_be-injective_width}
use jeeves.Keys.Wrapping.{Slot, keywrap_info, keywrap_info_domain}

-- What an info is made of.
record Info (epk : Bytes) (slot : Slot) (info : Bytes) : Type 0 where
  epk_size : length epk ≡ 32
  key_size : length slot.kex_key_id ≡ 8
  epoch_fits : slot.epoch < 256 ^ 4
  parts :
      info
      ≡ keywrap_info_domain
        ++ (epk
            ++ (to_be 16 slot.workspace_id
                ++ (to_be 4 slot.epoch ++ (to_be 16 slot.member_id ++ slot.kex_key_id))))

keywrap_info-Info :
    (epk : Bytes) (slot : Slot) (info : Bytes)
    → keywrap_info epk slot ≡ ok info
    → Info epk slot info
unfolding keywrap_info epoch_bytes
keywrap_info-Info epk slot info h = record {
  epk_size = ground arith;
  key_size = ground arith;
  epoch_fits = ground arith;
  parts = ground arith;
}

-- Two wraps with one info have the same ephemeral key and the same slot: Workspace, epoch, Member
-- and key id. Workspace and Member ids are UUIDs.
pub keywrap_info-injective :
    (epk epk' : Bytes) (slot slot' : Slot) (info : Bytes)
    → (slot.workspace_id < 2 ^ 128) × (slot.member_id < 2 ^ 128)
    → (slot'.workspace_id < 2 ^ 128) × (slot'.member_id < 2 ^ 128)
    → keywrap_info epk slot ≡ ok info
    → keywrap_info epk' slot' ≡ ok info
    → (epk ≡ epk') × (slot ≡ slot')
keywrap_info-injective epk epk' slot slot' info u u' h h' =
    let i = keywrap_info-Info epk slot info h in
    let j = keywrap_info-Info epk' slot' info h' in
    let rest =
      to_be 16 slot.workspace_id
      ++ (to_be 4 slot.epoch ++ (to_be 16 slot.member_id ++ slot.kex_key_id)) in
    let rest' =
      to_be 16 slot'.workspace_id
      ++ (to_be 4 slot'.epoch ++ (to_be 16 slot'.member_id ++ slot'.kex_key_id)) in
    let h1 =
      (append_cancel 17 keywrap_info_domain keywrap_info_domain (epk ++ rest) (epk' ++ rest') refl
        refl (sym i.parts ∙ j.parts)).1 in
    let (epks, h2) = append_cancel 32 epk epk' rest rest' i.epk_size j.epk_size h1 in
    let (workspaces, h3) =
      append_cancel 16 _ _ _ _ (length-to_be 16 slot.workspace_id)
        (length-to_be 16 slot'.workspace_id) h2 in
    let (epochs, h4) =
      append_cancel 4 _ _ _ _ (length-to_be 4 slot.epoch) (length-to_be 4 slot'.epoch) h3 in
    let (members, keys) =
      append_cancel 16 _ _ _ _ (length-to_be 16 slot.member_id) (length-to_be 16 slot'.member_id)
        h4 in
    let w = to_be-injective slot.workspace_id slot'.workspace_id u.0 u'.0 workspaces in
    let e = to_be-injective_width 4 slot.epoch slot'.epoch i.epoch_fits j.epoch_fits epochs in
    let m = to_be-injective slot.member_id slot'.member_id u.1 u'.1 members in (epks, ground arith)
