-- ===== src/Keys/Wrapping/RoundTrip.antt =====
-- What was wrapped unwraps in its slot, and a slot is bound whole into the wrap.
use jeeves.Common.{
  ℕ, ◌≡◌, refl, sym, ap, ◌∙◌, arith, ◌++◌, some, length, length-append, take, drop, take-append,
  drop-append, drop-drop, ok, Result-cases, Option-cases, inl, inr,
}
use jeeves.Common.Bytes.{Bytes}
use jeeves.Envelope.Aead.{IsAead}
use jeeves.Keys.Wrapping.{
  WrapPrimitives, Slot, keywrap_info, derived_key, epoch_key_escrow_info, wrap_epoch_key_for_member,
  unwrap_epoch_key_for_member, wrap_epoch_key_for_escrow, unwrap_epoch_key_from_escrow,
}

-- What is asked of X25519: both sides of an exchange agree, and a public key has 32 bytes.
pub record IsExchange (lib : WrapPrimitives) : Type 0 where
  pub agrees :
      (a b : Bytes)
      → lib.scalarmult a (lib.scalarmult_base b) ≡ lib.scalarmult b (lib.scalarmult_base a)
  pub sized : (a : Bytes) → length (lib.scalarmult_base a) ≡ 32

-- The three parts of a wrap.
cut :
    (a b c : Bytes)
    → length a ≡ 32
    → length b ≡ 24
    → (take 32 (a ++ (b ++ c)) ≡ a)
      × ((take 24 (drop 32 (a ++ (b ++ c))) ≡ b) × (drop 56 (a ++ (b ++ c)) ≡ c))
cut a b c ha hb = (
  take-append 32 a (b ++ c) ha,
  (
    rw (drop-append 32 a (b ++ c) ha) (take-append 24 b c hb),
    sym (drop-drop 32 24 (a ++ (b ++ c)))
        ∙ ap (drop 24) (drop-append 32 a (b ++ c) ha)
        ∙ drop-append 24 b c hb,
  ),
)

-- What a wrap was made of.
record Sealed (lib : WrapPrimitives) (workspace_key kex_pk : Bytes) (slot : Slot)
    (ephemeral_secret_key nonce wrap : Bytes) : Type 0 where
  info : Bytes
  shared : Bytes
  key : Bytes
  info_of : keywrap_info (lib.scalarmult_base ephemeral_secret_key) slot ≡ ok info
  shared_of : lib.scalarmult ephemeral_secret_key kex_pk ≡ some shared
  key_of : derived_key lib shared info ≡ ok key
  key_size : length workspace_key ≡ 32
  nonce_size : length nonce ≡ 24
  parts :
      wrap
      ≡ lib.scalarmult_base ephemeral_secret_key
        ++ (nonce ++ lib.cipher.encrypt workspace_key info nonce key)

wrap_epoch_key_for_member-Sealed :
    (lib : WrapPrimitives) (workspace_key kex_pk : Bytes) (slot : Slot)
    (ephemeral_secret_key nonce wrap : Bytes)
    → wrap_epoch_key_for_member lib workspace_key kex_pk slot ephemeral_secret_key nonce ≡ ok wrap
    → Sealed lib workspace_key kex_pk slot ephemeral_secret_key nonce wrap
unfolding wrap_epoch_key_for_member
wrap_epoch_key_for_member-Sealed lib k pk slot esk nonce wrap h =
    elim (Result-cases (keywrap_info (lib.scalarmult_base esk) slot)) [
      | inr (e, bad) ↦ absurd (ground arith)
      | inl (info, info_of) ↦ elim (Option-cases (lib.scalarmult esk pk)) [
        | inl bad ↦ absurd (ground arith)
        | inr (shared, shared_of) ↦ elim (Result-cases (derived_key lib shared info)) [
          | inr (e, bad) ↦ absurd (ground arith)
          | inl (key, key_of) ↦ record {
            info = info;
            shared = shared;
            key = key;
            info_of = info_of;
            shared_of = shared_of;
            key_of = key_of;
            key_size = ground arith;
            nonce_size = ground arith;
            parts = ground arith;
          }
        ]
      ]
    ]

length_of_parts :
    (a b c : Bytes) → length a ≡ 32 → length b ≡ 24 → length c ≡ 48 → length (a ++ (b ++ c)) ≡ 104
length_of_parts a b c ha hb hc = omega (arith, length-append a (b ++ c), length-append b c)

Sealed-opens :
    (lib : WrapPrimitives) (workspace_key kex_secret_key : Bytes) (slot : Slot)
    (ephemeral_secret_key nonce wrap : Bytes)
    → IsAead lib.cipher
    → IsExchange lib
    → Sealed lib workspace_key
        (lib.scalarmult_base kex_secret_key)
        slot
        ephemeral_secret_key
        nonce
        wrap
    → (length wrap ≡ 104)
      × (unwrap_epoch_key_for_member lib wrap kex_secret_key slot ≡ ok workspace_key)
unfolding unwrap_epoch_key_for_member
Sealed-opens lib k sk slot esk nonce wrap aead exchange s =
    let epk = lib.scalarmult_base esk in
    let sealed = lib.cipher.encrypt k s.info nonce s.key in
    let (epk_is, (nonce_is, sealed_is)) = cut epk nonce sealed (exchange.sized esk) s.nonce_size in
    let size =
      length_of_parts epk nonce sealed (exchange.sized esk) s.nonce_size
        (omega (arith, aead.tagged k s.info nonce s.key, s.key_size)) in
    let shared : lib.scalarmult sk epk ≡ some s.shared = exchange.agrees sk esk ∙ s.shared_of in
    (
      rw s.parts size,
      rw
          (
            s.parts,
            size,
            epk_is,
            nonce_is,
            sealed_is,
            s.info_of,
            shared,
            s.key_of,
            aead.opens k s.info nonce s.key,
          )
          refl,
    )

-- A wrap that was made for a slot has 104 bytes and opens there under the secret key to whose public
-- key it was sealed, to the epoch key; the cipher opens what it sealed and the exchange agrees.
pub unwrap_epoch_key_for_member-wrap_epoch_key_for_member :
    (lib : WrapPrimitives) (workspace_key kex_secret_key : Bytes) (slot : Slot)
    (ephemeral_secret_key nonce wrap : Bytes)
    → IsAead lib.cipher
    → IsExchange lib
    → wrap_epoch_key_for_member lib workspace_key
        (lib.scalarmult_base kex_secret_key)
        slot
        ephemeral_secret_key
        nonce
      ≡ ok wrap
    → (length wrap ≡ 104)
      × (unwrap_epoch_key_for_member lib wrap kex_secret_key slot ≡ ok workspace_key)
unwrap_epoch_key_for_member-wrap_epoch_key_for_member lib k sk slot esk nonce wrap aead exchange h =
    Sealed-opens lib k sk slot esk nonce wrap aead exchange
      (wrap_epoch_key_for_member-Sealed lib k (lib.scalarmult_base sk) slot esk nonce wrap h)

-- An epoch key that was wrapped under the master wrap key has 72 bytes wrapped and unwraps under it;
-- the cipher opens what it sealed.
pub unwrap_epoch_key_from_escrow-wrap_epoch_key_for_escrow :
    (lib : WrapPrimitives) (workspace_key master_wrap_key : Bytes) (workspace_id epoch : ℕ)
    (nonce wrap : Bytes)
    → IsAead lib.cipher
    → wrap_epoch_key_for_escrow lib workspace_key master_wrap_key workspace_id epoch nonce ≡ ok wrap
    → (length wrap ≡ 72)
      × (unwrap_epoch_key_from_escrow lib wrap master_wrap_key workspace_id epoch
          ≡ ok workspace_key)
unfolding wrap_epoch_key_for_escrow unwrap_epoch_key_from_escrow
unwrap_epoch_key_from_escrow-wrap_epoch_key_for_escrow lib k master w epoch nonce wrap aead h =
    elim (Result-cases (epoch_key_escrow_info w epoch)) [
      | inr (e, bad) ↦ absurd (ground arith)
      | inl (info, info_of) ↦
          let sealed = lib.cipher.encrypt k info nonce master in
          let nonce_size : length nonce ≡ 24 = ground arith in
          let key_size : length k ≡ 32 = ground arith in
          let parts : wrap ≡ nonce ++ sealed = ground arith in
          let size : length (nonce ++ sealed) ≡ 72 = omega (
            arith,
            length-append nonce sealed,
            nonce_size,
            aead.tagged k info nonce master,
            key_size,
          ) in
          (
            rw parts size,
            rw
                (
                  parts,
                  size,
                  take-append 24 nonce sealed nonce_size,
                  drop-append 24 nonce sealed nonce_size,
                  info_of,
                  aead.opens k info nonce master,
                )
                refl,
          )
    ]
