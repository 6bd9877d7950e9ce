-- ===== src/Keys/Digest/Binding.antt =====
-- What the digest of key_wraps.py commits to: the epoch, the set of wraps and the escrow wrap.
use mathlib.Core.List.{Perm, mem-cons_self, mem-cons_of_mem}
use mathlib.Core.List.Perm
use jeeves.Common.{
  ℕ, ◌^◌, ◌<◌, ◌≡◌, ◌≢◌, refl, sym, ap, ap₂, ◌∙◌, ◌⊎◌, inl, inr, List, [], ◌∷◌, ◌++◌, arith, length,
  append_assoc, append_cancel, Bool-cases, ok, ok-injective, subst, >>=-eq-ok, Result-cases,
}
use jeeves.Common.Bytes.{Bytes, bytes_eq, bytes_eq_iff, to_be, length-to_be}
use jeeves.Crypto.{Primitives}
use jeeves.Keys.Sorting.{sorted, sorted_perm, length-sorted}
use jeeves.Keys.Digest.{
  WrapEntry, entry_leb, entries_bytes, digest_input, keywrap_digest, keywrap_digest_domain,
  count_bytes,
}
use jeeves.Keys.Consts.{epoch_bytes}
use jeeves.Keys.Digest.Order.{AreUuids, to_be-injective_width, to_be-injective}

-- Two inputs with one hash.
abbrev pub Collision : Primitives → Type 0
Collision lib = (x : Bytes) × (y : Bytes) × (x ≢ y) × (lib.sha256 x ≡ lib.sha256 y)

abbrev pub HasDigestSize : Primitives → Type 0
HasDigestSize lib = (x : Bytes) → length (lib.sha256 x) ≡ 32

pub same_hash :
    (lib : Primitives) (x y : Bytes) → lib.sha256 x ≡ lib.sha256 y → (x ≡ y) ⊎ Collision lib
same_hash lib x y h = elim (Bool-cases (bytes_eq x y)) [
  | inl same ↦ inl ((bytes_eq_iff x y).0 same)
  | inr other ↦ inr (x, y, λ e. ground (arith, bytes_eq_iff x y), h)
]

-- What is read off the bytes of one entry.
record Framed (lib : Primitives) (x : WrapEntry) (xs : List WrapEntry) (b : Bytes) : Type 0 where
  later : Bytes
  rest : entries_bytes lib xs ≡ ok later
  key_size : length x.kex_key_id ≡ 8
  wrap_size : length x.wrap ≡ 104
  bytes : b ≡ to_be 16 x.member_id ++ (x.kex_key_id ++ (lib.sha256 x.wrap ++ later))

entries_bytes-Framed :
    (lib : Primitives) (x : WrapEntry) (xs : List WrapEntry) (b : Bytes)
    → entries_bytes lib (x ∷ xs) ≡ ok b
    → Framed lib x xs b
unfolding entries_bytes
entries_bytes-Framed lib x xs b h = elim (Result-cases (entries_bytes lib xs)) [
  | inl (later, rest) ↦ record {
    later = later;
    rest = rest;
    key_size = ground arith;
    wrap_size = ground arith;
    bytes = ground arith;
  }
  | inr (e, bad) ↦ absurd (ground arith)
]

Framed-append :
    (lib : Primitives) (x : WrapEntry) (xs : List WrapEntry) (b us : Bytes) (f : Framed lib x xs b)
    → b ++ us ≡ to_be 16 x.member_id ++ (x.kex_key_id ++ (lib.sha256 x.wrap ++ (f.later ++ us)))
Framed-append lib x xs b us f =
    rw
      (
        f.bytes,
        append_assoc (to_be 16 x.member_id) (x.kex_key_id ++ (lib.sha256 x.wrap ++ f.later)) us,
        append_assoc x.kex_key_id (lib.sha256 x.wrap ++ f.later) us,
        append_assoc (lib.sha256 x.wrap) f.later us,
      )
      refl

entry_cancel :
    (lib : Primitives) (x y : WrapEntry) (us vs : Bytes)
    → HasDigestSize lib
    → x.member_id < 2 ^ 128
    → y.member_id < 2 ^ 128
    → length x.kex_key_id ≡ 8
    → length y.kex_key_id ≡ 8
    → to_be 16 x.member_id ++ (x.kex_key_id ++ (lib.sha256 x.wrap ++ us))
      ≡ to_be 16 y.member_id ++ (y.kex_key_id ++ (lib.sha256 y.wrap ++ vs))
    → ((x ≡ y) × (us ≡ vs)) ⊎ Collision lib
entry_cancel lib x y us vs size ux uy kx ky h =
    let (ids, h1) =
      append_cancel 16 _ _ _ _ (length-to_be 16 x.member_id) (length-to_be 16 y.member_id) h in
    let (keys, h2) = append_cancel 8 _ _ _ _ kx ky h1 in
    let (hashes, h3) = append_cancel 32 _ _ _ _ (size x.wrap) (size y.wrap) h2 in
    let members = to_be-injective x.member_id y.member_id ux uy ids in
    elim (same_hash lib x.wrap y.wrap hashes) [
      | inl wraps ↦ inl (ground arith, h3)
      | inr collision ↦ inr collision
    ]

entries_bytes-cancel :
    (lib : Primitives) (l r : List WrapEntry) (b c us vs : Bytes)
    → HasDigestSize lib
    → AreUuids l
    → AreUuids r
    → length l ≡ length r
    → entries_bytes lib l ≡ ok b
    → entries_bytes lib r ≡ ok c
    → b ++ us ≡ c ++ vs
    → ((l ≡ r) × (us ≡ vs)) ⊎ Collision lib
unfolding entries_bytes
entries_bytes-cancel lib [] [] b c us vs size ul ur n hb hc h = inl (refl, ground arith)
entries_bytes-cancel lib [] (y ∷ ys) b c us vs size ul ur n hb hc h = absurd (omega arith)
entries_bytes-cancel lib (x ∷ xs) [] b c us vs size ul ur n hb hc h = absurd (omega arith)
entries_bytes-cancel lib (x ∷ xs) (y ∷ ys) b c us vs size ul ur n hb hc h =
    let fx = entries_bytes-Framed lib x xs b hb in
    let fy = entries_bytes-Framed lib y ys c hc in
    elim (entry_cancel lib x y (fx.later ++ us) (fy.later ++ vs) size (ul x mem-cons_self)
      (ur y mem-cons_self) fx.key_size fy.key_size
      (sym (Framed-append lib x xs b us fx) ∙ h ∙ Framed-append lib y ys c vs fy)) [
        | inr collision ↦ inr collision
        | inl (heads, tails) ↦
            elim (entries_bytes-cancel lib xs ys fx.later fy.later us vs size
              (λ z m. ul z (mem-cons_of_mem x m)) (λ z m. ur z (mem-cons_of_mem y m))
              (omega (arith, n)) fx.rest fy.rest tails) [
                | inr collision ↦ inr collision
                | inl (rest, ends) ↦ inl (ap₂ ◌∷◌ heads rest, ends)
              ]
      ]

-- What is read off all that is hashed.
record Input (lib : Primitives) (epoch : ℕ) (l : List WrapEntry) (s b : Bytes) : Type 0 where
  entries : Bytes
  sorted_entries : entries_bytes lib (sorted entry_leb l) ≡ ok entries
  epoch_fits : epoch < 256 ^ 4
  count_fits : length l < 256 ^ 4
  bytes :
      b
      ≡ keywrap_digest_domain
        ++ (to_be 4 epoch ++ (to_be 4 (length l) ++ (entries ++ lib.sha256 s)))

digest_input-Input :
    (lib : Primitives) (epoch : ℕ) (l : List WrapEntry) (s b : Bytes)
    → digest_input lib epoch l s ≡ ok b
    → Input lib epoch l s b
unfolding digest_input epoch_bytes count_bytes
digest_input-Input lib epoch l s b h =
    elim (Result-cases (entries_bytes lib (sorted entry_leb l))) [
      | inl (entries, known) ↦ record {
        entries = entries;
        sorted_entries = known;
        epoch_fits = ground arith;
        count_fits = ground arith;
        bytes = ground arith;
      }
      | inr (e, bad) ↦ absurd (ground arith)
    ]

AreUuids-sorted : (l : List WrapEntry) → AreUuids l → AreUuids (sorted entry_leb l)
AreUuids-sorted l h x m = h x ((Perm.mem_iff (sorted_perm entry_leb l)).0 m)

Perm-of_sorted : (l r : List WrapEntry) → sorted entry_leb l ≡ sorted entry_leb r → Perm l r
Perm-of_sorted l r same =
    Perm.trans (Perm.symm (sorted_perm entry_leb l))
      (subst (λ m. Perm m r) (sym same) (sorted_perm entry_leb r))

Input-cancel :
    (lib : Primitives) (e e' : ℕ) (l r : List WrapEntry) (s t b : Bytes)
    → HasDigestSize lib
    → AreUuids l
    → AreUuids r
    → Input lib e l s b
    → Input lib e' r t b
    → ((e ≡ e') × (Perm l r × (s ≡ t))) ⊎ Collision lib
Input-cancel lib e e' l r s t b size ul ur i j =
    let us = i.entries ++ lib.sha256 s in
    let vs = j.entries ++ lib.sha256 t in
    let h1 =
      (append_cancel 24 keywrap_digest_domain keywrap_digest_domain
        (to_be 4 e ++ (to_be 4 (length l) ++ us)) (to_be 4 e' ++ (to_be 4 (length r) ++ vs)) refl
        refl (sym i.bytes ∙ j.bytes)).1 in
    let (epochs, h2) = append_cancel 4 _ _ _ _ (length-to_be 4 e) (length-to_be 4 e') h1 in
    let (counts, h3) =
      append_cancel 4 _ _ us vs (length-to_be 4 (length l)) (length-to_be 4 (length r)) h2 in
    let sizes : length (sorted entry_leb l) ≡ length (sorted entry_leb r) =
      length-sorted entry_leb l
      ∙ to_be-injective_width 4 (length l) (length r) i.count_fits j.count_fits counts
      ∙ sym (length-sorted entry_leb r) in
    elim (entries_bytes-cancel lib (sorted entry_leb l) (sorted entry_leb r) i.entries j.entries
      (lib.sha256 s) (lib.sha256 t) size (AreUuids-sorted l ul) (AreUuids-sorted r ur) sizes
      i.sorted_entries j.sorted_entries h3) [
        | inr collision ↦ inr collision
        | inl (same, hashes) ↦ elim (same_hash lib s t hashes) [
          | inr collision ↦ inr collision
          | inl wraps ↦ inl (
            to_be-injective_width 4 e e' i.epoch_fits j.epoch_fits epochs,
            (Perm-of_sorted l r same, wraps),
          )
        ]
      ]

-- Two uploads with one digest are of one epoch, the same wraps up to their order and one escrow
-- wrap, or they give two inputs on which the hash collides; ids are UUIDs, hashes have 32 bytes.
pub keywrap_digest-Binding :
    (lib : Primitives) (e e' : ℕ) (l r : List WrapEntry) (s t digest : Bytes)
    → HasDigestSize lib
    → AreUuids l
    → AreUuids r
    → keywrap_digest lib e l s ≡ ok digest
    → keywrap_digest lib e' r t ≡ ok digest
    → ((e ≡ e') × (Perm l r × (s ≡ t))) ⊎ Collision lib
unfolding keywrap_digest
keywrap_digest-Binding lib e e' l r s t digest size ul ur h k =
    let (b, hb, b_hash) = >>=-eq-ok (digest_input lib e l s) _ h in
    let (c, hc, c_hash) = >>=-eq-ok (digest_input lib e' r t) _ k in
    elim (same_hash lib b c (ok-injective b_hash ∙ sym (ok-injective c_hash))) [
      | inr collision ↦ inr collision
      | inl same ↦
          Input-cancel lib e e' l r s t b size ul ur (digest_input-Input lib e l s b hb)
            (digest_input-Input lib e' r t b (hc ∙ ap ok (sym same)))
    ]
