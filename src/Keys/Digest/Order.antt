-- ===== src/Keys/Digest/Order.antt =====
-- The digest of key_wraps.py is of a set: the order of the upload leaves no trace.
use mathlib.Core.Logic.Or
use mathlib.Core.List.{Mem, Perm, mem-cons, not-mem-nil}
use native.Mathlib.Bridge.{le_prop}
use jeeves.Common.{ℕ, ◌^◌, ◌<◌, ◌≡◌, refl, sym, ap, ◌∙◌, true, false, List, [], ◌∷◌, length}
use jeeves.Common.Bytes.{Bytes, to_be, from_be, from_be-to_be}
use jeeves.Crypto.{Primitives}
use jeeves.Keys.Sorting.{
  pair_leb_total, pair_leb_trans, pair_leb_antisymm, sorted, sorted-of_perm, length-sorted,
}
use jeeves.Keys.Digest.{WrapEntry, entry_leb, digest_input, keywrap_digest}

entry_leb_total : (a b : WrapEntry) → entry_leb a b ≡ false → entry_leb b a ≡ true
unfolding entry_leb
entry_leb_total a b =
    pair_leb_total (to_be 16 a.member_id) a.kex_key_id (to_be 16 b.member_id) b.kex_key_id

entry_leb_trans :
    (a b c : WrapEntry) → entry_leb a b ≡ true → entry_leb b c ≡ true → entry_leb a c ≡ true
unfolding entry_leb
entry_leb_trans a b c =
    pair_leb_trans (to_be 16 a.member_id) a.kex_key_id (to_be 16 b.member_id) b.kex_key_id
      (to_be 16 c.member_id) c.kex_key_id

-- UUIDs have 128 bits.
abbrev pub AreUuids : List WrapEntry → Type 0
AreUuids l = (x : WrapEntry) → Mem x l → x.member_id < 2 ^ 128

-- No two wraps are for one Member.
abbrev pub IsOneWrapEach : List WrapEntry → Type 0
IsOneWrapEach l = (x y : WrapEntry) → Mem x l → Mem y l → x.member_id ≡ y.member_id → x ≡ y

pub AreUuids-nil : AreUuids []
AreUuids-nil x m = absurd (not-mem-nil m)

pub AreUuids-cons :
    (entry : WrapEntry) (rest : List WrapEntry)
    → entry.member_id < 2 ^ 128
    → AreUuids rest
    → AreUuids (entry ∷ rest)
AreUuids-cons entry rest h k x m = Or.elim le_prop (mem-cons.0 m) (λ e. rw e h) (k x)

pub to_be-injective_width : (w n m : ℕ) → n < 256 ^ w → m < 256 ^ w → to_be w n ≡ to_be w m → n ≡ m
to_be-injective_width w n m hn hm e =
    sym (from_be-to_be w n hn) ∙ ap from_be e ∙ from_be-to_be w m hm

pub to_be-injective : (n m : ℕ) → n < 2 ^ 128 → m < 2 ^ 128 → to_be 16 n ≡ to_be 16 m → n ≡ m
to_be-injective n m hn hm e = to_be-injective_width 16 n m hn hm e

pub WrapEntry-set : IsSet WrapEntry
WrapEntry-set = hlevel

pub sorted-of_perm_entries :
    (l r : List WrapEntry)
    → AreUuids l
    → IsOneWrapEach l
    → Perm l r
    → sorted entry_leb l ≡ sorted entry_leb r
unfolding entry_leb
sorted-of_perm_entries l r uuids one p =
    sorted-of_perm entry_leb entry_leb_total entry_leb_trans WrapEntry-set l r p
      (λ x y mx my below above. one x y mx my (
        to_be-injective x.member_id y.member_id (uuids x mx) (uuids y my)
          (pair_leb_antisymm (to_be 16 x.member_id) x.kex_key_id (to_be 16 y.member_id) y.kex_key_id
            below above).0))

-- Two uploads of the same wraps in any order have the same digest, or are refused for the same
-- reason, where the ids are UUIDs and no two wraps are for one Member.
pub keywrap_digest-of_perm :
    (lib : Primitives) (epoch : ℕ) (l r : List WrapEntry) (escrow_wrap : Bytes)
    → AreUuids l
    → IsOneWrapEach l
    → Perm l r
    → keywrap_digest lib epoch l escrow_wrap ≡ keywrap_digest lib epoch r escrow_wrap
unfolding keywrap_digest digest_input
keywrap_digest-of_perm lib epoch l r escrow_wrap uuids one p =
    let same = sorted-of_perm_entries l r uuids one p in
    let sizes : length l ≡ length r =
      sym (length-sorted entry_leb l) ∙ ap length same ∙ length-sorted entry_leb r in
    rw (same, sizes) refl
