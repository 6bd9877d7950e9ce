-- ===== src/Envelope/Header/RoundTrip.antt =====
-- What `serialize` writes is what `parse` reads, and the other way round.
use jeeves.Common.{
  ◌^◌, ◌<◌, ◌≡◌, refl, ap, ◌∙◌, List, [], ◌∷◌, ◌++◌, arith, false, ltb, length, drop-drop,
  option_or, get_elem?, take, drop, append-nil, sym, Bool-cases, ltb-false, inl, inr, length-take,
  take-append, take_all, length-append, ok,
}
use jeeves.Common.Bytes.{
  Bytes, AreBytes, from_be, from_be-to_be, length-to_be, from_be-lt_width, to_be-from_be_width,
}
use jeeves.Envelope.Consts.{header_field_widths}
use jeeves.Envelope.Fields.{
  join, split_fields, HaveWidths, AllBytes, length-join, split_fields-join, join-split_fields,
  HaveWidths-split_fields, AllBytes-split_fields, AreBytes-take,
}
use jeeves.Envelope.Header.{
  OpHeader, packed_fields, packed, fits_struct, serialize, header_of_fields, parse,
}

-- The widths and ranges of the wire format.
pub record IsWireHeader (h : OpHeader) : Type 0 where
  pub suite : h.suite < 256 ^ 1
  pub op_class : h.op_class < 256 ^ 1
  pub workspace_id : h.workspace_id < 256 ^ 16
  pub key_epoch : h.key_epoch < 256 ^ 4
  pub op_id : h.op_id < 256 ^ 16
  pub author_member_id : h.author_member_id < 256 ^ 16
  pub author_key_id : length h.author_key_id ≡ 8
  pub author_seq : h.author_seq < 256 ^ 8
  pub prev_author_hash : length h.prev_author_hash ≡ 32
  pub observed_head : length h.observed_head ≡ 32
  pub nonce : length h.nonce ≡ 24

HaveWidths-packed_fields :
    (h : OpHeader) → IsWireHeader h → HaveWidths header_field_widths (packed_fields h)
unfolding packed_fields
HaveWidths-packed_fields h v = omega (arith, length-to_be, v)

pub serialize-eq-packed : (h : OpHeader) → IsWireHeader h → serialize h ≡ ok (packed h)
unfolding serialize fits_struct
serialize-eq-packed h v = ground arith

header_of_fields-packed_fields :
    (h : OpHeader) → IsWireHeader h → header_of_fields (packed_fields h) ≡ ok h
unfolding header_of_fields packed_fields
header_of_fields-packed_fields h v = rw (
  from_be-to_be 1 h.suite v.suite,
  from_be-to_be 1 h.op_class v.op_class,
  from_be-to_be 16 h.workspace_id v.workspace_id,
  from_be-to_be 4 h.key_epoch v.key_epoch,
  from_be-to_be 16 h.op_id v.op_id,
  from_be-to_be 16 h.author_member_id v.author_member_id,
  from_be-to_be 8 h.author_seq v.author_seq,
)

long_enough : (xs ys : Bytes) → length xs ≡ 158 → ltb (length (xs ++ ys)) 158 ≡ false
long_enough xs ys h = ground (arith, length-append xs ys)

pub length-packed : (h : OpHeader) → IsWireHeader h → length (packed h) ≡ 158
unfolding packed
length-packed h v = length-join header_field_widths (packed_fields h) (HaveWidths-packed_fields h v)

packed-eq-join : (h : OpHeader) → packed h ≡ join (packed_fields h)
unfolding packed
packed-eq-join h = refl

split_fields-packed :
    (h : OpHeader) → IsWireHeader h → split_fields header_field_widths (packed h) ≡ packed_fields h
unfolding packed
split_fields-packed h v =
    ap (split_fields header_field_widths) (sym (append-nil (join (packed_fields h))))
    ∙ split_fields-join header_field_widths (packed_fields h) [] (HaveWidths-packed_fields h v)

-- The header of an envelope that `serialize` began, whatever follows.
pub parse-packed : (h : OpHeader) (rest : Bytes) → IsWireHeader h → parse (packed h ++ rest) ≡ ok h
unfolding parse
parse-packed h rest v =
    rw
      (
        long_enough (packed h) rest (length-packed h v),
        take-append 158 (packed h) rest (length-packed h v),
        split_fields-packed h v,
      )
      (header_of_fields-packed_fields h v)

abbrev last_field : List Bytes → Bytes
last_field fields = option_or (get_elem? fields 10) []

-- The nonce is the last 24 bytes, at offset 134.
pub nonce-packed : (h : OpHeader) → IsWireHeader h → take 24 (drop 134 (packed h)) ≡ h.nonce
unfolding packed_fields split_fields
nonce-packed h v =
    let last : last_field (split_fields header_field_widths (packed h)) ≡ h.nonce =
      ap last_field (split_fields-packed h v) in
    simp drop-drop at last

-- A header in range serializes to 158 bytes, and parsing these, whatever follows, gives it back.
pub parse-serialize :
    (h : OpHeader) (rest : Bytes)
    → IsWireHeader h
    → (raw : Bytes) × (serialize h ≡ ok raw) × (length raw ≡ 158) × (parse (raw ++ rest) ≡ ok h)
parse-serialize h rest v =
    (packed h, serialize-eq-packed h v, length-packed h v, parse-packed h rest v)

module _ (a b c d e f g i j k l : Bytes)
    (widths : HaveWidths header_field_widths (a ∷ b ∷ c ∷ d ∷ e ∷ f ∷ g ∷ i ∷ j ∷ k ∷ l ∷ []))
    (bytes : AllBytes (a ∷ b ∷ c ∷ d ∷ e ∷ f ∷ g ∷ i ∷ j ∷ k ∷ l ∷ [])) where
  fields_header : OpHeader
  fields_header = record {
    suite = from_be a;
    op_class = from_be b;
    workspace_id = from_be c;
    key_epoch = from_be d;
    op_id = from_be e;
    author_member_id = from_be f;
    author_key_id = g;
    author_seq = from_be i;
    prev_author_hash = j;
    observed_head = k;
    nonce = l;
  }

  fields_header-IsWireHeader : IsWireHeader fields_header
  unfolding fields_header
  fields_header-IsWireHeader = record {
    suite = from_be-lt_width 1 a bytes.0 widths.0;
    op_class = from_be-lt_width 1 b bytes.1.0 widths.1.0;
    workspace_id = from_be-lt_width 16 c bytes.1.1.0 widths.1.1.0;
    key_epoch = from_be-lt_width 4 d bytes.1.1.1.0 widths.1.1.1.0;
    op_id = from_be-lt_width 16 e bytes.1.1.1.1.0 widths.1.1.1.1.0;
    author_member_id = from_be-lt_width 16 f bytes.1.1.1.1.1.0 widths.1.1.1.1.1.0;
    author_seq = from_be-lt_width 8 i bytes.1.1.1.1.1.1.1.0 widths.1.1.1.1.1.1.1.0;
    author_key_id = widths.1.1.1.1.1.1.0;
    prev_author_hash = widths.1.1.1.1.1.1.1.1.0;
    observed_head = widths.1.1.1.1.1.1.1.1.1.0;
    nonce = widths.1.1.1.1.1.1.1.1.1.1.0;
  }

  packed_fields-fields_header :
      packed_fields fields_header ≡ a ∷ b ∷ c ∷ d ∷ e ∷ f ∷ g ∷ i ∷ j ∷ k ∷ l ∷ []
  unfolding packed_fields fields_header
  packed_fields-fields_header = rw (
    to_be-from_be_width 1 a bytes.0 widths.0,
    to_be-from_be_width 1 b bytes.1.0 widths.1.0,
    to_be-from_be_width 16 c bytes.1.1.0 widths.1.1.0,
    to_be-from_be_width 4 d bytes.1.1.1.0 widths.1.1.1.0,
    to_be-from_be_width 16 e bytes.1.1.1.1.0 widths.1.1.1.1.0,
    to_be-from_be_width 16 f bytes.1.1.1.1.1.0 widths.1.1.1.1.1.0,
    to_be-from_be_width 8 i bytes.1.1.1.1.1.1.1.0 widths.1.1.1.1.1.1.1.0,
  )

  fields_header_unique :
      (h : OpHeader)
      → header_of_fields (a ∷ b ∷ c ∷ d ∷ e ∷ f ∷ g ∷ i ∷ j ∷ k ∷ l ∷ []) ≡ ok h
      → fields_header ≡ h
  unfolding header_of_fields fields_header
  fields_header_unique h parsed = cc

split_fields_back :
    (raw : Bytes) (h : OpHeader)
    → length raw ≡ 158
    → AreBytes raw
    → header_of_fields (split_fields header_field_widths raw) ≡ ok h
    → IsWireHeader h × (packed_fields h ≡ split_fields header_field_widths raw)
unfolding split_fields
split_fields_back raw h size raw_bytes parsed =
    let widths = HaveWidths-split_fields header_field_widths raw (omega arith) in
    let bytes = AllBytes-split_fields header_field_widths raw raw_bytes in
    let r0 : Bytes = raw in
    let r1 : Bytes = drop 1 r0 in
    let r2 : Bytes = drop 1 r1 in
    let r3 : Bytes = drop 16 r2 in
    let r4 : Bytes = drop 4 r3 in
    let r5 : Bytes = drop 16 r4 in
    let r6 : Bytes = drop 16 r5 in
    let r7 : Bytes = drop 8 r6 in
    let r8 : Bytes = drop 8 r7 in
    let r9 : Bytes = drop 32 r8 in
    let r10 : Bytes = drop 32 r9 in
    let unique =
      fields_header_unique (take 1 r0) (take 1 r1) (take 16 r2) (take 4 r3) (take 16 r4)
        (take 16 r5) (take 8 r6) (take 8 r7) (take 32 r8) (take 32 r9) (take 24 r10) widths bytes h
        parsed in
    (
      rw (← unique) (
          fields_header-IsWireHeader (take 1 r0) (take 1 r1) (take 16 r2) (take 4 r3) (take 16 r4)
            (take 16 r5) (take 8 r6) (take 8 r7) (take 32 r8) (take 32 r9) (take 24 r10) widths
            bytes),
      ap packed_fields (sym unique)
          ∙ packed_fields-fields_header (take 1 r0) (take 1 r1) (take 16 r2) (take 4 r3)
              (take 16 r4) (take 16 r5) (take 8 r6) (take 8 r7) (take 32 r8) (take 32 r9)
              (take 24 r10) widths bytes,
    )

-- A header that was parsed from bytes is in range, and serializes to the first 158 of them.
pub serialize-parse :
    (raw : Bytes) (h : OpHeader)
    → AreBytes raw
    → parse raw ≡ ok h
    → IsWireHeader h × (serialize h ≡ ok (take 158 raw))
unfolding parse
serialize-parse raw h bytes parsed = elim (Bool-cases (ltb (length raw) 158)) [
  | inl short ↦ cc (rw short at parsed)
  | inr enough ↦
      let first = take 158 raw in
      let size : length first ≡ 158 =
        omega (arith, length-take 158 raw, ltb-false (length raw) 158 enough) in
      let (wire, same) =
        split_fields_back first h size (AreBytes-take 158 raw bytes) (rw enough at parsed) in
      let joined : packed h ≡ first =
        packed-eq-join h
        ∙ ap join same
        ∙ join-split_fields header_field_widths first
        ∙ take_all 158 first (omega arith) in
      (wire, serialize-eq-packed h wire ∙ ap ok joined)
]
