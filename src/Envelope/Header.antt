-- ===== src/Envelope/Header.antt =====
-- `OpHeader` of envelope.py: the 158 bytes that every op carries in the clear. The integers are
-- Python's, which `parse` only ever reads as unsigned; a UUID is its 128-bit integer.
pub mod RoundTrip
use jeeves.Common.{
  ℕ, ◌^◌, Bool, true, false, not, ◌&&◌, List, [], ◌∷◌, ◌==◌, ltb, length, take, if◌then◌else◌,
  Result, ok, err, ◌>>=◌, ◌>>◌, raise_if,
}
use jeeves.Common.Bytes.{Bytes, to_be, from_be}
use jeeves.Envelope.Consts.{
  header_length_bytes, author_key_id_bytes, prev_author_hash_bytes, observed_head_bytes,
  nonce_bytes, header_field_widths,
}
use jeeves.Envelope.Errors.{EnvelopeError, PackError, value_error, struct_error}
use jeeves.Envelope.Fields.{join, split_fields}

pub record OpHeader : Type 0 where
  pub suite : ℕ
  pub op_class : ℕ
  pub workspace_id : ℕ
  pub key_epoch : ℕ
  pub op_id : ℕ
  pub author_member_id : ℕ
  pub author_key_id : Bytes
  pub author_seq : ℕ
  pub prev_author_hash : Bytes
  pub observed_head : Bytes
  pub nonce : Bytes

-- The bytes of the struct format ">BB16sI16s16s8sQ32s32s24s".
unfoldable pub packed_fields : OpHeader → List Bytes
packed_fields h =
    to_be 1 h.suite
    ∷ to_be 1 h.op_class
    ∷ to_be 16 h.workspace_id
    ∷ to_be 4 h.key_epoch
    ∷ to_be 16 h.op_id
    ∷ to_be 16 h.author_member_id
    ∷ h.author_key_id
    ∷ to_be 8 h.author_seq
    ∷ h.prev_author_hash
    ∷ h.observed_head
    ∷ h.nonce
    ∷ []

unfoldable pub packed : OpHeader → Bytes
packed h = join (packed_fields h)

-- Whether `struct.pack` takes the four integers; a UUID is in range by its own constructor.
unfoldable pub fits_struct : OpHeader → Bool
fits_struct h =
    ltb h.suite (256 ^ 1)
    && (ltb h.op_class (256 ^ 1) && (ltb h.key_epoch (256 ^ 4) && ltb h.author_seq (256 ^ 8)))

-- `OpHeader.serialize`
unfoldable pub serialize : OpHeader → Result PackError Bytes
serialize h = do
  raise_if (not (length h.author_key_id == author_key_id_bytes)) value_error
  raise_if (not (length h.prev_author_hash == prev_author_hash_bytes)) value_error
  raise_if (not (length h.observed_head == observed_head_bytes)) value_error
  raise_if (not (length h.nonce == nonce_bytes)) value_error
  raise_if (not (fits_struct h)) struct_error
  ok (packed h)

-- The tuple that `unpack` returns, as the header's fields. It has eleven parts, whatever the bytes.
unfoldable pub header_of_fields : List Bytes → Result EnvelopeError OpHeader
header_of_fields (a ∷ b ∷ c ∷ d ∷ e ∷ f ∷ g ∷ i ∷ j ∷ k ∷ l ∷ rest) = ok (record {
  suite = from_be a;
  op_class = from_be b;
  workspace_id = from_be c;
  key_epoch = from_be d;
  op_id = from_be e;
  author_member_id = from_be f;
  author_key_id = g;
  author_seq = from_be i;
  prev_author_hash = j;
  observed_head = k;
  nonce = l;
})
header_of_fields fields = err EnvelopeError.truncated_envelope

-- `OpHeader.parse`
unfoldable pub parse : Bytes → Result EnvelopeError OpHeader
parse raw =
    if ltb (length raw) header_length_bytes
    then err EnvelopeError.truncated_envelope
    else header_of_fields (split_fields header_field_widths (take header_length_bytes raw))
