-- ===== src/OpPayload.antt =====
-- The content payloads of backend/app/sync/op_payload.py: the writer, the reader, and the shape that
-- a compaction must have. The dict of fields is the list of its items, in its order.
pub mod Shape
pub mod RoundTrip
use jeeves.Common.{
  ℕ, Bool, true, false, not, ◌&&◌, List, [], ◌∷◌, Option, none, some, String, str_eq, ◌==◌, is_some,
  all, if◌then◌else◌, Result, ok, err, ◌>>=◌, ◌>>◌, raise_if, or_raise,
}
use jeeves.Common.Bytes.{Bytes}
use jeeves.Crypto.{Primitives}
use jeeves.Json.{Json, null, bool, int, text, array, object, nil, cons, Fields, end, field, get}
use jeeves.Text.{matches_hex, matches_canonical_uuid, uuid_of_text, uuid_text}
use jeeves.Envelope.{op_class_compaction}
use jeeves.Control.Errors.{Hlc}

-- The exceptions of the module; `uncaught` is a `ValueError` of `uuid.UUID`.
pub data PayloadError : Type 0 where
  malformed_payload malformed_member_id_hex compaction_field_without_hlc : PayloadError
  compaction_tombstone_without_hlc tombstone_hlc_outside_compaction uncaught : PayloadError

-- `Hlc.__post_init__`
unfoldable pub checked_hlc : Hlc → Result PayloadError Hlc
checked_hlc hlc =
    if matches_hex 32 hlc.member_id_hex then ok hlc else err PayloadError.malformed_member_id_hex

-- `Hlc.from_json`
unfoldable pub hlc_of_json : Json → Result PayloadError Hlc
unfolding checked_hlc
hlc_of_json (array (cons (int wall_ms) (cons (int counter) (cons (text member) nil)))) =
    checked_hlc (record { wall_ms = wall_ms; counter = counter; member_id_hex = member })
hlc_of_json (array (cons (int wall_ms) (cons (int counter) (cons member nil)))) =
    err PayloadError.malformed_member_id_hex
hlc_of_json raw = err PayloadError.malformed_payload

-- `Hlc.to_json`
unfoldable pub hlc_to_json : Hlc → Json
hlc_to_json hlc =
    array (cons (int hlc.wall_ms) (cons (int hlc.counter) (cons (text hlc.member_id_hex) nil)))

pub record FieldWrite : Type 0 where
  pub name : String
  pub value : Json
  pub hlc : Option Hlc

pub record OpPayload : Type 0 where
  pub collection : String
  pub entity_id : ℕ
  pub hlc : Hlc
  pub fields : List FieldWrite
  pub tombstone : Bool
  pub tombstone_hlc : Option Hlc

-- `effective_tombstone_hlc`
unfoldable pub effective_tombstone_hlc : OpPayload → Hlc
effective_tombstone_hlc payload = elim payload.tombstone_hlc [ none ↦ payload.hlc | some hlc ↦ hlc ]

-- A key that stands in the dict where there is an HLC, in front of `rest`.
unfoldable pub clock_field : String → Option Hlc → Fields → Fields
unfolding hlc_to_json
clock_field key none rest = rest
clock_field key (some hlc) rest = field key (hlc_to_json hlc) rest

unfoldable pub fields_json : List FieldWrite → Fields
unfolding clock_field
fields_json [] = end
fields_json (write ∷ writes) =
    field write.name (object (field "v" write.value (clock_field "hlc" write.hlc end)))
      (fields_json writes)

abbrev pub tombstone_field : Bool → Fields → Fields
tombstone_field false rest = rest
tombstone_field true rest = field "tombstone" (bool true) rest

-- `to_json_dict`
unfoldable pub to_json_dict : OpPayload → Fields
unfolding fields_json hlc_to_json clock_field
to_json_dict payload = field "collection" (text payload.collection) (
    field "id" (text (uuid_text payload.entity_id)) (
      field "fields" (object (fields_json payload.fields)) (
        field "hlc" (hlc_to_json payload.hlc) (
          tombstone_field payload.tombstone
            (clock_field "tombstone_hlc" payload.tombstone_hlc end)))))

-- `raw[key]` where `key in raw`
unfoldable pub entry_at : Fields → String → Option Json
entry_at end key = none
entry_at (field k v rest) key =
    let later = entry_at rest key in if str_eq k key then some v else later

unfoldable pub clock_of : Option Json → Result PayloadError (Option Hlc)
unfolding hlc_of_json
clock_of none = ok none
clock_of (some raw) = hlc_of_json raw >>= λ hlc. ok (some hlc)

-- One turn of the loop over the fields.
unfoldable pub field_write : String → Json → Result PayloadError FieldWrite
unfolding entry_at clock_of
field_write name (object entry) = do
  value ← or_raise (entry_at entry "v") PayloadError.malformed_payload
  hlc ← clock_of (entry_at entry "hlc")
  ok (record { name = name; value = value; hlc = hlc })
field_write name raw = err PayloadError.malformed_payload

unfoldable pub field_writes : Fields → Result PayloadError (List FieldWrite)
unfolding field_write
field_writes end = ok []
field_writes (field name raw rest) = do
  write ← field_write name raw
  writes ← field_writes rest
  ok (write ∷ writes)

unfoldable pub require_collection : Json → Result PayloadError String
require_collection (text s) = if str_eq s "" then err PayloadError.malformed_payload else ok s
require_collection raw = err PayloadError.malformed_payload

unfoldable pub require_entity_id : Json → Result PayloadError ℕ
require_entity_id (text s) =
    if matches_canonical_uuid s
    then or_raise (uuid_of_text s) PayloadError.uncaught
    else err PayloadError.malformed_payload
require_entity_id raw = err PayloadError.malformed_payload

-- A missing key and an explicit null read alike.
unfoldable pub require_fields : Json → Result PayloadError (List FieldWrite)
unfolding field_writes
require_fields null = ok []
require_fields (object raw) = field_writes raw
require_fields raw = err PayloadError.malformed_payload

unfoldable pub require_tombstone : Json → Result PayloadError Bool
require_tombstone null = ok false
require_tombstone (bool b) = ok b
require_tombstone raw = err PayloadError.malformed_payload

unfoldable pub tombstone_clock : Json → Result PayloadError (Option Hlc)
unfolding hlc_of_json
tombstone_clock null = ok none
tombstone_clock raw = hlc_of_json raw >>= λ hlc. ok (some hlc)

unfoldable pub payload_of_fields : Fields → Result PayloadError OpPayload
payload_of_fields raw = do
  collection ← require_collection (get raw "collection")
  entity_id ← require_entity_id (get raw "id")
  fields ← require_fields (get raw "fields")
  tombstone ← require_tombstone (get raw "tombstone")
  tombstone_hlc ← tombstone_clock (get raw "tombstone_hlc")
  hlc ← hlc_of_json (get raw "hlc")
  ok (record {
    collection = collection;
    entity_id = entity_id;
    hlc = hlc;
    fields = fields;
    tombstone = tombstone;
    tombstone_hlc = tombstone_hlc;
  })

unfoldable pub payload_of_json : Option Json → Result PayloadError OpPayload
unfolding payload_of_fields
payload_of_json (some (object raw)) = payload_of_fields raw
payload_of_json raw = err PayloadError.malformed_payload

-- `OpPayload.decode`
unfoldable pub decode_payload : Primitives → Bytes → Result PayloadError OpPayload
unfolding payload_of_json
decode_payload lib payload = payload_of_json (lib.json_loads payload)

unfoldable pub guard_op_class_shape : OpPayload → ℕ → Result PayloadError (Unit {0})
guard_op_class_shape payload op_class =
    if not (op_class == op_class_compaction)
    then raise_if (is_some payload.tombstone_hlc) PayloadError.tombstone_hlc_outside_compaction
    else raise_if (not (all (λ (write : FieldWrite). is_some write.hlc) payload.fields))
        PayloadError.compaction_field_without_hlc
      >> raise_if (payload.tombstone && not (is_some payload.tombstone_hlc))
          PayloadError.compaction_tombstone_without_hlc
