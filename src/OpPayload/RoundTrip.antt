-- ===== src/OpPayload/RoundTrip.antt =====
-- Writing a content payload and reading it back.
use jeeves.Common.{
  ℕ, ◌<◌, ◌^◌, ◌≡◌, refl, Bool, true, false, List, [], ◌∷◌, Option, none, some, String, str_eq, ok,
}
use jeeves.Json.{Json, text, end, field, get, object}
use jeeves.Text.{matches_hex, matches_canonical_uuid, uuid_of_text, uuid_text}
use jeeves.Text.Uuids.{matches_canonical_uuid-uuid_text, uuid_of_text-uuid_text}
use jeeves.Control.Errors.{Hlc}
use jeeves.OpPayload.{
  OpPayload, FieldWrite, checked_hlc, hlc_of_json, hlc_to_json, clock_field, fields_json,
  to_json_dict, entry_at, clock_of, field_write, field_writes, require_collection,
  require_entity_id, require_fields, require_tombstone, tombstone_clock, payload_of_fields,
  tombstone_field,
}

-- What `Hlc.__post_init__` sees to.
pub record IsClock (hlc : Hlc) : Type 0 where
  pub hex : matches_hex 32 hlc.member_id_hex ≡ true

pub data IsOptional : Option Hlc → Type 0 where
  absent : IsOptional none
  present : {hlc : Hlc} → IsClock hlc → IsOptional (some hlc)

pub data AreWrites : List FieldWrite → Type 0 where
  no_writes : AreWrites []
  write_first :
      {write : FieldWrite} {writes : List FieldWrite}
      → IsOptional write.hlc
      → AreWrites writes
      → AreWrites (write ∷ writes)

hlc_of_json-hlc_to_json : (hlc : Hlc) → IsClock hlc → hlc_of_json (hlc_to_json hlc) ≡ ok hlc
unfolding hlc_of_json hlc_to_json checked_hlc
hlc_of_json-hlc_to_json hlc clock = rw (clock.hex) refl

clock_of-clock_field :
    (value : Json) (hlc : Option Hlc)
    → IsOptional hlc
    → clock_of (entry_at (field "v" value (clock_field "hlc" hlc end)) "hlc") ≡ ok hlc
unfolding entry_at clock_of clock_field
clock_of-clock_field value none own = refl
clock_of-clock_field value (some hlc) (present clock) = rw (hlc_of_json-hlc_to_json hlc clock) refl

field_writes-fields_json :
    (writes : List FieldWrite) → AreWrites writes → field_writes (fields_json writes) ≡ ok writes
unfolding field_writes fields_json field_write
field_writes-fields_json [] no_writes = refl
field_writes-fields_json (write ∷ writes) (write_first own rest) =
    rw (clock_of-clock_field write.value write.hlc own)
      (rw (field_writes-fields_json writes rest) refl)

-- A payload whose collection has a name, whose clocks are checked, and whose id is a UUID.
pub record IsWritten (payload : OpPayload) : Type 0 where
  pub named : str_eq payload.collection "" ≡ false
  pub own : IsClock payload.hlc
  pub writes : AreWrites payload.fields
  pub buried : IsOptional payload.tombstone_hlc
  pub is_uuid : payload.entity_id < 2 ^ 128

-- What `to_json_dict` may leave out, read back.
require_tombstone-tail :
    (b : Bool) (hlc : Option Hlc)
    → require_tombstone (get (tombstone_field b (clock_field "tombstone_hlc" hlc end)) "tombstone")
      ≡ ok b
unfolding require_tombstone get clock_field
require_tombstone-tail false none = refl
require_tombstone-tail false (some hlc) = refl
require_tombstone-tail true hlc = refl

tombstone_clock-tail :
    (b : Bool) (hlc : Option Hlc)
    → IsOptional hlc
    → tombstone_clock
        (get (tombstone_field b (clock_field "tombstone_hlc" hlc end)) "tombstone_hlc")
      ≡ ok hlc
unfolding tombstone_clock get clock_field
tombstone_clock-tail false none own = refl
tombstone_clock-tail true none own = refl
tombstone_clock-tail false (some hlc) (present clock) = rw (hlc_of_json-hlc_to_json hlc clock) refl
tombstone_clock-tail true (some hlc) (present clock) = rw (hlc_of_json-hlc_to_json hlc clock) refl

require_collection-text : (s : String) → str_eq s "" ≡ false → require_collection (text s) ≡ ok s
unfolding require_collection
require_collection-text s named = rw named refl

require_entity_id-uuid_text :
    (id : ℕ)
    → matches_canonical_uuid (uuid_text id) ≡ true
    → uuid_of_text (uuid_text id) ≡ some id
    → require_entity_id (text (uuid_text id)) ≡ ok id
unfolding require_entity_id
require_entity_id-uuid_text id matches reads = rw matches (rw reads refl)

require_fields-fields_json :
    (writes : List FieldWrite)
    → AreWrites writes
    → require_fields (object (fields_json writes)) ≡ ok writes
unfolding require_fields
require_fields-fields_json writes own = field_writes-fields_json writes own

-- The dict that a payload is written as reads back as the payload, where its collection has a
-- name, each clock names 32 hex digits, and its id is a UUID.
pub payload_of_fields-to_json_dict :
    (payload : OpPayload)
    → IsWritten payload
    → payload_of_fields (to_json_dict payload) ≡ ok payload
unfolding payload_of_fields to_json_dict get
payload_of_fields-to_json_dict payload h = rw (require_collection-text payload.collection h.named) (
    rw
      (require_entity_id-uuid_text payload.entity_id
        (matches_canonical_uuid-uuid_text payload.entity_id)
        (uuid_of_text-uuid_text payload.entity_id h.is_uuid))
      (rw (require_fields-fields_json payload.fields h.writes) (
        rw (require_tombstone-tail payload.tombstone payload.tombstone_hlc) (
          rw (tombstone_clock-tail payload.tombstone payload.tombstone_hlc h.buried)
            (rw (hlc_of_json-hlc_to_json payload.hlc h.own) refl)))))
