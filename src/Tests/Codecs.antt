-- ===== src/Tests/Codecs.antt =====
-- The envelope codec at small headers and bodies.
use jeeves.Common.{
  ℕ, zero, suc, ◌+◌, ◌-◌, ◌≤◌, ◌<◌, ◌≡◌, ◌⊎◌, ◌↔◌, inl, inr, refl, arith, ok, true, [], ◌∷◌, ◌++◌,
  none, some, Bool, length, take, length-append, take-append,
}
use jeeves.Common.Bytes.{Bytes, AreBytes, codes, zeros}
use jeeves.Envelope.Header.{OpHeader, serialize, parse}
use jeeves.Envelope.Header.RoundTrip.{IsWireHeader, parse-serialize, serialize-parse}
use jeeves.Envelope.Framing.{
  padded_body_length, is_legal_body_length, is_legal_body_length_for_suite, frame_body, parse_body,
}
use jeeves.Envelope.Framing.Sizes.{padded_body_length-least}
use jeeves.Envelope.Framing.RoundTrip.{framed, parse_body-frame_body, framed-parse_body}
use jeeves.Envelope.Wire.{build_envelope, verify_envelope}
use jeeves.Envelope.Wire.Laws.{verify_envelope-build_envelope}
use jeeves.Envelope.Aead.{Cipher, seal_body, open_body, IsAead, open_body-seal_body}
use jeeves.Json.{pos, text, int}
use jeeves.Control.Errors.{Hlc}
use jeeves.OpPayload.{OpPayload, to_json_dict, payload_of_fields}
use jeeves.OpPayload.RoundTrip.{
  IsClock, absent, present, no_writes, write_first, IsWritten, payload_of_fields-to_json_dict,
}
use jeeves.Tests.Samples.{content_header, world, key, signature}

abbrev blank_header : OpHeader
blank_header = record {
  suite = 0;
  op_class = 0;
  workspace_id = 0;
  key_epoch = 0;
  op_id = 0;
  author_member_id = 0;
  author_key_id = zeros 8;
  author_seq = 0;
  prev_author_hash = zeros 32;
  observed_head = zeros 32;
  nonce = zeros 24;
}

zeros-AreBytes : (n : ℕ) → AreBytes (zeros n)
zeros-AreBytes zero = tt
zeros-AreBytes (suc n) = (ground arith, zeros-AreBytes n)

content_header-IsWireHeader : IsWireHeader content_header
content_header-IsWireHeader = record {
  suite = ground arith;
  op_class = ground arith;
  workspace_id = ground arith;
  key_epoch = ground arith;
  op_id = ground arith;
  author_member_id = ground arith;
  author_key_id = refl;
  author_seq = ground arith;
  prev_author_hash = refl;
  observed_head = refl;
  nonce = refl;
}

blank_header_read : parse (zeros 158) ≡ ok blank_header
unfolding parse jeeves.Envelope.Header.header_of_fields jeeves.Envelope.Fields.split_fields
    jeeves.Common.Bytes.from_be
blank_header_read = refl

empty_payload_read : parse_body (zeros 256) ≡ ok []
unfolding parse_body is_legal_body_length jeeves.Common.Bytes.from_be
empty_payload_read = refl

legal_256 : is_legal_body_length 256 ≡ true
unfolding is_legal_body_length
legal_256 = refl

legal_272 : is_legal_body_length_for_suite 1 272 ≡ true
unfolding is_legal_body_length_for_suite
legal_272 = refl

parse-serialize_example :
    (raw : Bytes) × (serialize content_header ≡ ok raw)
    × (length raw ≡ 158)
    × (parse (raw ++ zeros 3) ≡ ok content_header)
parse-serialize_example = parse-serialize content_header (zeros 3) content_header-IsWireHeader

serialize-parse_example :
    IsWireHeader blank_header × (serialize blank_header ≡ ok (take 158 (zeros 158)))
serialize-parse_example =
    serialize-parse (zeros 158) blank_header (zeros-AreBytes 158) blank_header_read

padded_body_length-least_example :
    (is_legal_body_length (padded_body_length 300) ≡ true)
    × (300 ≤ padded_body_length 300)
    × ((m : ℕ) → is_legal_body_length m ≡ true → 300 ≤ m → padded_body_length 300 ≤ m)
padded_body_length-least_example = padded_body_length-least 300

parse_body-frame_body_example :
    (body : Bytes) × (frame_body (codes "hello") ≡ ok body)
    × (length body ≡ padded_body_length (4 + length (codes "hello")))
    × (parse_body body ≡ ok (codes "hello"))
parse_body-frame_body_example = parse_body-frame_body (codes "hello") (ground arith)

framed-parse_body_example :
    (zeros 256 ≡ framed [] (length (zeros 256)))
    × (is_legal_body_length (length (zeros 256)) ≡ true)
framed-parse_body_example = framed-parse_body (zeros 256) [] (zeros-AreBytes 256) empty_payload_read

verify_envelope-build_envelope_example :
    (envelope : Bytes) × (build_envelope (λ message. signature) content_header (zeros 256)
      ≡ ok envelope)
    × (parse envelope ≡ ok content_header)
    × (verify_envelope world envelope key ≡ ok tt)
verify_envelope-build_envelope_example =
    verify_envelope-build_envelope world (λ message. signature) key (zeros 256) content_header
      content_header-IsWireHeader (ground arith) (λ m. refl) (λ m. refl)

-- A cipher that hides nothing, with a tag of zeros.
abbrev pub plain_cipher : Cipher
plain_cipher = record {
  encrypt = λ message ad nonce k. message ++ zeros 16;
  decrypt = λ sealed ad nonce k. some (take (length sealed - 16) sealed);
}

pub plain_cipher-IsAead : IsAead plain_cipher
plain_cipher-IsAead = record {
  opens = λ m ad nonce k.
      rw
        (take-append (length (m ++ zeros 16) - 16) m (zeros 16)
          (omega (arith, length-append m (zeros 16))))
        refl;
  tagged = λ m ad nonce k. length-append m (zeros 16);
}

open_body-seal_body_example :
    (sealed : Bytes) × (seal_body plain_cipher (zeros 158) (zeros 256) key ≡ ok sealed)
    × (is_legal_body_length_for_suite 1 (length sealed) ≡ true)
    × (open_body plain_cipher (zeros 158) sealed key ≡ ok (zeros 256))
open_body-seal_body_example =
    open_body-seal_body plain_cipher (zeros 158) (zeros 256) key plain_cipher-IsAead refl refl
      legal_256

abbrev clock_7 : Hlc
clock_7 = record {
  wall_ms = pos 1700;
  counter = pos 7;
  member_id_hex = "00000000000000000000000000000005";
}

abbrev compacted : OpPayload
compacted = record {
  collection = "tasks";
  entity_id = 0xe9d4afd387e45450bd7d4fc191ff3857;
  hlc = clock_7;
  fields =
      record { name = "title"; value = text "buy milk"; hlc = some clock_7 }
      ∷ record { name = "rank"; value = int (pos 3); hlc = none }
      ∷ [];
  tombstone = true;
  tombstone_hlc = some clock_7;
}

clock_7-IsClock : IsClock clock_7
unfolding jeeves.Text.matches_hex
clock_7-IsClock = record { hex = refl }

compacted-IsWritten : IsWritten compacted
compacted-IsWritten = record {
  named = refl;
  own = clock_7-IsClock;
  writes = write_first (present clock_7-IsClock) (write_first absent no_writes);
  buried = present clock_7-IsClock;
  is_uuid = omega arith;
}

payload_of_fields-to_json_dict_example : payload_of_fields (to_json_dict compacted) ≡ ok compacted
payload_of_fields-to_json_dict_example =
    payload_of_fields-to_json_dict compacted compacted-IsWritten
