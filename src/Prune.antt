-- ===== src/Prune.antt =====
-- backend/app/sync/prune_payload.py: the decoder of a prune's payload and its three shape rules.
use jeeves.Common.{
  ℕ, suc, Bool, true, false, ◌&&◌, ◌||◌, List, [], ◌∷◌, Option, some, String, ◌==◌, ltb, length,
  any, if◌then◌else◌, Result, ok, err, ◌>>=◌, ◌>>◌, raise_if, or_raise,
}
use jeeves.Common.Bytes.{Bytes}
use jeeves.Codes.{Code}
use jeeves.Crypto.{Primitives}
use jeeves.Json.{Json, pos, Items, Fields, nil, cons, text, int, array, object, get}
use jeeves.Text.{matches_canonical_uuid, matches_hex, from_hex, uuid_of_text}
use jeeves.Store.{HttpError, number, unprocessable}

-- `uncaught` is a `ValueError` of `uuid.UUID` that no handler catches.
pub data PruneError : Type 0 where
  malformed_prune_payload prune_targets_empty prune_duplicate_target : PruneError
  prune_targets_too_many uncaught : PruneError

unfoldable pub prune_refusal : ℕ → PruneError → HttpError
prune_refusal index PruneError.malformed_prune_payload =
    unprocessable Code.malformed_prune_payload (number "index" index ∷ [])
prune_refusal index PruneError.prune_targets_empty =
    unprocessable Code.prune_targets_empty (number "index" index ∷ [])
prune_refusal index PruneError.prune_duplicate_target =
    unprocessable Code.prune_duplicate_target (number "index" index ∷ [])
prune_refusal index PruneError.prune_targets_too_many =
    unprocessable Code.prune_targets_too_many (number "index" index ∷ [])
prune_refusal index PruneError.uncaught = record {
  status = 500;
  code = Code.internal_error;
  detail = [];
}

abbrev malformed : PruneError
malformed = PruneError.malformed_prune_payload

abbrev pub max_prune_targets : ℕ
max_prune_targets = 1000

pub record PruneTarget : Type 0 where
  pub seq : ℕ
  pub author_member_id : ℕ
  pub author_seq : ℕ
  pub envelope_hash : Bytes

pub record PrunePayload : Type 0 where
  pub compaction_op_id : ℕ
  pub targets : List PruneTarget

-- A positive int that is no bool.
unfoldable pub require_positive : Json → Result PruneError ℕ
require_positive (int (pos (suc n))) = ok (suc n)
require_positive raw = err malformed

unfoldable pub require_uuid_text : Json → Result PruneError String
require_uuid_text (text s) = if matches_canonical_uuid s then ok s else err malformed
require_uuid_text raw = err malformed

unfoldable pub require_hash_text : Json → Result PruneError String
require_hash_text (text s) = if matches_hex 64 s then ok s else err malformed
require_hash_text raw = err malformed

-- `PruneTarget.from_json`
unfoldable pub target_of_fields : Fields → Result PruneError PruneTarget
target_of_fields raw = do
  seq ← require_positive (get raw "seq")
  author_member_id ← require_uuid_text (get raw "author_member_id")
  author_seq ← require_positive (get raw "author_seq")
  hash ← require_hash_text (get raw "envelope_hash")
  author ← or_raise (uuid_of_text author_member_id) PruneError.uncaught
  ok (record {
    seq = seq;
    author_member_id = author;
    author_seq = author_seq;
    envelope_hash = from_hex hash;
  })

unfoldable pub target_of_json : Json → Result PruneError PruneTarget
unfolding target_of_fields
target_of_json (object raw) = target_of_fields raw
target_of_json raw = err malformed

unfoldable pub targets_of_items : Items → Result PruneError (List PruneTarget)
targets_of_items nil = ok []
targets_of_items (cons raw rest) = do
  target ← target_of_json raw
  targets ← targets_of_items rest
  ok (target ∷ targets)

unfoldable pub targets_of_json : Json → Result PruneError (List PruneTarget)
unfolding targets_of_items
targets_of_json (array items) = targets_of_items items
targets_of_json raw = err malformed

-- `len({...}) != len(targets)`: two entries share a key.
unfoldable pub names_seq : PruneTarget → PruneTarget → Bool
names_seq t u = t.seq == u.seq

unfoldable pub names_position : PruneTarget → PruneTarget → Bool
names_position t u = t.author_member_id == u.author_member_id && t.author_seq == u.author_seq

unfoldable pub repeats : (PruneTarget → PruneTarget → Bool) → List PruneTarget → Bool
repeats same [] = false
repeats same (t ∷ ts) = any (same t) ts || repeats same ts

abbrev no_targets : List PruneTarget → Bool
no_targets [] = true
no_targets (t ∷ ts) = false

unfoldable pub require_prune_shape : List PruneTarget → Result PruneError (Unit {0})
require_prune_shape targets = do
  raise_if (no_targets targets) PruneError.prune_targets_empty
  raise_if (ltb max_prune_targets (length targets)) PruneError.prune_targets_too_many
  raise_if (repeats names_seq targets) PruneError.prune_duplicate_target
  raise_if (repeats names_position targets) PruneError.prune_duplicate_target

unfoldable pub require_prune_object : Option Json → Result PruneError Fields
require_prune_object (some (object raw)) = ok raw
require_prune_object raw = err malformed

-- `PrunePayload.decode`
unfoldable pub decode_prune : Primitives → Bytes → Result PruneError PrunePayload
decode_prune lib payload = do
  raw ← require_prune_object (lib.json_loads payload)
  compaction ← require_prune_object (some (get raw "compaction"))
  op_id ← require_uuid_text (get compaction "op_id")
  targets ← targets_of_json (get raw "targets")
  require_prune_shape targets
  compaction_op_id ← or_raise (uuid_of_text op_id) PruneError.uncaught
  ok (record { compaction_op_id = compaction_op_id; targets = targets })
