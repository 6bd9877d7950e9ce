-- ===== src/Lib.antt =====
-- The Minimal Sync Server of Jeeves: the Python code of backend/app/sync, and what it uses of
-- backend/app/auth and backend/app/redis.py. Devices post signed envelopes to an append-only log and
-- pull them back; the server reads a 158-byte header, and the bodies of control and prune ops only.
-- Beside the log it keeps the wraps of the keys that ops are sealed under, the wrapped Root of each
-- User, the registry of Members with their tokens, and the sockets that tell of news.
--
-- The parts of the log, in the order in which a POST meets them:
--
--   Envelope: envelope.py. `OpHeader`, `parse` and `serialize` in Envelope/Header, the padded bodies
--   (`frame_body`, `parse_body`) in Envelope/Framing, `build_envelope`, `split_envelope`,
--   `verify_envelope` and `check_served` in Envelope/Wire, `seal_body` and `open_body` in
--   Envelope/Aead. A byte is a number below 256, a UUID its 128-bit integer.
--   Control: control_payload.py. The decoders with their errors as values, the certificates, the
--   signing inputs under their domains. Prune: prune_payload.py. Ids: ids.py.
--   Store: the tables of models.py, a list of rows each, and the structured errors. Grants: the
--   `_GrantIndex` of routes.py and the role matrix.
--   Authorize: `_verify_and_authorize` of routes.py. Authorize/Certs and Authorize/Prunes hold the
--   checks, Authorize/Walk the loop over the batch with its state as a record, and Authorize/Step
--   the ways in which one turn of it goes well, as an indexed data type.
--   Log: `_append_batch` and the query of `pull_ops`. It takes two states of the database, the one
--   that is read and the one that is committed by the time of the INSERTs, since another request
--   may write in between; the unique constraints are `violates`. Pull: the handler `pull_ops`.
--   Materialise: `_materialise_control` and `_materialise_prunes`. Post: `post_ops`, with its retry
--   and `_resolve_commit_conflict`; `Interleaving` holds the states that one request meets.
--
-- The parts beside the log:
--
--   Keys: key_wraps.py. Keys/Hkdf is the loop of HKDF, Keys/Wrapping the wraps of an epoch key for a
--   Member and for the escrow, Keys/Digest the commitment that a rotate op carries (its sort is in
--   Keys/Sorting). Keys/Upload is `put_keywraps` of routes.py; its commit with the conflict there, the
--   handler, `get_my_keywraps` and `get_epoch_keys` are in Keys/Upload/Handler.
--   Escrow: escrow.py and the routes on it. `put_recovery_escrow` is in Escrow, the audited and
--   limited `get_recovery_escrow` in Escrow/Fetches.
--   Auth: the two kinds of token and who they stand for (auth/tokens.py, auth/dependencies.py).
--   Auth/Sessions holds the routes of auth/routes.py, Auth/Members the registry of Members in
--   routes.py, Auth/Challenge member_auth.py and the two routes that exchange a signature for a token.
--   OpPayload: op_payload.py, the content payloads that the clients exchange and the server never
--   reads: the dict that is written, the decoder, the shape of a compaction.
--   Redis: the counter of redis.py that the challenge and the escrow limit themselves with.
--   Hub: signal_hub.py, the dict of subscriptions as an association list and an object as its
--   identity. Hub/Calls has the calls on it, and what is promised of them without the dict.
--   Hub/Socket: the handshake of `signal_socket`, and `_pump_signals` as a step relation
--   on one socket, where `Own` are the steps of the endpoint and `Other` those of the hub and the peer.
--
--   Common, Text, Json, Codes: lists, bytes, results with an error, Python's patterns and UUID texts
--   (Text/Digits and Text/Uuids are about what is printed), JSON values, machine codes.
--
-- PyNaCl, hashlib, base64, json and uuid5 are a parameter, the record `Primitives` of Crypto; the
-- AEAD cipher is the record `Cipher` of Envelope/Aead, HMAC and X25519 are in `WrapPrimitives` of
-- Keys/Wrapping, PyJWT and the hash of passwords in `AuthPrimitives` of Auth, and a Redis server is
-- the record `Redis` over a type of its states. The time and what is drawn at random are arguments.
-- Loops are structural recursion on a list, so no fuel is needed, but for HKDF: its `while` is
-- fuelled with 256, one turn more than the 255 blocks that its guard on the length lets it run to,
-- and Keys/Hkdf shows that this is enough. Numbers are unbounded, as Python's are, and the widths of
-- the wire format are written out.
--
-- A handler that other requests may run beside takes the state that it reads and the state that its
-- statements meet at the commit: so do the append, the upload of wraps and the PUT of the escrow.
--
-- Rows of a table stand in order of insertion, and a primary key stands for at most one row. The
-- timestamps that nothing reads are left out. The autoflush of the session is not modelled: a
-- constraint of an index table shows at the commit. Not modelled are the encoders of control and
-- prune payloads, which the server never runs, sign-in with Solana, the migrations, the generator of
-- test vectors, the frames and timers of a socket, start-up and configuration.
pub mod Common
pub mod Codes
pub mod Text
pub mod Json
pub mod Crypto
pub mod Envelope
pub mod Store
pub mod Ids
pub mod Grants
pub mod Prune
pub mod Log
pub mod Control
pub mod Redis
pub mod OpPayload
pub mod Keys
pub mod Escrow
pub mod Auth
pub mod Hub
pub mod Authorize
pub mod Materialise
pub mod Post
pub mod Pull
pub mod Tests
