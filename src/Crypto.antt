-- ===== src/Crypto.antt =====
-- The primitives that backend/app/sync takes from PyNaCl, hashlib, base64, json and uuid. The
-- models are stated over any such functions; a theorem names what it asks of them.
use jeeves.Common.{ℕ, Option, String}
use jeeves.Common.Bytes.{Bytes}
use jeeves.Json.{Json}

-- How `VerifyKey(public_key).verify(message, signature)` ends: it returns, it raises
-- `BadSignatureError`, or it raises `ValueError` for a key or signature of the wrong shape.
pub data Verdict : Type 0 where
  verified bad_signature value_error : Verdict

pub record Primitives : Type 0 where
  -- `hashlib.sha256(data).digest()`
  pub sha256 : Bytes → Bytes
  -- the key, the message, the signature
  pub ed25519_verify : Bytes → Bytes → Bytes → Verdict
  -- `base64.b64decode(value, validate=True)`, where `none` is `binascii.Error` or `ValueError`
  pub b64decode : String → Option Bytes
  -- `json.loads(payload.decode("utf-8"))`, where `none` is one of the two errors that are caught
  pub json_loads : Bytes → Option Json
  -- `uuid.uuid5(namespace, name)`, as an integer
  pub uuid5 : ℕ → String → ℕ
