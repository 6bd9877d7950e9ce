-- ===== src/Control.antt =====
-- backend/app/sync/control_payload.py: the payload of a control op and the certificates in it.
pub mod Errors
pub mod Certificates
pub mod Payload
pub mod Signatures
pub mod Laws
