-- ===== src/Authorize.antt =====
-- `_verify_and_authorize` of backend/app/sync/routes.py and the checks it makes of each op.
pub mod Certs
pub mod Prunes
pub mod Walk
pub mod Step
pub mod Signers
pub mod Ceilings
pub mod Admission
pub mod Epochs
pub mod Replays
