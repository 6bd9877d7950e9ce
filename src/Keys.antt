-- ===== src/Keys.antt =====
-- backend/app/sync/key_wraps.py and the key plane of backend/app/sync/routes.py: how the key of an
-- epoch reaches a Member, and the commitment to the whole set of wraps.
pub mod Consts
pub mod Hkdf
pub mod Wrapping
pub mod Upload
pub mod Sorting
pub mod Digest
