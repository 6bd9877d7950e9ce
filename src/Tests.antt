-- ===== src/Tests.antt =====
-- Concrete inputs, and the theorems at them.
pub mod Samples
pub mod Codecs
pub mod Authority
pub mod Batches
pub mod Requests
pub mod Keys
pub mod Accounts
pub mod Signals
