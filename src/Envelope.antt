-- ===== src/Envelope.antt =====
-- backend/app/sync/envelope.py: the v1 op envelope codec. Here its constants, its exceptions and
-- the header; the children hold the header's bytes, the body framing, and the whole envelope.
mod Consts
mod Errors
pub mod Fields
pub mod Header
pub mod Framing
pub mod Wire
pub mod Aead
pub use Consts.*
pub use Errors.{EnvelopeError, PackError, value_error, struct_error}
unfoldable pub use Errors.{reason}
