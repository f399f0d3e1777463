-- ===== src/Hash.antt =====
-- crates/dent8-core/src/hash.rs: the canonical bytes of an event, its hash, and the chain of hashes. Texts of
-- digests are lists of bytes.
mod Words
mod Crates
mod Chain
pub mod Framing
pub mod Tamper
pub mod Growth
unfoldable pub use Words.*
unfoldable pub use Crates.*
unfoldable pub use Chain.*
