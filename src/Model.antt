-- ===== src/Model.antt =====
-- crates/dent8-core/src/ids.rs and model.rs: the names, levels, lifetimes and events that everything else reads.
mod Ids
mod Level
mod Lifetime
mod Event
unfoldable pub use Ids.*
unfoldable pub use Level.*
unfoldable pub use Lifetime.*
unfoldable pub use Event.*
