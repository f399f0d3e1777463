-- ===== src/State.antt =====
-- crates/dent8-core/src/state.rs: the projected state of one fact, and the event that moves it.
mod Lifecycle
mod Defs
mod Apply
pub mod Inversion
pub mod Admission
pub mod Frame
pub mod Entrenchment
pub mod Freshness
pub use Lifecycle.{FactLifecycle}
unfoldable pub use Lifecycle.{is_terminal, lifecycle_eq}
unfoldable pub use Defs.*
unfoldable pub use Apply.*
