-- ===== src/State/Lifecycle.antt =====
-- The `FactLifecycle` of crates/dent8-core/src/state.rs.
use dent.Prelude.{Bool, true, false}

pub data FactLifecycle : Type 0 where
  active contested superseded expired retracted : FactLifecycle

abbrev pub is_terminal : FactLifecycle → Bool
is_terminal superseded = true
is_terminal expired = true
is_terminal retracted = true
is_terminal _ = false

-- The derived `PartialEq`.
abbrev pub lifecycle_eq : FactLifecycle → FactLifecycle → Bool
lifecycle_eq active active = true
lifecycle_eq contested contested = true
lifecycle_eq superseded superseded = true
lifecycle_eq expired expired = true
lifecycle_eq retracted retracted = true
lifecycle_eq _ _ = false
