-- ===== src/Store.antt =====
-- The contract of crates/dent8-store/src/lib.rs: errors, receipts and filters of a store of events. A call can also
-- panic; `Fault` has both outcomes.
use dent.Prelude.{ℕ, String, Option}
use dent.Model.{FactId, FactEventId, Subject, Predicate, AuthorityLevel}
use dent.State.{TransitionError}
use dent.Replay.{ReplayError}
use dent.Hash.{Bytes}

pub data StoreError : Type 0 where
  conflict : String → StoreError
  unavailable : String → StoreError
  corrupt_event : String → StoreError
  canonicalization : String → StoreError
  rejected : TransitionError → StoreError
  -- the incumbent's level, then the challenger's
  laundered_authority : AuthorityLevel → AuthorityLevel → StoreError
  unbacked_supersession : FactId → StoreError
  -- the predicate, its floor, and the event's level
  below_authority_floor : String → AuthorityLevel → AuthorityLevel → StoreError
  uniqueness_violation : String → StoreError
  -- the predicate, the claimed milliseconds, and the ceiling's
  ttl_ceiling_exceeded : String → ℕ → ℕ → StoreError
  replay : ReplayError → StoreError

pub data Fault : Type 0 where
  fails : StoreError → Fault
  panics : String → Fault

pub record AppendReceipt : Type 0 where
  pub global_sequence : ℕ
  pub event_id : FactEventId
  pub event_hash : Bytes

pub record EventFilter : Type 0 where
  pub fact_id : Option FactId
  pub subject : Option Subject
  pub predicate : Option Predicate
  pub after_sequence : Option ℕ
  pub limit : Option ℕ
