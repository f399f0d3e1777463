-- ===== src/Memory.antt =====
-- `InMemoryEventStore` of crates/dent8-store/src/memory.rs. A call that fails leaves the store as it was, so an
-- operation answers with the new store only where it succeeds. Positions in the log are below 2 ^ 64.
pub mod Index
pub mod Invariant
pub mod Safety
pub mod Standing
use dent.Prelude.{
  ℕ, suc, String, Bool, true, false, ◌&&◌, Option, none, some, List, [], ◌∷◌, ◌++◌, map, ltb, ◌==◌,
  if◌then◌else◌, is_some_and, unwrap_or, length, get_elem?, take, keep, all, Result, ok, err,
  map_err, ◌>>=◌, ◌>>◌,
}
use Prim.Native.String.{◌++◌ as concat}
use dent.Prelude.Maps.{Map, Set, Key, string_key, get, insert, contains, include}
use dent.Model.{FactId, FactEvent, FactEventKind, superseded, Subject, subject_eq}
use dent.Hash.{
  Bytes, bytes_eq, Codec, CanonError, serialize, invalid_previous_hash, event_hash, hash_chain,
}
use dent.Store.{
  StoreError, conflict, canonicalization, Fault, fails, panics, AppendReceipt, EventFilter,
}
use dent.Firewall.{arbitrate_events}

pub record StoredEvent : Type 0 where
  pub global_sequence : ℕ
  pub event : FactEvent
  pub event_hash : Bytes

pub record InMemoryEventStore : Type 0 where
  pub log : List StoredEvent
  pub by_fact : Map FactId (List ℕ)
  pub event_ids : Set String
  pub last_hash : Option Bytes

abbrev pub new : InMemoryEventStore
new = record { log = []; by_fact = []; event_ids = []; last_hash = none }

-- The text of a `CanonError`, as far as the model keeps it.
abbrev pub canon_message : CanonError → String
canon_message (serialize message) = message
canon_message (invalid_previous_hash value) = "previous hash is not a 64-char hex digest"

-- `self.log[index].event` for each index; an index out of range panics.
unfoldable pub events_at : List StoredEvent → List ℕ → Result Fault (List FactEvent)
events_at log [] = ok []
events_at log (i ∷ indices) =
    let rest = events_at log indices in
    elim (get_elem? log i) [
      | none ↦ err (panics "index out of bounds")
      | some stored ↦ do events ← rest; ok (stored.event ∷ events)
    ]

unfoldable pub load_fact_events : InMemoryEventStore → FactId → Result Fault (List FactEvent)
load_fact_events store fact_id = events_at store.log (unwrap_or (get fact_id store.by_fact) [])

abbrev pub all_events : InMemoryEventStore → List FactEvent
all_events store = map (λ stored. stored.event) store.log

-- `is_none_or`
abbrev pub is_none_or {ℓ} : {A : Type ℓ} → Option A → (A → Bool) → Bool
is_none_or none p = true
is_none_or (some a) p = p a

abbrev pub passes : EventFilter → StoredEvent → Bool
passes filter stored =
    is_none_or filter.fact_id (λ c. c == stored.event.fact_id)
    && is_none_or filter.subject (λ s. subject_eq s stored.event.subject)
    && is_none_or filter.predicate (λ p. p == stored.event.predicate)
    && is_none_or filter.after_sequence (λ seq. ltb seq stored.global_sequence)

-- `.take(limit)`, where no limit is `usize::MAX`.
abbrev pub take_limit {ℓ} : {A : Type ℓ} → Option ℕ → List A → List A
take_limit none xs = xs
take_limit (some n) xs = take n xs

unfoldable pub scan_events : InMemoryEventStore → EventFilter → Result Fault (List FactEvent)
scan_events store filter =
    ok (take_limit filter.limit (map (λ stored. stored.event) (keep (passes filter) store.log)))

-- The stream of the fact that a supersession names.
unfoldable pub load_replacing :
    InMemoryEventStore → FactEventKind → Result Fault (Option (List FactEvent))
load_replacing store (superseded by reason) = do
  events ← load_fact_events store by
  ok (some events)
load_replacing store kind = ok none

-- `arbitrate` of crates/dent8-store/src/firewall.rs, on this store.
unfoldable pub arbitrate : InMemoryEventStore → FactEvent → Result Fault (Unit {0})
arbitrate store candidate = do
  existing ← load_fact_events store candidate.fact_id
  replacing ← load_replacing store candidate.kind
  arbitrate_events candidate existing replacing

abbrev pub receipt_of : InMemoryEventStore → FactEvent → Bytes → AppendReceipt
receipt_of store event hash = record {
  global_sequence = length store.log;
  event_id = event.event_id;
  event_hash = hash;
}

-- The store with the event behind its log, indexed, and its hash as the head.
unfoldable pub written : InMemoryEventStore → FactEvent → Bytes → InMemoryEventStore
written store event hash = record {
  log =
      store.log
      ++ record { global_sequence = length store.log; event = event; event_hash = hash } ∷ [];
  by_fact =
      insert event.fact_id (unwrap_or (get event.fact_id store.by_fact) [] ++ length store.log ∷ [])
        store.by_fact;
  event_ids = include event.event_id store.event_ids;
  last_hash = some hash;
}

-- `recomputed.iter().zip(&self.log).all(…)` behind the test of the lengths.
unfoldable pub hashes_match : List Bytes → List StoredEvent → Bool
hashes_match [] [] = true
hashes_match (hash ∷ hashes) (stored ∷ log) =
    bytes_eq hash stored.event_hash && hashes_match hashes log
hashes_match _ _ = false

module _ (c : Codec) where
  unfoldable pub persist :
      InMemoryEventStore → FactEvent → Result Fault (InMemoryEventStore × AppendReceipt)
  persist store event =
      if contains event.event_id store.event_ids
      then err (fails (conflict (concat "duplicate event_id " event.event_id)))
      else do
        hash ←
            map_err (λ e. fails (canonicalization (canon_message e)))
              (event_hash c event store.last_hash)
        ok (written store event hash, receipt_of store event hash)

  unfoldable pub append :
      InMemoryEventStore → FactEvent → Result Fault (InMemoryEventStore × AppendReceipt)
  append store event = arbitrate store event >> persist store event

  -- `from_trusted_events`, from the store that the loop has reached.
  unfoldable pub persist_all : InMemoryEventStore → List FactEvent → Result Fault InMemoryEventStore
  persist_all store [] = ok store
  persist_all store (event ∷ events) = do
    (next, receipt) ← persist store event
    persist_all next events

  unfoldable pub from_trusted_events : List FactEvent → Result Fault InMemoryEventStore
  from_trusted_events events = persist_all new events

  unfoldable pub verify_chain : InMemoryEventStore → Bool
  verify_chain store = elim (hash_chain c (all_events store)) [
    | ok recomputed ↦ hashes_match recomputed store.log
    | err _ ↦ false
  ]
