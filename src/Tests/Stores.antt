-- ===== src/Tests/Stores.antt =====
-- The store in memory.
use dent.Prelude.{◌≡◌, ◌≢◌, refl, true, none, some, List, [], ◌∷◌, arith, ok, err}
use dent.Prelude.Maps.{get, insert, place, contains}
use dent.Model.{FactEvent, low, medium, high, validate, text, superseded, newer_observation}
use dent.State.{
  FactState, initial_state, apply_event, apply_valid_event, apply_initial_event, initial_by_kind,
}
use dent.Policy.{admits}
use dent.Replay.{replay_fact, fold_from}
use dent.Replay.Poison.{Stands}
use dent.Hash.{Bytes, Codec, event_hash, canonical_bytes, decode_previous, hash_leaf}
use dent.Store.{panics}
use dent.Firewall.{arbitrate_events, check_backing}
use dent.Memory.{
  InMemoryEventStore, new, append, arbitrate, persist, written, receipt_of, load_fact_events,
  load_replacing, events_at, from_trusted_events, persist_all, verify_chain, all_events,
}
use dent.Memory.Index.{stream}
use dent.Memory.Invariant.{load_fact_events-stream, from_trusted_events_verifies}
use dent.Memory.Safety.{IsHealthy, new-IsHealthy, append-IsHealthy, append-ne-panics}
use dent.Memory.Standing.{run, weak_writes_move_nothing}
use dent.Prelude.Int.{pos}
use dent.Receipts.{IntegrityReceipt, explain, explain_with, explain_at, receipt_for}
use dent.Receipts.Grounded.{IsGrounded, explain-IsGrounded}
use dent.Tests.Fixtures.{event, assertion, checksum}

abbrev pub owned : FactEvent
owned = assertion "e1" "fact:A" "source:owner" high

abbrev owned_state : FactState
unfolding initial_state
owned_state = initial_state owned (text "postgres")

abbrev pub first_hash : Codec → Bytes
first_hash c = hash_leaf c (3 ∷ 1 ∷ []) none

abbrev pub seeded : InMemoryEventStore
unfolding written
seeded = written new owned (first_hash checksum)

pub seeding : append checksum new owned ≡ ok (seeded, receipt_of new owned (first_hash checksum))
unfolding append arbitrate load_fact_events load_replacing events_at arbitrate_events check_backing
    replay_fact fold_from admits contains apply_event apply_valid_event apply_initial_event
    initial_by_kind initial_state validate persist event_hash canonical_bytes decode_previous
    checksum written
seeding = refl

pub seeded-IsHealthy : IsHealthy checksum seeded
seeded-IsHealthy =
    append-IsHealthy checksum new seeded owned (receipt_of new owned (first_hash checksum))
      (new-IsHealthy checksum) seeding

append-IsHealthy_example : IsHealthy checksum seeded
append-IsHealthy_example =
    append-IsHealthy checksum new seeded owned (receipt_of new owned (first_hash checksum))
      (new-IsHealthy checksum) seeding

append-ne-panics_example :
    append checksum seeded (assertion "e2" "fact:B" "source:web" low)
    ≢ err (panics "index out of bounds")
append-ne-panics_example =
    append-ne-panics checksum seeded (assertion "e2" "fact:B" "source:web" low)
      "index out of bounds" seeded-IsHealthy.sound

load_fact_events-stream_example : load_fact_events seeded "fact:A" ≡ ok (stream "fact:A" seeded.log)
load_fact_events-stream_example =
    load_fact_events-stream checksum seeded "fact:A" seeded-IsHealthy.sound

loading : from_trusted_events checksum (owned ∷ []) ≡ ok seeded
unfolding from_trusted_events persist_all contains persist event_hash canonical_bytes
    decode_previous checksum written
loading = refl

from_trusted_events_verifies_example :
    (all_events seeded ≡ owned ∷ []) × (verify_chain checksum seeded ≡ true)
from_trusted_events_verifies_example =
    from_trusted_events_verifies checksum seeded (owned ∷ []) loading

explained : (r : IntegrityReceipt) × (explain checksum seeded "fact:A" (pos 5) ≡ ok (some r))
unfolding explain explain_with explain_at receipt_for seeded get insert place events_at replay_fact
    fold_from apply_event apply_valid_event apply_initial_event initial_by_kind initial_state
    validate admits contains
explained = (_, refl)

explain-IsGrounded_example : IsGrounded checksum seeded "fact:A" (pos 5) explained.0
explain-IsGrounded_example =
    explain-IsGrounded checksum seeded "fact:A" (pos 5) explained.0 seeded-IsHealthy.sound
      explained.1

-- A correction and a duplicate, both of low authority.
abbrev attack : List FactEvent
attack =
    event "e2" "fact:A" (superseded "fact:A" newer_observation) none "source:web" low
    ∷ assertion "e1" "fact:B" "source:web" low
    ∷ []

held : load_fact_events seeded "fact:A" ≡ ok (owned ∷ [])
unfolding load_fact_events events_at get seeded insert place
held = refl

believed : replay_fact (owned ∷ []) ≡ ok (some owned_state)
unfolding replay_fact fold_from apply_event apply_valid_event apply_initial_event initial_by_kind
    initial_state validate admits contains
believed = refl

weak_writes_move_nothing_example :
    (ys : List FactEvent) × (d : FactState) × (load_fact_events
        (run checksum seeded attack)
        "fact:A"
      ≡ ok ys)
    × (replay_fact ys ≡ ok (some d))
    × Stands medium owned_state d
unfolding owned_state
weak_writes_move_nothing_example =
    weak_writes_move_nothing checksum medium seeded attack "fact:A" (owned ∷ []) owned_state
      seeded-IsHealthy held believed (omega arith) refl (omega arith, (omega arith, tt))
