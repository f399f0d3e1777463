-- ===== src/Tests/Databases.antt =====
-- The table of SQLite.
use dent.Prelude.{
  ℕ, some, map, All, ◌⊎◌, ◌+◌, ◌≤◌, suc, ◌≡◌, ◌∙◌, ◌>>=◌, refl, ap, arith, ok, err, List, [], ◌∷◌,
  none, length,
}
use dent.Prelude.Int.{pos}
use dent.Model.{FactEvent}
use dent.Firewall.{arbitrate_events}
use dent.Sqlite.{
  Row, Database, Engine, IsFaithful, group_of, row_of, append_many, append_each_in_tx,
  append_event_in_tx, new_row, validate_touched_policies_in_tx, validate_groups,
}
use dent.Store.{AppendReceipt, Fault, EventFilter}
use dent.Memory.{new, written, InMemoryEventStore}
use dent.Memory.Safety.{IsHealthy, new-IsHealthy}
use dent.Sqlite.Batch.{append_each, brief, append_many-refines, append_many-refuses}
use dent.Sqlite.Groups.{Validated}
use dent.Sqlite.Reserve.{reserves, here, later, reserve_event_ids-disjoint}
use dent.Memory.Invariant.{new-IsSound}
use dent.Sqlite.Mirror.{Mirrors, new_row_lem}
use dent.Sqlite.{
  touched_groups, insert_group, latest_recorded, load_subject_predicate_in_tx, read_rows,
  event_from_json, load_fact_in_tx, load_replacing_in_tx, reserve_event_ids,
  reserve_event_ids_in_tx,
}
use dent.Registry.{validate_unique_projection, check_groups, coding_agent, policy_for, register}
use dent.Subject.{replay_subject, replay_subject_with_policy, fold_streams, group, believed}
use dent.Prelude.Maps.{insert, get, place, contains, replace}
use dent.Replay.{fold_fact, fold_from, replay_fact}
use dent.Policy.{admits}
use dent.Model.{validate, is_blank, ttl_expires_at}
use dent.State.{
  apply_event, apply_initial_event, apply_kind, apply_next_event, apply_valid_event,
  initial_by_kind, initial_state, is_expired_at, raised, record_level, state_expires_at,
}
use dent.Tests.Stores.{seeding, owned, seeded, first_hash, seeded-IsHealthy}
use dent.Tests.Serial.{string_discrete, written_as, read_back, writes}
use dent.Tests.Fixtures.{checksum}
use native.Mathlib.Decide.{ℕ_discrete}

FactEvent-discrete : Discrete FactEvent
FactEvent-discrete = hlevel (ℕ_discrete, string_discrete)

-- An engine that can write one event, and counts its rows from one.
abbrev engine : Engine
engine = record {
  to_json = λ e. written_as "owned" (FactEvent-discrete e owned);
  from_json = λ json. ok owned;
  next_sequence = λ rows. pos (suc (length rows));
}

engine-IsFaithful : IsFaithful engine
engine-IsFaithful = record {
  from_json-to_json = λ e json h. read_back "owned" (FactEvent-discrete e owned) json h;
  next_sequence_positive = λ rows. omega arith;
}

abbrev empty : Database
empty = record { event_log = []; next_value = pos 0 }

abbrev owned_row : Row
owned_row = row_of engine [] owned (first_hash checksum) "owned"

made : new_row engine checksum [] owned ≡ ok owned_row
made =
    new_row_lem engine checksum new [] (new-IsSound checksum) tt owned "owned"
      (writes "owned" (FactEvent-discrete owned owned))
    ∙ ap (λ r. r >>= λ p. ok (row_of engine [] owned p.1.event_hash "owned")) seeding

abbrev receipt : AppendReceipt
receipt = record { global_sequence = 1; event_id = "e1"; event_hash = first_hash checksum }

inserted : append_event_in_tx engine checksum [] owned ≡ (owned_row ∷ [], ok receipt)
unfolding append_event_in_tx
inserted = rw (made, append_event_in_tx)

batched : append_each_in_tx engine checksum [] (owned ∷ []) ≡ (owned_row ∷ [], ok (receipt ∷ []))
unfolding append_each_in_tx
batched = ground (arith, inserted)

abbrev holding : Database
holding = record { event_log = owned_row ∷ []; next_value = pos 0 }

valid : validate_touched_policies_in_tx engine (owned_row ∷ []) (owned ∷ []) ≡ ok tt
unfolding validate_touched_policies_in_tx validate_groups touched_groups insert_group
    latest_recorded load_subject_predicate_in_tx read_rows event_from_json
    validate_unique_projection replay_subject replay_subject_with_policy fold_streams group insert
    get place fold_fact fold_from admits validate is_blank ttl_expires_at contains replace
    check_groups coding_agent policy_for register apply_event apply_initial_event apply_kind
    apply_next_event apply_valid_event initial_by_kind initial_state is_expired_at raised
    record_level state_expires_at believed
valid = refl

committed : append_many engine checksum empty (owned ∷ []) ≡ (holding, ok (receipt ∷ []))
unfolding append_many
committed = ground (arith, batched, valid)

holding-Mirrors : Mirrors engine holding.event_log seeded.log
unfolding written
holding-Mirrors = (
  record {
    event_id = refl;
    fact_id = refl;
    subject_type = refl;
    subject_key = refl;
    predicate = refl;
    event_hash = refl;
    json = refl;
  },
  tt,
)

append_many-refines_example :
    (u : InMemoryEventStore) × (rs : List AppendReceipt) × (append_each checksum new (owned ∷ [])
      ≡ ok (u, rs))
    × (map brief (receipt ∷ []) ≡ map brief rs)
    × IsHealthy checksum u
    × Mirrors engine holding.event_log u.log
    × All (λ e. Validated engine holding.event_log (owned ∷ []) (group_of e)) (owned ∷ [])
append_many-refines_example =
    append_many-refines engine checksum new empty holding (owned ∷ []) (receipt ∷ [])
      engine-IsFaithful (new-IsHealthy checksum) tt
      (("owned", writes "owned" (FactEvent-discrete owned owned)), tt) committed

-- The same assertion again.
refused : (x : Fault) × (append_many engine checksum holding (owned ∷ []) ≡ (holding, err x))
unfolding append_many append_each_in_tx append_event_in_tx new_row load_fact_in_tx read_rows
    event_from_json load_replacing_in_tx arbitrate_events replay_fact fold_from apply_event
    apply_valid_event apply_initial_event initial_by_kind initial_state validate admits contains
    apply_next_event apply_kind
refused = (_, refl)

append_many-refuses_example :
    (holding ≡ holding)
    × ((append_each checksum seeded (owned ∷ []) ≡ err refused.0)
        ⊎ ((u : InMemoryEventStore) × (rs : List AppendReceipt) × (rows : List Row) × (append_each
                checksum seeded
                (owned ∷ [])
              ≡ ok (u, rs))
            × Mirrors engine rows u.log
            × (validate_touched_policies_in_tx engine rows (owned ∷ []) ≡ err refused.0)))
append_many-refuses_example =
    append_many-refuses engine checksum seeded holding holding (owned ∷ []) refused.0
      engine-IsFaithful seeded-IsHealthy holding-Mirrors
      (("owned", writes "owned" (FactEvent-discrete owned owned)), tt) refused.1

abbrev everything : EventFilter
everything = record {
  fact_id = none;
  subject = none;
  predicate = none;
  after_sequence = none;
  limit = some 5;
}

abbrev advanced : ℕ → Database
advanced n = record { event_log = owned_row ∷ []; next_value = pos n }

reserved : reserve_event_ids holding 3 ≡ (advanced 3, ok 0)
unfolding reserve_event_ids reserve_event_ids_in_tx
reserved = refl

reserved_again : reserve_event_ids (advanced 5) 2 ≡ (advanced 7, ok 5)
unfolding reserve_event_ids reserve_event_ids_in_tx
reserved_again = refl

reserved_between : reserve_event_ids (advanced 3) 2 ≡ (advanced 5, ok 3)
unfolding reserve_event_ids reserve_event_ids_in_tx
reserved_between = refl

reserve_event_ids-disjoint_example : 0 + 3 ≤ 5
reserve_event_ids-disjoint_example =
    reserve_event_ids-disjoint engine checksum holding (advanced 3) (advanced 5) (advanced 7) 3 0 2
      5 reserved (later here (reserves _ _ 2 _ reserved_between)) reserved_again
