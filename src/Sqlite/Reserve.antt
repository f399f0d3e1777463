-- ===== src/Sqlite/Reserve.antt =====
-- The allocator of event ids of crates/dent8-store-sqlite/src/lib.rs, over any run of transactions.
use dent.Prelude.{ℕ, ◌+◌, ◌≤◌, ◌≡◌, List, arith, Result, ok}
use dent.Prelude.Int.{pos, ◌≤ℤ◌}
use dent.Model.{FactEvent}
use dent.Hash.{Codec}
use dent.Store.{Fault, AppendReceipt}
use dent.Sqlite.{Database, Engine, reserve_event_ids, reserve_event_ids_in_tx, append_many}

-- One transaction, whatever comes of it.
pub data Step (k : Engine) (c : Codec) : Database → Database → Type 0 where
  reserves :
      (db next : Database) (count : ℕ) (result : Result Fault ℕ)
      → reserve_event_ids db count ≡ (next, result)
      → Step k c db next
  appends :
      (db next : Database) (events : List FactEvent) (result : Result Fault (List AppendReceipt))
      → append_many k c db events ≡ (next, result)
      → Step k c db next

pub data Reach (k : Engine) (c : Codec) (db : Database) : Database → Type 0 where
  here : Reach k c db db
  later : {next last : Database} → Reach k c db next → Step k c next last → Reach k c db last

reserve_moves :
    (db next : Database) (count start : ℕ)
    → reserve_event_ids db count ≡ (next, ok start)
    → (db.next_value ≡ pos start) × (next.next_value ≡ pos (start + count))
unfolding reserve_event_ids reserve_event_ids_in_tx
reserve_moves db next count start h = ground arith

reserve_grows :
    (db next : Database) (count : ℕ) (result : Result Fault ℕ)
    → reserve_event_ids db count ≡ (next, result)
    → db.next_value ≤ℤ next.next_value
unfolding reserve_event_ids reserve_event_ids_in_tx
reserve_grows db next count result h = ground arith

append_many-keeps_ids :
    (k : Engine) (c : Codec) (db next : Database) (es : List FactEvent)
    (result : Result Fault (List AppendReceipt))
    → append_many k c db es ≡ (next, result)
    → next.next_value ≡ db.next_value
unfolding append_many
append_many-keeps_ids k c db next es result h = ground arith

Step-grows :
    {k : Engine} {c : Codec} {db next : Database}
    → Step k c db next
    → db.next_value ≤ℤ next.next_value
Step-grows (reserves db next count result h) = reserve_grows db next count result h
Step-grows {k} {c} (appends db next es result h) =
    rw (append_many-keeps_ids k c db next es result h) (omega arith)

Reach-grows :
    {k : Engine} {c : Codec} {db last : Database}
    → Reach k c db last
    → db.next_value ≤ℤ last.next_value
Reach-grows here = omega arith
Reach-grows (later r st) = omega (arith, Reach-grows r, Step-grows st)

-- The ids that two reservations hand out do not overlap, whatever transactions ran between them.
pub reserve_event_ids-disjoint :
    (k : Engine) (c : Codec) (db next last after : Database) (count start more start' : ℕ)
    → reserve_event_ids db count ≡ (next, ok start)
    → Reach k c next last
    → reserve_event_ids last more ≡ (after, ok start')
    → start + count ≤ start'
reserve_event_ids-disjoint k c db next last after count start more start' a r b = ground (
  arith,
  reserve_moves db next count start a,
  Reach-grows r,
  reserve_moves last after more start' b,
)
