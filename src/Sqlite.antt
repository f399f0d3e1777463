-- ===== src/Sqlite.antt =====
-- The store of crates/dent8-store-sqlite/src/lib.rs: a table of rows, in the order of their sequence numbers, and the
-- row of the allocator of event ids. A transaction answers with the table that it leaves; a rollback puts the old one
-- back. Statements do not fail: what a busy database answers is left out.
pub mod Mirror
pub mod Groups
pub mod Batch
pub mod Reads
pub mod Reserve
use dent.Prelude.{
  ℕ, zero, String, Bool, true, false, ◌≡◌, ◌&&◌, ◌||◌, Option, none, some, List, [], ◌∷◌, ◌++◌, map,
  ◌==◌, if◌then◌else◌, unwrap_or, keep, any, last, Result, ok, err, map_err, map_ok, ◌>>=◌, ◌>>◌,
  nat_eq,
}
use Prim.Native.String.{◌++◌ as concat, compare}
use text.Mathlib.Text.{is_lt}
use dent.Prelude.Int.{ℤ, pos, negsuc, ◌+ℤ◌, ◌<ℤ◌, ltb_ℤ, leb_ℤ, i64_max, i64_try_from}
use dent.Model.{FactId, FactEvent, FactEventKind, superseded, TimestampMillis}
use dent.Hash.{Bytes, bytes_eq, Codec, event_hash, hash_chain}
use dent.Store.{
  conflict, unavailable, corrupt_event, canonicalization, Fault, fails, panics, AppendReceipt,
  EventFilter,
}
use dent.Firewall.{arbitrate_events}
use dent.Memory.{canon_message, is_none_or, take_limit}
use dent.Registry.{coding_agent, validate_unique_projection}

pub record Row : Type 0 where
  pub global_sequence : ℤ
  pub event_id : String
  pub fact_id : String
  pub subject_type : String
  pub subject_key : String
  pub predicate : String
  pub previous_event_hash : Option Bytes
  pub event_hash : Bytes
  pub event_json : String

pub record Database : Type 0 where
  pub event_log : List Row
  pub next_value : ℤ

-- serde_json's text of an event, and the number that SQLite gives to the next row of an AUTOINCREMENT key.
pub record Engine : Type 0 where
  pub to_json : FactEvent → Result String String
  pub from_json : String → Result String FactEvent
  pub next_sequence : List Row → ℤ

-- Reading undoes writing, and a new key is positive.
pub record IsFaithful (k : Engine) : Type 0 where
  pub from_json-to_json :
      (e : FactEvent) (json : String) → k.to_json e ≡ ok json → k.from_json json ≡ ok e
  pub next_sequence_positive : (rows : List Row) → pos 0 <ℤ k.next_sequence rows

-- `subject_type`, `subject_key` and `predicate`.
abbrev pub Group : Type 0
Group = String × String × String

abbrev pub group_of : FactEvent → Group
group_of event = (event.subject.kind, event.subject.key, event.predicate)

abbrev pub group_eq : Group → Group → Bool
group_eq (a, b, c) (x, y, z) = a == x && b == y && c == z

abbrev pub group_less : Group → Group → Bool
group_less (a, b, c) (x, y, z) =
    is_lt (compare a x)
    || (a == x && is_lt (compare b y))
    || (a == x && b == y && is_lt (compare c z))

-- A `BTreeSet` of groups: in order, each once.
unfoldable pub insert_group : Group → List Group → List Group
insert_group g [] = g ∷ []
insert_group g (h ∷ hs) =
    let rest = insert_group g hs in
    if group_eq g h then h ∷ hs else if group_less g h then g ∷ h ∷ hs else h ∷ rest

unfoldable pub touched_groups : List FactEvent → List Group → List Group
touched_groups [] touched = touched
touched_groups (event ∷ events) touched =
    touched_groups events (insert_group (group_of event) touched)

abbrev pub max_ℤ : ℤ → ℤ → ℤ
max_ℤ a b = if leb_ℤ a b then b else a

-- `Iterator::max` of the times at which events were recorded.
unfoldable pub latest_recorded : List FactEvent → Option TimestampMillis
latest_recorded [] = none
latest_recorded (event ∷ events) = elim (latest_recorded events) [
  | none ↦ some event.provenance.recorded_at
  | some later ↦ some (max_ℤ event.provenance.recorded_at later)
]

abbrev pub in_group : Group → FactEvent → Bool
in_group (subject_type, subject_key, predicate) event =
    event.subject.kind == subject_type
    && event.subject.key == subject_key
    && event.predicate == predicate

abbrev pub row_in_group : Group → Row → Bool
row_in_group (subject_type, subject_key, predicate) row =
    row.subject_type == subject_type && row.subject_key == subject_key && row.predicate == predicate

-- The hash of the row with the greatest sequence number.
abbrev pub head_hash : List Row → Option Bytes
head_hash rows = last (map (λ row. row.event_hash) rows)

abbrev pub is_duplicate : String → List Row → Bool
is_duplicate id rows = any (λ row. row.event_id == id) rows

abbrev pub check_duplicate : String → List Row → Result Fault (Unit {0})
check_duplicate id rows =
    if is_duplicate id rows then err (fails (conflict (concat "duplicate event_id " id))) else ok tt

-- `i64::try_from(seq).unwrap_or(i64::MAX)`
abbrev pub after_of : ℕ → ℤ
after_of seq = unwrap_or (i64_try_from seq) (pos i64_max)

-- The clauses of the WHERE of `scan_events`.
abbrev pub selects : EventFilter → Row → Bool
selects filter row =
    is_none_or filter.fact_id (λ id. row.fact_id == id)
    && is_none_or filter.subject (λ s. row.subject_type == s.kind && row.subject_key == s.key)
    && is_none_or filter.predicate (λ p. row.predicate == p)
    && is_none_or filter.after_sequence (λ seq. ltb_ℤ (after_of seq) row.global_sequence)

abbrev pub hashes_eq : List Bytes → List Bytes → Bool
hashes_eq [] [] = true
hashes_eq (x ∷ xs) (y ∷ ys) = bytes_eq x y && hashes_eq xs ys
hashes_eq _ _ = false

abbrev pub sequence_of : ℤ → Result Fault ℕ
sequence_of (pos n) = ok n
sequence_of (negsuc n) = err (fails (corrupt_event "non-positive global_sequence"))

abbrev pub receipt_of_row : Row → Result Fault AppendReceipt
receipt_of_row row = do
  global_sequence ← sequence_of row.global_sequence
  ok (record {
    global_sequence = global_sequence;
    event_id = row.event_id;
    event_hash = row.event_hash;
  })

abbrev pub allocated : ℤ → Result Fault ℕ
allocated (pos n) = ok n
allocated (negsuc n) = err (fails (corrupt_event "negative event-id allocator"))

-- The old value is the first of the reserved ids, and the row moves past the last.
unfoldable pub reserve_event_ids_in_tx : ℤ → ℕ → ℤ × Result Fault ℕ
reserve_event_ids_in_tx next_value count = (next_value +ℤ pos count, allocated next_value)

-- COMMIT where the reservation succeeded, ROLLBACK where it did not.
abbrev pub commit_reservation : Database → ℤ × Result Fault ℕ → Database × Result Fault ℕ
commit_reservation db (next, ok start) = (record db { next_value = next }, ok start)
commit_reservation db (next, err e) = (db, err e)

unfoldable pub reserve_event_ids : Database → ℕ → Database × Result Fault ℕ
reserve_event_ids db count =
    if nat_eq count 0
    then (db, err (fails (unavailable "cannot reserve zero event ids")))
    else commit_reservation db (reserve_event_ids_in_tx db.next_value count)

module _ (k : Engine) where
  unfoldable pub event_from_json : String → Result Fault FactEvent
  event_from_json value = map_err (λ e. fails (corrupt_event e)) (k.from_json value)

  -- `rows.iter().map(|json| event_from_json(json)).collect()`
  unfoldable pub read_rows : List Row → Result Fault (List FactEvent)
  read_rows [] = ok []
  read_rows (row ∷ rows) = do
    event ← event_from_json row.event_json
    events ← read_rows rows
    ok (event ∷ events)

  unfoldable pub load_fact_in_tx : List Row → FactId → Result Fault (List FactEvent)
  load_fact_in_tx rows fact_id = read_rows (keep (λ row. row.fact_id == fact_id) rows)

  unfoldable pub load_subject_predicate_in_tx : List Row → Group → Result Fault (List FactEvent)
  load_subject_predicate_in_tx rows group = read_rows (keep (row_in_group group) rows)

  unfoldable pub load_fact_events : Database → FactId → Result Fault (List FactEvent)
  load_fact_events db fact_id = read_rows (keep (λ row. row.fact_id == fact_id) db.event_log)

  unfoldable pub scan_events : Database → EventFilter → Result Fault (List FactEvent)
  scan_events db filter = read_rows (take_limit filter.limit (keep (selects filter) db.event_log))

  unfoldable pub load_replacing_in_tx :
      List Row → FactEventKind → Result Fault (Option (List FactEvent))
  load_replacing_in_tx rows (superseded by reason) = do
    events ← load_fact_in_tx rows by
    ok (some events)
  load_replacing_in_tx rows kind = ok none

  -- The groups that the batch touched, each as it is with the batch in the table.
  unfoldable pub validate_groups : List Row → List FactEvent → List Group → Result Fault (Unit {0})
  validate_groups rows events [] = ok tt
  validate_groups rows events (group ∷ groups) =
      let rest = validate_groups rows events groups in
      elim (latest_recorded (keep (in_group group) events)) [
        | none ↦ err (panics "touched group has at least one event")
        | some now ↦ do
          subject_events ← load_subject_predicate_in_tx rows group
          validate_unique_projection coding_agent subject_events now
          rest
      ]

  unfoldable pub validate_touched_policies_in_tx :
      List Row → List FactEvent → Result Fault (Unit {0})
  validate_touched_policies_in_tx rows events =
      validate_groups rows events (touched_groups events [])

  -- What the INSERT writes.
  abbrev pub row_of : List Row → FactEvent → Bytes → String → Row
  row_of rows event hash event_json = record {
    global_sequence = k.next_sequence rows;
    event_id = event.event_id;
    fact_id = event.fact_id;
    subject_type = event.subject.kind;
    subject_key = event.subject.key;
    predicate = event.predicate;
    previous_event_hash = head_hash rows;
    event_hash = hash;
    event_json = event_json;
  }

  module _ (c : Codec) where
    -- `append_event_in_tx` up to its INSERT: the row that it inserts.
    unfoldable pub new_row : List Row → FactEvent → Result Fault Row
    new_row rows event = do
      existing ← load_fact_in_tx rows event.fact_id
      replacing ← load_replacing_in_tx rows event.kind
      arbitrate_events event existing replacing
      check_duplicate event.event_id rows
      hash ←
          map_err (λ e. fails (canonicalization (canon_message e)))
            (event_hash c event (head_hash rows))
      event_json ← map_err (λ e. fails (canonicalization e)) (k.to_json event)
      ok (row_of rows event hash event_json)

    unfoldable pub append_event_in_tx : List Row → FactEvent → List Row × Result Fault AppendReceipt
    append_event_in_tx rows event = elim (new_row rows event) [
      | err e ↦ (rows, err e)
      | ok row ↦ (rows ++ row ∷ [], receipt_of_row row)
    ]

    -- The loop of `append_many`, which stops at the first error.
    unfoldable pub append_each_in_tx :
        List Row → List FactEvent → List Row × Result Fault (List AppendReceipt)
    append_each_in_tx rows [] = (rows, ok [])
    append_each_in_tx rows (event ∷ events) =
        let first = append_event_in_tx rows event in
        let rest = append_each_in_tx first.0 events in
        elim first.1 [
          | err e ↦ (first.0, err e)
          | ok receipt ↦ (rest.0, map_ok (λ receipts. receipt ∷ receipts) rest.1)
        ]

    unfoldable pub append_many :
        Database → List FactEvent → Database × Result Fault (List AppendReceipt)
    append_many db events =
        let written = append_each_in_tx db.event_log events in
        elim written.1 [
          | err e ↦ (db, err e)
          | ok receipts ↦ elim (validate_touched_policies_in_tx written.0 events) [
            | err e ↦ (db, err e)
            | ok _ ↦ (record db { event_log = written.0 }, ok receipts)
          ]
        ]

    -- `verify_chain`, which fails where a row cannot be read or hashed.
    unfoldable pub verify_chain : Database → Result Fault Bool
    verify_chain db = do
      events ← read_rows db.event_log
      recomputed ← map_err (λ e. fails (canonicalization (canon_message e))) (hash_chain c events)
      ok (hashes_eq recomputed (map (λ row. row.event_hash) db.event_log))
