-- ===== src/Sqlite/Batch.antt =====
-- `append_many` of crates/dent8-store-sqlite/src/lib.rs against the store of crates/dent8-store/src/memory.rs.
use dent.Prelude.{
  ℕ, String, ◌≡◌, refl, sym, ap, ◌⊎◌, inl, inr, List, [], ◌∷◌, ◌++◌, map, arith, All, Result, ok,
  err, ◌>>=◌, Result-cases,
}
use dent.Prelude.Int.{ℤ, pos, ◌<ℤ◌}
use dent.Model.{FactEvent, FactEventId}
use dent.Hash.{Bytes, Codec}
use dent.Store.{Fault, AppendReceipt}
use dent.Memory.{InMemoryEventStore, append, written}
use dent.Memory.Invariant.{IsSound, persist-Wrote}
use dent.Memory.Safety.{IsHealthy, append-IsHealthy, append-Appended}
use dent.Sqlite.{
  Row, Database, Engine, IsFaithful, row_of, sequence_of, append_event_in_tx, append_each_in_tx,
  append_many, group_of, validate_touched_policies_in_tx,
}
use dent.Sqlite.Mirror.{Mirrors, Mirrors-append, new_row_lem}
use dent.Sqlite.Groups.{Validated, touched_policies-Validated}

-- What a receipt says beside the sequence number, which the databases count in their own ways.
abbrev pub brief : AppendReceipt → FactEventId × Bytes
brief r = (r.event_id, r.event_hash)

-- serde_json can write the event.
abbrev pub IsWritable : Engine → FactEvent → Type 0
IsWritable k e = (json : String) × (k.to_json e ≡ ok json)

module _ (c : Codec) where
  -- The events of a batch through the store in memory, one after the other.
  unfoldable pub append_each :
      InMemoryEventStore → List FactEvent → Result Fault (InMemoryEventStore × List AppendReceipt)
  append_each s [] = ok (s, [])
  append_each s (e ∷ es) = do (t, r) ← append c s e; (u, rs) ← append_each t es; ok (u, r ∷ rs)

sequence_of_positive : (z : ℤ) → pos 0 <ℤ z → (n : ℕ) × (sequence_of z ≡ ok n)
sequence_of_positive (pos n) h = (n, refl)
sequence_of_positive (ℤ.negsuc n) h = absurd (omega arith)

module _ (k : Engine) (f : IsFaithful k) (c : Codec) where
  step_refused :
      (s : InMemoryEventStore) (rows : List Row) (e : FactEvent) (x : Fault)
      → IsSound c s
      → Mirrors k rows s.log
      → IsWritable k e
      → append c s e ≡ err x
      → append_event_in_tx k c rows e ≡ (rows, err x)
  unfolding append_event_in_tx
  step_refused s rows e x v m w h = rw (new_row_lem k c s rows v m e w.0 w.1, h, append_event_in_tx)

  step_written :
      (s t : InMemoryEventStore) (rows : List Row) (e : FactEvent) (r : AppendReceipt)
      → IsSound c s
      → Mirrors k rows s.log
      → IsWritable k e
      → append c s e ≡ ok (t, r)
      → (grown : List Row) × (q : AppendReceipt) × (append_event_in_tx k c rows e ≡ (grown, ok q))
        × Mirrors k grown t.log
        × (brief q ≡ brief r)
  unfolding append_event_in_tx written
  step_written s t rows e r v m w h =
      let done = persist-Wrote c s t e r (append-Appended c s t e r h).wrote in
      let row = row_of k rows e r.event_hash w.0 in
      let numbered = sequence_of_positive (k.next_sequence rows) (f.next_sequence_positive rows) in
      (
        rows ++ row ∷ [],
        record { global_sequence = numbered.0; event_id = e.event_id; event_hash = r.event_hash },
        rw (new_row_lem k c s rows v m e w.0 w.1, h, append_event_in_tx, numbered.1),
        rw done.store (
            Mirrors-append k rows s.log row _ m (record {
              event_id = refl;
              fact_id = refl;
              subject_type = refl;
              subject_key = refl;
              predicate = refl;
              event_hash = ap (λ q. q.event_hash) done.receipt;
              json = f.from_json-to_json e w.0 w.1;
            })),
        ap (λ q. (q.event_id, r.event_hash)) (sym done.receipt),
      )

  batch_refused :
      (s : InMemoryEventStore) (rows : List Row) (es : List FactEvent) (x : Fault)
      → IsHealthy c s
      → Mirrors k rows s.log
      → All (IsWritable k) es
      → append_each c s es ≡ err x
      → (append_each_in_tx k c rows es).1 ≡ err x
  unfolding append_each append_each_in_tx
  batch_refused s rows [] x v m w h = absurd (ground arith)
  batch_refused s rows (e ∷ es) x v m w h = elim (Result-cases (append c s e)) [
    | inr (y, bad) ↦
        rw (step_refused s rows e y v.sound m w.0 bad, append_each_in_tx) (ground arith)
    | inl ((t, r), good) ↦
        let (grown, q, made, mirror, same) = step_written s t rows e r v.sound m w.0 good in
        elim (Result-cases (append_each c t es)) [
          | inl (p, rest) ↦ absurd (ground arith)
          | inr (y, rest) ↦
              let later =
                batch_refused t grown es y (append-IsHealthy c s t e r v good) mirror w.1 rest in
              ground (arith, later, made)
        ]
  ]

  batch_written :
      (s u : InMemoryEventStore) (rows : List Row) (es : List FactEvent) (rs : List AppendReceipt)
      → IsHealthy c s
      → Mirrors k rows s.log
      → All (IsWritable k) es
      → append_each c s es ≡ ok (u, rs)
      → (full : List Row) × (qs : List AppendReceipt) × (append_each_in_tx k c rows es
          ≡ (full, ok qs))
        × Mirrors k full u.log
        × IsHealthy c u
        × (map brief qs ≡ map brief rs)
  unfolding append_each append_each_in_tx
  batch_written s u rows [] rs v m w h =
      let same : s ≡ u = ground arith in
      (rows, [], refl, rw (← same) m, rw (← same) v, ground arith)
  batch_written s u rows (e ∷ es) rs v m w h = elim (Result-cases (append c s e)) [
    | inr (y, bad) ↦ absurd (ground arith)
    | inl ((t, r), good) ↦
        let (grown, q, made, mirror, same) = step_written s t rows e r v.sound m w.0 good in
        elim (Result-cases (append_each c t es)) [
          | inr (y, rest) ↦ absurd (ground arith)
          | inl ((last, rest), appended) ↦
              let ends : append_each c t es ≡ ok (u, rest) = ground arith in
              let (full, qs, followed, mirrors, healthy, briefs) =
                batch_written t u grown es rest (append-IsHealthy c s t e r v good) mirror w.1
                  ends in
              (full, q ∷ qs, ground arith, mirrors, healthy, ground arith)
        ]
  ]

-- A batch that SQLite refuses leaves the database as it was, and the store in memory refuses it with the same error or
-- takes it and the batch does not pass the policies of the groups that it touched. Its table holds the log of that
-- store, which is healthy, and each event can be written as JSON.
pub append_many-refuses :
    (k : Engine) (c : Codec) (s : InMemoryEventStore) (db next : Database) (es : List FactEvent)
    (x : Fault)
    → IsFaithful k
    → IsHealthy c s
    → Mirrors k db.event_log s.log
    → All (IsWritable k) es
    → append_many k c db es ≡ (next, err x)
    → (next ≡ db)
      × ((append_each c s es ≡ err x)
          ⊎ ((u : InMemoryEventStore) × (rs : List AppendReceipt) × (rows : List Row) × (append_each
                  c s es
                ≡ ok (u, rs))
              × Mirrors k rows u.log
              × (validate_touched_policies_in_tx k rows es ≡ err x)))
unfolding append_many
append_many-refuses k c s db next es x f v m w h = elim (Result-cases (append_each c s es)) [
  | inr (y, bad) ↦
      let refused = batch_refused k f c s db.event_log es y v m w bad in
      (ground arith, inl (ground arith))
  | inl ((u, rs), good) ↦
      let (rows, qs, followed, mirrors, healthy, briefs) =
        batch_written k f c s u db.event_log es rs v m w good in
      elim (Result-cases (validate_touched_policies_in_tx k rows es)) [
        | inl (tt, passed) ↦ absurd (ground arith)
        | inr (y, failed) ↦
            (ground arith, inr (u, rs, rows, good, mirrors, rw failed (ground arith)))
      ]
]

-- A batch that SQLite takes is one that the store in memory takes, event by event, with receipts of the same ids and
-- hashes; its table then holds the log of that store, which is healthy, and each group that the batch touched has
-- passed its policies, as of the latest time at which the batch's events in it were recorded. Its table held the log of a healthy store before,
-- and each event can be written as JSON.
pub append_many-refines :
    (k : Engine) (c : Codec) (s : InMemoryEventStore) (db next : Database) (es : List FactEvent)
    (qs : List AppendReceipt)
    → IsFaithful k
    → IsHealthy c s
    → Mirrors k db.event_log s.log
    → All (IsWritable k) es
    → append_many k c db es ≡ (next, ok qs)
    → (u : InMemoryEventStore) × (rs : List AppendReceipt) × (append_each c s es ≡ ok (u, rs))
      × (map brief qs ≡ map brief rs)
      × IsHealthy c u
      × Mirrors k next.event_log u.log
      × All (λ e. Validated k next.event_log es (group_of e)) es
unfolding append_many
append_many-refines k c s db next es qs f v m w h = elim (Result-cases (append_each c s es)) [
  | inr (y, bad) ↦
      let refused = batch_refused k f c s db.event_log es y v m w bad in absurd (ground arith)
  | inl ((u, rs), good) ↦
      let (rows, made, followed, mirrors, healthy, briefs) =
        batch_written k f c s u db.event_log es rs v m w good in
      elim (Result-cases (validate_touched_policies_in_tx k rows es)) [
        | inr (y, failed) ↦ absurd (ground arith)
        | inl (tt, passed) ↦
            let full : rows ≡ next.event_log = ground arith in
            (
              u,
              rs,
              good,
              ground arith,
              healthy,
              rw (← full) mirrors,
              rw (← full) (touched_policies-Validated k rows es passed),
            )
      ]
]
