-- ===== src/Sqlite/Reads.antt =====
-- The reads of crates/dent8-store-sqlite/src/lib.rs against those of crates/dent8-store/src/memory.rs.
use dent.Prelude.{
  ◌∙◌, sym, Bool-cases, ℕ, zero, suc, String, some, eq_iff, Bool, true, ◌≡◌, refl, none, List, [],
  ◌∷◌, map, arith, keep, take, ok, Option, inl, inr, ap, ◌==◌, ◌&&◌,
}
use dent.Model.{subject_eq, FactId}
use dent.Hash.{Bytes, Codec}
use dent.Store.{EventFilter}
use dent.Memory
use dent.Memory.{
  StoredEvent, InMemoryEventStore, all_events, hashes_match, passes, take_limit, is_none_or,
}
use dent.Memory.Invariant.{IsSound, hashes, load_fact_events-stream, verify_chain_of_sound}
use dent.Sqlite
use dent.Sqlite.{Row, Database, Engine, read_rows, event_from_json, hashes_eq, selects}
use dent.Sqlite.Mirror.{Holds, Mirrors, head_hash-last, load_fact_in_tx-stream}

str_eq-sym : (a b : String) → (a == b) ≡ (b == a)
str_eq-sym a b = ground (arith, eq_iff a b, eq_iff b a)

is_none_or-same :
    {A : Type 0} (o : Option A) (p q : A → Bool)
    → ((a : A) → p a ≡ q a)
    → is_none_or o p ≡ is_none_or o q
is_none_or-same none p q h = refl
is_none_or-same (some a) p q h = h a

module _ (k : Engine) where
  read_rows_lem :
      (rows : List Row) (log : List StoredEvent)
      → Mirrors k rows log
      → read_rows k rows ≡ ok (map (λ st. st.event) log)
  unfolding read_rows event_from_json
  read_rows_lem [] [] m = refl
  read_rows_lem [] (s ∷ log) m = absurd m
  read_rows_lem (r ∷ rows) [] m = absurd m
  read_rows_lem (r ∷ rows) (s ∷ log) m = ground (arith, read_rows_lem rows log m.1, m.0.json)

  -- A selection keeps the rows beside the events.
  keep-Mirrors :
      (p : Row → Bool) (q : StoredEvent → Bool) (rows : List Row) (log : List StoredEvent)
      → ((row : Row) (st : StoredEvent) → Holds k row st → p row ≡ q st)
      → Mirrors k rows log
      → Mirrors k (keep p rows) (keep q log)
  keep-Mirrors p q [] [] same m = tt
  keep-Mirrors p q [] (s ∷ log) same m = absurd m
  keep-Mirrors p q (r ∷ rows) [] same m = absurd m
  keep-Mirrors p q (r ∷ rows) (s ∷ log) same m = elim (Bool-cases (q s)) [
    | inl yes' ↦ rw (same r s m.0, yes') (m.0, keep-Mirrors p q rows log same m.1)
    | inr no' ↦ rw (same r s m.0, no') (keep-Mirrors p q rows log same m.1)
  ]

  take-Mirrors :
      (n : ℕ) (rows : List Row) (log : List StoredEvent)
      → Mirrors k rows log
      → Mirrors k (take n rows) (take n log)
  take-Mirrors zero rows log m = tt
  take-Mirrors (suc n) [] [] m = tt
  take-Mirrors (suc n) [] (s ∷ log) m = absurd m
  take-Mirrors (suc n) (r ∷ rows) [] m = absurd m
  take-Mirrors (suc n) (r ∷ rows) (s ∷ log) m = (m.0, take-Mirrors n rows log m.1)

  take_limit-Mirrors :
      (limit : Option ℕ) (rows : List Row) (log : List StoredEvent)
      → Mirrors k rows log
      → Mirrors k (take_limit limit rows) (take_limit limit log)
  take_limit-Mirrors none rows log m = m
  take_limit-Mirrors (some n) rows log m = take-Mirrors n rows log m

  selects-passes :
      (filter : EventFilter) (row : Row) (st : StoredEvent)
      → filter.after_sequence ≡ none
      → Holds k row st
      → selects filter row ≡ passes filter st
  selects-passes filter row st a h = rw (
    a,
    is_none_or-same filter.fact_id (λ id. row.fact_id == id) (λ id. id == st.event.fact_id)
        (λ id. rw h.fact_id (str_eq-sym st.event.fact_id id)),
    is_none_or-same filter.subject (λ s. row.subject_type == s.kind && row.subject_key == s.key)
        (λ s. subject_eq s st.event.subject)
        (λ s. rw (
          h.subject_type,
          h.subject_key,
          str_eq-sym st.event.subject.kind s.kind,
          str_eq-sym st.event.subject.key s.key,
        )),
    is_none_or-same filter.predicate (λ p. row.predicate == p) (λ p. p == st.event.predicate)
        (λ p. rw h.predicate (str_eq-sym st.event.predicate p)),
  )

map-take :
    (n : ℕ) (log : List StoredEvent)
    → map (λ st. st.event) (take n log) ≡ take n (map (λ st. st.event) log)
map-take zero log = refl
map-take (suc n) [] = refl
map-take (suc n) (st ∷ log) = ground (arith, map-take n log)

map-take_limit :
    (limit : Option ℕ) (log : List StoredEvent)
    → map (λ st. st.event) (take_limit limit log) ≡ take_limit limit (map (λ st. st.event) log)
map-take_limit none log = refl
map-take_limit (some n) log = map-take n log

hashes_eq-match :
    (xs : List Bytes) (log : List StoredEvent) → hashes_eq xs (hashes log) ≡ hashes_match xs log
unfolding hashes_match
hashes_eq-match [] [] = refl
hashes_eq-match [] (s ∷ log) = refl
hashes_eq-match (x ∷ xs) [] = refl
hashes_eq-match (x ∷ xs) (s ∷ log) = ground (arith, hashes_eq-match xs log)

module _ (k : Engine) (c : Codec) (s : InMemoryEventStore) (db : Database) (v : IsSound c s)
    (m : Mirrors k db.event_log s.log) where
  verify_chain_lem : Sqlite.verify_chain k c db ≡ ok (Memory.verify_chain c s)
  unfolding Sqlite.verify_chain Memory.verify_chain
  verify_chain_lem = rw (
    read_rows_lem k db.event_log s.log m,
    v.chained,
    head_hash-last k db.event_log s.log m,
    hashes_eq-match (hashes s.log) s.log,
    Memory.verify_chain,
  )

  scan_events_lem :
      (filter : EventFilter)
      → filter.after_sequence ≡ none
      → Sqlite.scan_events k db filter ≡ Memory.scan_events s filter
  unfolding Sqlite.scan_events Memory.scan_events
  scan_events_lem filter a =
      let kept =
        keep-Mirrors k (selects filter) (passes filter) db.event_log s.log
          (λ row st h. selects-passes k filter row st a h) m in
      read_rows_lem k _ _ (take_limit-Mirrors k filter.limit _ _ kept)
      ∙ ap (λ l. ok l) (map-take_limit filter.limit (keep (passes filter) s.log))

  -- A table that holds the log of a sound store answers as the store does: for a fact's events, for a scan with no
  -- sequence to start after, and for the check of the chain, which holds.
  pub reads_agree :
      (f : FactId) (filter : EventFilter)
      → filter.after_sequence ≡ none
      → (Sqlite.load_fact_events k db f ≡ Memory.load_fact_events s f)
        × (Sqlite.scan_events k db filter ≡ Memory.scan_events s filter)
        × (Sqlite.verify_chain k c db ≡ ok (Memory.verify_chain c s))
        × (Memory.verify_chain c s ≡ true)
  unfolding Sqlite.load_fact_events Sqlite.load_fact_in_tx
  reads_agree f filter a = (
    load_fact_in_tx-stream k db.event_log s.log f m ∙ sym (load_fact_events-stream c s f v),
    scan_events_lem filter a,
    verify_chain_lem,
    verify_chain_of_sound c s v,
  )
