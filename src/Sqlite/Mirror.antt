-- ===== src/Sqlite/Mirror.antt =====
-- The table of crates/dent8-store-sqlite/src/lib.rs against the store of crates/dent8-store/src/memory.rs: a table that
-- holds the log of a store loads, refuses and chains as the store does.
use dent.Prelude.{
  String, Bool, ◌≡◌, refl, sym, ap, ◌∙◌, List, [], ◌∷◌, ◌++◌, map, arith, ◌==◌, keep, last, ok,
  ◌>>=◌,
}
use dent.Prelude.Maps.{contains, string_key}
use dent.Model.{FactId, FactEvent, FactEventKind, superseded}
use dent.Hash.{Codec}
use dent.Memory.{StoredEvent, InMemoryEventStore, load_replacing, arbitrate, persist, append}
use dent.Memory.Index.{stream}
use dent.Memory.Invariant.{IsSound, hashes, has_id, load_fact_events-stream}
use dent.Sqlite.{
  Row, Engine, event_from_json, read_rows, load_fact_in_tx, load_replacing_in_tx, head_hash,
  is_duplicate, new_row, row_of,
}

-- A row that holds an event of a log, with its hash.
pub record Holds (k : Engine) (row : Row) (st : StoredEvent) : Type 0 where
  pub event_id : row.event_id ≡ st.event.event_id
  pub fact_id : row.fact_id ≡ st.event.fact_id
  pub subject_type : row.subject_type ≡ st.event.subject.kind
  pub subject_key : row.subject_key ≡ st.event.subject.key
  pub predicate : row.predicate ≡ st.event.predicate
  pub event_hash : row.event_hash ≡ st.event_hash
  pub json : k.from_json row.event_json ≡ ok st.event

-- The rows hold the log, in order.
abbrev pub Mirrors : Engine → List Row → List StoredEvent → Type 0
Mirrors k [] [] = Unit
Mirrors k (row ∷ rows) (st ∷ log) = Holds k row st × Mirrors k rows log
Mirrors k _ _ = ⊥

module _ (k : Engine) where
  pub Mirrors-append :
      (rows : List Row) (log : List StoredEvent) (row : Row) (st : StoredEvent)
      → Mirrors k rows log
      → Holds k row st
      → Mirrors k (rows ++ row ∷ []) (log ++ st ∷ [])
  Mirrors-append [] [] row st m h = (h, tt)
  Mirrors-append (r ∷ rows) (s ∷ log) row st m h = (m.0, Mirrors-append rows log row st m.1 h)
  Mirrors-append [] (s ∷ log) row st m h = absurd m
  Mirrors-append (r ∷ rows) [] row st m h = absurd m

  -- A query reads the events that its test selects.
  pub read_rows-keep :
      (p : Row → Bool) (q : StoredEvent → Bool) (rows : List Row) (log : List StoredEvent)
      → ((row : Row) (st : StoredEvent) → Holds k row st → p row ≡ q st)
      → Mirrors k rows log
      → read_rows k (keep p rows) ≡ ok (map (λ st. st.event) (keep q log))
  unfolding read_rows event_from_json
  read_rows-keep p q [] [] same m = refl
  read_rows-keep p q [] (s ∷ log) same m = absurd m
  read_rows-keep p q (r ∷ rows) [] same m = absurd m
  read_rows-keep p q (r ∷ rows) (s ∷ log) same m =
      let further = read_rows-keep p q rows log same m.1 in
      ground (arith, further, same r s m.0, m.0.json)

  pub load_fact_in_tx-stream :
      (rows : List Row) (log : List StoredEvent) (f : FactId)
      → Mirrors k rows log
      → load_fact_in_tx k rows f ≡ ok (stream f log)
  unfolding load_fact_in_tx
  load_fact_in_tx-stream rows log f m =
      read_rows-keep (λ row. row.fact_id == f) (λ st. st.event.fact_id == f) rows log
        (λ row st h. ap (λ id. id == f) h.fact_id) m

  pub head_hash-last :
      (rows : List Row) (log : List StoredEvent)
      → Mirrors k rows log
      → map (λ row. row.event_hash) rows ≡ hashes log
  head_hash-last [] [] m = refl
  head_hash-last [] (s ∷ log) m = absurd m
  head_hash-last (r ∷ rows) [] m = absurd m
  head_hash-last (r ∷ rows) (s ∷ log) m =
      ground (arith, head_hash-last rows log m.1, m.0.event_hash)

  pub is_duplicate-has_id :
      (id : String) (rows : List Row) (log : List StoredEvent)
      → Mirrors k rows log
      → is_duplicate id rows ≡ has_id id log
  is_duplicate-has_id id [] [] m = refl
  is_duplicate-has_id id [] (s ∷ log) m = absurd m
  is_duplicate-has_id id (r ∷ rows) [] m = absurd m
  is_duplicate-has_id id (r ∷ rows) (s ∷ log) m =
      ground (arith, is_duplicate-has_id id rows log m.1, m.0.event_id)

  module _ (c : Codec) (s : InMemoryEventStore) (rows : List Row) (v : IsSound c s)
      (m : Mirrors k rows s.log) where
    load_replacing_lem :
        (kind : FactEventKind) → load_replacing_in_tx k rows kind ≡ load_replacing s kind
    unfolding load_replacing_in_tx load_replacing
    load_replacing_lem (superseded by reason) =
        rw (load_fact_in_tx-stream rows s.log by m, load_fact_events-stream c s by v)
    load_replacing_lem kind = refl

    -- The row is made just where the store would append, from the store's hash.
    pub new_row_lem :
        (e : FactEvent) (json : String)
        → k.to_json e ≡ ok json
        → new_row k c rows e ≡ (append c s e >>= λ p. ok (row_of k rows e p.1.event_hash json))
    unfolding new_row append arbitrate persist
    new_row_lem e json j =
        let head : head_hash rows ≡ s.last_hash =
          ap last (head_hash-last rows s.log m) ∙ sym v.head in
        let duplicate : is_duplicate e.event_id rows ≡ contains e.event_id s.event_ids =
          is_duplicate-has_id e.event_id rows s.log m ∙ sym (v.ids e.event_id) in
        rw
          (
            load_fact_in_tx-stream rows s.log e.fact_id m,
            load_fact_events-stream c s e.fact_id v,
            load_replacing_lem e.kind,
            duplicate,
            head,
            j,
          )
          (ground arith)
