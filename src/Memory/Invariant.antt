-- ===== src/Memory/Invariant.antt =====
-- What holds of the store of crates/dent8-store/src/memory.rs between two calls.
use mathlib.Core.List.{map-append, append-nil, append_assoc}
use dent.Prelude.{
  ℕ, suc, ◌+◌, ◌≡◌, refl, sym, ap, ◌∙◌, Bool, true, false, List, [], ◌∷◌, ◌++◌, map, arith, ◌==◌,
  eq_iff, unwrap_or, length, last, last-append, any, any-append, ok, ok_injective, inl, inr,
  Result-cases, Bool-cases, String,
}
use dent.Prelude.Maps.{string_key, get, get-insert, contains, contains-include}
use dent.Model.{FactId, FactEvent}
use dent.Hash.{Bytes, bytes_eq_iff, Codec, event_hash, hash_chain, chain_from}
use dent.Hash.Growth.{hash_chain-append}
use dent.Store.{AppendReceipt}
use dent.Memory.{
  StoredEvent, InMemoryEventStore, new, load_fact_events, all_events, persist, persist_all,
  from_trusted_events, written, receipt_of, hashes_match, verify_chain,
}
use dent.Memory.Index.{positions, stream, events_at-positions, positions-append}

-- Each event carries its position.
abbrev pub IsNumbered : ℕ → List StoredEvent → Type 0
IsNumbered n [] = Unit
IsNumbered n (st ∷ log) = (st.global_sequence ≡ n) × IsNumbered (suc n) log

IsNumbered-append :
    (n : ℕ) (log : List StoredEvent) (st : StoredEvent)
    → IsNumbered n log
    → st.global_sequence ≡ n + length log
    → IsNumbered n (log ++ st ∷ [])
IsNumbered-append n [] st h e = (omega arith, tt)
IsNumbered-append n (x ∷ log) st h e = (h.0, IsNumbered-append (suc n) log st h.1 (omega arith))

abbrev pub hashes : List StoredEvent → List Bytes
hashes log = map (λ st. st.event_hash) log

abbrev pub has_id : String → List StoredEvent → Bool
has_id id log = any (λ st. st.event.event_id == id) log

-- The index, the set of ids and the head agree with the log, whose events are numbered and whose hashes are its chain.
pub record IsSound (c : Codec) (s : InMemoryEventStore) : Type 0 where
  pub indexed : (f : FactId) → unwrap_or (get f s.by_fact) [] ≡ positions f 0 s.log
  pub ids : (id : String) → contains id s.event_ids ≡ has_id id s.log
  pub chained : hash_chain c (all_events s) ≡ ok (hashes s.log)
  pub head : s.last_hash ≡ last (hashes s.log)
  pub numbered : IsNumbered 0 s.log

pub new-IsSound : (c : Codec) → IsSound c new
unfolding get contains positions hash_chain chain_from
new-IsSound c = record {
  indexed = λ f. refl;
  ids = λ id. refl;
  chained = refl;
  head = refl;
  numbered = tt;
}

-- What a write that succeeded has done.
pub record Wrote (c : Codec) (s : InMemoryEventStore) (e : FactEvent) (t : InMemoryEventStore)
    (r : AppendReceipt) : Type 0 where
  pub hash : Bytes
  pub fresh : contains e.event_id s.event_ids ≡ false
  pub hashed : event_hash c e s.last_hash ≡ ok hash
  pub store : t ≡ written s e hash
  pub receipt : r ≡ receipt_of s e hash

pub persist-Wrote :
    (c : Codec) (s t : InMemoryEventStore) (e : FactEvent) (r : AppendReceipt)
    → persist c s e ≡ ok (t, r)
    → Wrote c s e t r
unfolding persist
persist-Wrote c s t e r h = elim (Bool-cases (contains e.event_id s.event_ids)) [
  | inl seen ↦ absurd (ground arith)
  | inr fresh ↦ elim (Result-cases (event_hash c e s.last_hash)) [
    | inr (x, k) ↦ absurd (ground arith)
    | inl (hash, k) ↦ record {
      hash = hash;
      fresh = fresh;
      hashed = k;
      store = ground arith;
      receipt = ground arith;
    }
  ]
]

indexed-written :
    (s : InMemoryEventStore) (e : FactEvent) (hash : Bytes)
    → ((f : FactId) → unwrap_or (get f s.by_fact) [] ≡ positions f 0 s.log)
    → (f : FactId)
    → unwrap_or (get f (written s e hash).by_fact) [] ≡ positions f 0 (written s e hash).log
unfolding written
indexed-written s e hash h f =
    rw
      (
        get-insert e.fact_id f (unwrap_or (get e.fact_id s.by_fact) [] ++ length s.log ∷ [])
            s.by_fact,
        positions-append f 0 s.log
            (record { global_sequence = length s.log; event = e; event_hash = hash }),
      )
      (ground (arith, h f, h e.fact_id, eq_iff e.fact_id f, append-nil (positions f 0 s.log)))

ids-written :
    (s : InMemoryEventStore) (e : FactEvent) (hash : Bytes)
    → ((id : String) → contains id s.event_ids ≡ has_id id s.log)
    → (id : String) → contains id (written s e hash).event_ids ≡ has_id id (written s e hash).log
unfolding written
ids-written s e hash h id =
    rw
      (
        contains-include e.event_id id s.event_ids,
        any-append (λ st. st.event.event_id == id) s.log (_ ∷ []),
        h id,
      )
      (ground arith)

module _ (c : Codec) where
  written-IsSound :
      (s : InMemoryEventStore) (e : FactEvent) (hash : Bytes)
      → event_hash c e s.last_hash ≡ ok hash
      → IsSound c s
      → IsSound c (written s e hash)
  unfolding written
  written-IsSound s e hash hashed v = record {
    indexed = indexed-written s e hash v.indexed;
    ids = ids-written s e hash v.ids;
    chained =
        rw (map-append (λ st. st.event) s.log, map-append (λ st. st.event_hash) s.log)
          (hash_chain-append c (all_events s) e (hashes s.log) hash v.chained
            (rw v.head at hashed));
    head = rw (map-append (λ st. st.event_hash) s.log) (sym (last-append (hashes s.log) hash));
    numbered = IsNumbered-append 0 s.log _ v.numbered (omega arith);
  }

  pub persist-IsSound :
      (s t : InMemoryEventStore) (e : FactEvent) (r : AppendReceipt)
      → IsSound c s
      → persist c s e ≡ ok (t, r)
      → IsSound c t
  persist-IsSound s t e r v h =
      let w = persist-Wrote c s t e r h in rw w.store (written-IsSound s e w.hash w.hashed v)

  pub persist_all-IsSound :
      (s t : InMemoryEventStore) (es : List FactEvent)
      → IsSound c s
      → persist_all c s es ≡ ok t
      → IsSound c t
  unfolding persist_all
  persist_all-IsSound s t [] v h = rw (← ok_injective h) v
  persist_all-IsSound s t (e ∷ es) v h = elim (Result-cases (persist c s e)) [
    | inr (x, k) ↦ absurd (ground arith)
    | inl ((u, r), k) ↦ persist_all-IsSound u t es (persist-IsSound s u e r v k) (rw k at h)
  ]

-- The log grows by what is written, in order.
all_events-persist_all :
    (c : Codec) (s t : InMemoryEventStore) (es : List FactEvent)
    → persist_all c s es ≡ ok t
    → all_events t ≡ all_events s ++ es
unfolding persist_all written
all_events-persist_all c s t [] h = rw (← ok_injective h) (sym (append-nil (all_events s)))
all_events-persist_all c s t (e ∷ es) h = elim (Result-cases (persist c s e)) [
  | inr (x, k) ↦ absurd (ground arith)
  | inl ((u, r), k) ↦
      let w = persist-Wrote c s u e r k in
      let grown : all_events u ≡ all_events s ++ e ∷ [] =
        ap all_events w.store ∙ map-append (λ st. st.event) s.log (_ ∷ []) in
      all_events-persist_all c u t es (rw k at h)
      ∙ (ap (λ l. l ++ es) grown ∙ append_assoc (all_events s) (e ∷ []) es)
]

-- What the store loads for a fact is the part of its log that is about the fact, in order: the index never leads
-- out of the log.
pub load_fact_events-stream :
    (c : Codec) (s : InMemoryEventStore) (f : FactId)
    → IsSound c s
    → load_fact_events s f ≡ ok (stream f s.log)
unfolding load_fact_events
load_fact_events-stream c s f v = rw (v.indexed f) (events_at-positions f s.log)

hashes_match_self : (log : List StoredEvent) → hashes_match (hashes log) log ≡ true
unfolding hashes_match
hashes_match_self [] = refl
hashes_match_self (st ∷ log) =
    rw ((bytes_eq_iff st.event_hash st.event_hash).1 refl) (hashes_match_self log)

-- A sound store's chain verifies.
pub verify_chain_of_sound :
    (c : Codec) (s : InMemoryEventStore) → IsSound c s → verify_chain c s ≡ true
unfolding verify_chain
verify_chain_of_sound c s v = rw (v.chained, verify_chain) (hashes_match_self s.log)

-- A store that was loaded from a log of trusted events holds just those events, in order, and its chain verifies.
pub from_trusted_events_verifies :
    (c : Codec) (t : InMemoryEventStore) (es : List FactEvent)
    → from_trusted_events c es ≡ ok t
    → (all_events t ≡ es) × (verify_chain c t ≡ true)
unfolding from_trusted_events
from_trusted_events_verifies c t es h = (
  all_events-persist_all c new t es h,
  verify_chain_of_sound c t (persist_all-IsSound c new t es (new-IsSound c) h),
)
