-- ===== src/Memory/Index.antt =====
-- The index by fact of the store of crates/dent8-store/src/memory.rs, against the log that it indexes.
use mathlib.Core.List.{append_assoc}
use dent.Prelude.{
  ℕ, suc, ◌+◌, ◌≡◌, refl, some, List, [], ◌∷◌, ◌++◌, map, arith, ◌==◌, if◌then◌else◌, length,
  length-append, get_elem?, keep, ok,
}
use dent.Model.{FactId, FactEvent}
use dent.Memory.{StoredEvent, events_at}

-- The positions of a fact's events in a log whose first position is `n`.
unfoldable pub positions : FactId → ℕ → List StoredEvent → List ℕ
positions f n [] = []
positions f n (st ∷ log) =
    let rest = positions f (suc n) log in if st.event.fact_id == f then n ∷ rest else rest

-- The events of a fact, in the order of the log.
abbrev pub stream : FactId → List StoredEvent → List FactEvent
stream f log = map (λ st. st.event) (keep (λ st. st.event.fact_id == f) log)

get_elem?-middle :
    (pre suf : List StoredEvent) (st : StoredEvent)
    → get_elem? (pre ++ st ∷ suf) (length pre) ≡ some st
get_elem?-middle [] suf st = refl
get_elem?-middle (x ∷ pre) suf st = get_elem?-middle pre suf st

events_at-behind :
    (f : FactId) (pre suf : List StoredEvent)
    → events_at (pre ++ suf) (positions f (length pre) suf) ≡ ok (stream f suf)
unfolding positions events_at
events_at-behind f pre [] = refl
events_at-behind f pre (st ∷ suf) =
    let further : events_at (pre ++ st ∷ suf) (positions f (suc (length pre)) suf)
        ≡ ok (stream f suf) =
      rw (← behind, ← append_assoc pre (st ∷ []) suf) (events_at-behind f (pre ++ st ∷ []) suf) in
    ground (arith, further, get_elem?-middle pre suf st)
  where
    behind : length (pre ++ st ∷ []) ≡ suc (length pre)
    behind = omega (arith, length-append pre (st ∷ []))

-- The positions of a fact give its events.
pub events_at-positions :
    (f : FactId) (log : List StoredEvent) → events_at log (positions f 0 log) ≡ ok (stream f log)
events_at-positions f log = events_at-behind f [] log

pub positions-append :
    (f : FactId) (n : ℕ) (log : List StoredEvent) (st : StoredEvent)
    → positions f n (log ++ st ∷ [])
      ≡ positions f n log ++ (if st.event.fact_id == f then (n + length log) ∷ [] else [])
unfolding positions
positions-append f n [] st = ground arith
positions-append f n (x ∷ log) st = ground (arith, positions-append f (suc n) log st)

pub stream-append :
    (f : FactId) (log : List StoredEvent) (st : StoredEvent)
    → stream f (log ++ st ∷ [])
      ≡ stream f log ++ (if st.event.fact_id == f then st.event ∷ [] else [])
stream-append f [] st = ground arith
stream-append f (x ∷ log) st = ground (arith, stream-append f log st)
