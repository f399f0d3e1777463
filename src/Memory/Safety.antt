-- ===== src/Memory/Safety.antt =====
-- What the firewall of crates/dent8-store/src/firewall.rs makes of the store of memory.rs, over any run of calls.
use mathlib.Core.List.{append-nil}
use dent.Prelude.{
  String, ◌≡◌, ◌≢◌, refl, true, Option, none, some, List, [], ◌∷◌, ◌++◌, arith, ◌==◌, eq_iff,
  if◌then◌else◌, ok, err, is_ok, inl, inr, Result-cases, Bool-cases,
}
use dent.Model.{FactId, FactEvent, FactEventKind, superseded, asserted}
use dent.State.{FactState, apply_event}
use dent.Replay.{fold_from, replay_fact}
use dent.Replay.Strict.{strict, replay-append}
use dent.Hash.{Codec}
use dent.Store.{panics, AppendReceipt}
use dent.Firewall.Backing.{arbitrate_events-Passed, arbitrate_events-ne-panics}
use dent.Memory.{InMemoryEventStore, new, load_replacing, arbitrate, persist, written, append}
use dent.Memory.Index.{stream, stream-append}
use dent.Memory.Invariant.{
  IsSound, new-IsSound, persist-Wrote, persist-IsSound, load_fact_events-stream,
}

-- A sound store in which each fact's stream replays.
pub record IsHealthy (c : Codec) (s : InMemoryEventStore) : Type 0 where
  pub sound : IsSound c s
  pub replays : (f : FactId) → is_ok (replay_fact (stream f s.log)) ≡ true

-- What a call of `append` that succeeded went through.
pub record Appended (c : Codec) (s : InMemoryEventStore) (e : FactEvent) (t : InMemoryEventStore)
    (r : AppendReceipt) : Type 0 where
  pub passed : arbitrate s e ≡ ok tt
  pub wrote : persist c s e ≡ ok (t, r)

pub append-Appended :
    (c : Codec) (s t : InMemoryEventStore) (e : FactEvent) (r : AppendReceipt)
    → append c s e ≡ ok (t, r)
    → Appended c s e t r
unfolding append
append-Appended c s t e r h = elim (Result-cases (arbitrate s e)) [
  | inr (x, k) ↦ absurd (ground arith)
  | inl (tt, k) ↦ record { passed = k; wrote = ground arith }
]

-- The stream of a fact grows by the events about it.
pub stream-grows :
    (c : Codec) (s t : InMemoryEventStore) (e : FactEvent) (r : AppendReceipt) (f : FactId)
    → persist c s e ≡ ok (t, r)
    → stream f t.log ≡ stream f s.log ++ (if e.fact_id == f then e ∷ [] else [])
unfolding written
stream-grows c s t e r f h =
    let w = persist-Wrote c s t e r h in rw w.store (stream-append f s.log _)

pub passed_replay :
    (c : Codec) (s : InMemoryEventStore) (e : FactEvent)
    → IsSound c s
    → arbitrate s e ≡ ok tt
    → (o : Option FactState) × (u : FactState) × (replay_fact (stream e.fact_id s.log) ≡ ok o)
      × (apply_event o e ≡ ok u)
unfolding arbitrate
passed_replay c s e v h = elim (Result-cases (load_replacing s e.kind)) [
  | inr (x, k) ↦ absurd (ground (arith, load_fact_events-stream c s e.fact_id v))
  | inl (replacing, k) ↦
      let p =
        arbitrate_events-Passed e (stream e.fact_id s.log) replacing
          (ground (arith, load_fact_events-stream c s e.fact_id v)) in
      (p.current, p.state, p.replays, p.applies)
]

one_more :
    (o : Option FactState) (e : FactEvent) (u : FactState)
    → apply_event o e ≡ ok u
    → strict o (e ∷ []) ≡ ok (some u)
unfolding strict
one_more o e u h = ground arith

pub replays_more :
    (xs : List FactEvent) (e : FactEvent) (o : Option FactState) (u : FactState)
    → replay_fact xs ≡ ok o
    → apply_event o e ≡ ok u
    → replay_fact (xs ++ e ∷ []) ≡ ok (some u)
replays_more xs e o u a b = rw (replay-append xs (e ∷ []), a, one_more o e u b)

module _ (c : Codec) where
  -- A write through the firewall keeps the store sound and every stream of it replayable.
  pub append-IsHealthy :
      (s t : InMemoryEventStore) (e : FactEvent) (r : AppendReceipt)
      → IsHealthy c s
      → append c s e ≡ ok (t, r)
      → IsHealthy c t
  append-IsHealthy s t e r v h =
      let a = append-Appended c s t e r h in
      record { sound = persist-IsSound c s t e r v.sound a.wrote; replays = streams a }
    where
      streams : Appended c s e t r → (f : FactId) → is_ok (replay_fact (stream f t.log)) ≡ true
      streams a f = elim (Bool-cases (e.fact_id == f)) [
        | inr other ↦
            rw (stream-grows c s t e r f a.wrote, other, append-nil (stream f s.log)) (v.replays f)
        | inl same ↦
            let (o, u, before, applied) = passed_replay c s e v.sound a.passed in
            rw (
              stream-grows c s t e r f a.wrote,
              same,
              replays_more (stream f s.log) e o u (rw ((eq_iff e.fact_id f).0 same) at before)
                  applied,
            )
      ]

  load_replacing-ok :
      (s : InMemoryEventStore) (k : FactEventKind)
      → IsSound c s
      → (o : Option (List FactEvent)) × (load_replacing s k ≡ ok o)
  unfolding load_replacing
  load_replacing-ok s (superseded by reason) v =
      (some (stream by s.log), rw (load_fact_events-stream c s by v))
  load_replacing-ok s asserted v = (none, refl)
  load_replacing-ok s k v = (none, refl)

  arbitrate-ne-panics :
      (s : InMemoryEventStore) (e : FactEvent) (message : String)
      → IsSound c s
      → arbitrate s e ≢ err (panics message)
  unfolding arbitrate
  arbitrate-ne-panics s e message v h =
      let (replacing, k) = load_replacing-ok s e.kind v in
      arbitrate_events-ne-panics e (stream e.fact_id s.log) replacing message
        (ground (arith, k, load_fact_events-stream c s e.fact_id v))

  persist-ne-panics :
      (s : InMemoryEventStore) (e : FactEvent) (message : String)
      → persist c s e ≢ err (panics message)
  unfolding persist
  persist-ne-panics s e message h = ground arith

  -- No call of `append` on a sound store panics: no index leads out of the log, and no incumbent is missing.
  pub append-ne-panics :
      (s : InMemoryEventStore) (e : FactEvent) (message : String)
      → IsSound c s
      → append c s e ≢ err (panics message)
  unfolding append
  append-ne-panics s e message v h = elim (Result-cases (arbitrate s e)) [
    | inl (tt, k) ↦ persist-ne-panics s e message (ground arith)
    | inr (x, k) ↦ arbitrate-ne-panics s e message v (ground arith)
  ]

pub new-IsHealthy : (c : Codec) → IsHealthy c new
unfolding replay_fact fold_from
new-IsHealthy c = record { sound = new-IsSound c; replays = λ f. refl }
