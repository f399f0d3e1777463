-- ===== src/Memory/Standing.antt =====
-- A fact of high authority in the store of crates/dent8-store/src/memory.rs, under any run of weaker writes.
use mathlib.Core.List.{append-nil}
use dent.Prelude.{
  ◌≤◌, ◌≡◌, sym, ◌∙◌, false, some, List, [], ◌∷◌, All, ◌==◌, eq_iff, ok, ok_injective, err, inl,
  inr, Result-cases, Bool-cases,
}
use dent.Model.{FactId, FactEvent, AuthorityLevel, rank}
use dent.State.{FactState, is_terminal}
use dent.Replay.{replay_fact}
use dent.Replay.Poison.{Stands, IsBelow, step_Stands, Stands-refl, Stands-trans}
use dent.Hash.{Codec}
use dent.Store.{AppendReceipt}
use dent.Memory.{InMemoryEventStore, load_fact_events, append}
use dent.Memory.Index.{stream}
use dent.Memory.Invariant.{load_fact_events-stream}
use dent.Memory.Safety.{
  IsHealthy, append-Appended, stream-grows, passed_replay, replays_more, append-IsHealthy,
}

module _ (c : Codec) where
  -- One call after another. A call that fails leaves the store as it was.
  unfoldable pub run : InMemoryEventStore → List FactEvent → InMemoryEventStore
  run s [] = s
  run s (e ∷ es) = elim (append c s e) [ ok (t, r) ↦ run t es | err _ ↦ run s es ]

  pub run-IsHealthy :
      (s : InMemoryEventStore) (es : List FactEvent) → IsHealthy c s → IsHealthy c (run s es)
  unfolding run
  run-IsHealthy s [] v = v
  run-IsHealthy s (e ∷ es) v = elim (Result-cases (append c s e)) [
    | inl ((t, r), h) ↦ rw (h, run) (run-IsHealthy t es (append-IsHealthy c s t e r v h))
    | inr (x, h) ↦ rw (h, run) (run-IsHealthy s es v)
  ]

  -- One call below the level: the fact still stands.
  append-Stands :
      (level : AuthorityLevel) (s t : InMemoryEventStore) (e : FactEvent) (r : AppendReceipt)
      (f : FactId) (b : FactState)
      → IsHealthy c s
      → append c s e ≡ ok (t, r)
      → replay_fact (stream f s.log) ≡ ok (some b)
      → rank level ≤ rank b.authority.level
      → is_terminal b.lifecycle ≡ false
      → IsBelow level e
      → (d : FactState) × (replay_fact (stream f t.log) ≡ ok (some d)) × Stands level b d
  append-Stands level s t e r f b v h held strong live weak =
      let a = append-Appended c s t e r h in
      elim (Bool-cases (e.fact_id == f)) [
        | inr other ↦ (
          b,
          rw (stream-grows c s t e r f a.wrote, other, append-nil (stream f s.log)) held,
          Stands-refl level b live,
        )
        | inl same ↦
            let (o, u, before, applied) = passed_replay c s e v.sound a.passed in
            let here : replay_fact (stream f s.log) ≡ ok o =
              rw ((eq_iff e.fact_id f).0 same) at before in
            let is_b : o ≡ some b = ok_injective (sym here ∙ held) in
            (
              u,
              rw (
                stream-grows c s t e r f a.wrote,
                same,
                replays_more (stream f s.log) e o u here applied,
              ),
              step_Stands level b u e strong live weak (rw is_b at applied),
            )
      ]

  run-Stands :
      (level : AuthorityLevel) (s : InMemoryEventStore) (es : List FactEvent) (f : FactId)
      (b : FactState)
      → IsHealthy c s
      → replay_fact (stream f s.log) ≡ ok (some b)
      → rank level ≤ rank b.authority.level
      → is_terminal b.lifecycle ≡ false
      → All (IsBelow level) es
      → (d : FactState) × (replay_fact (stream f (run s es).log) ≡ ok (some d)) × Stands level b d
  unfolding run
  run-Stands level s [] f b v held strong live weak = (b, held, Stands-refl level b live)
  run-Stands level s (e ∷ es) f b v held strong live weak = elim (Result-cases (append c s e)) [
    | inr (x, h) ↦ rw (h, run) (run-Stands level s es f b v held strong live weak.1)
    | inl ((t, r), h) ↦
        let (d, now, first) = append-Stands level s t e r f b v h held strong live weak.0 in
        let (g, later, rest) =
          run-Stands level t es f d (append-IsHealthy c s t e r v h) now
            (rw first.belief.authority strong) first.open_still weak.1 in
        rw (h, run) (g, later, Stands-trans level b d g first rest)
  ]

  -- However many writes below a level are tried, on whatever facts, a fact at that level that had not ended is still
  -- loaded, replays, and stands.
  pub weak_writes_move_nothing :
      (level : AuthorityLevel) (s : InMemoryEventStore) (es : List FactEvent) (f : FactId)
      (xs : List FactEvent) (b : FactState)
      → IsHealthy c s
      → load_fact_events s f ≡ ok xs
      → replay_fact xs ≡ ok (some b)
      → rank level ≤ rank b.authority.level
      → is_terminal b.lifecycle ≡ false
      → All (IsBelow level) es
      → (ys : List FactEvent) × (d : FactState) × (load_fact_events (run s es) f ≡ ok ys)
        × (replay_fact ys ≡ ok (some d))
        × Stands level b d
  weak_writes_move_nothing level s es f xs b v loaded held strong live weak =
      let is_stream : stream f s.log ≡ xs =
        ok_injective (sym (load_fact_events-stream c s f v.sound) ∙ loaded) in
      let (d, now, stands) = run-Stands level s es f b v (rw is_stream held) strong live weak in
      (
        stream f (run s es).log,
        d,
        load_fact_events-stream c (run s es) f (run-IsHealthy s es v).sound,
        now,
        stands,
      )
