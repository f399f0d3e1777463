-- ===== src/Ops/Ended.antt =====
-- What a batch of events that end facts does to the store, in the operations of crates/dent8-cli/src/ops.rs.
use mathlib.Core.List.{append-nil}
use dent.Prelude.{
  true, ◌≡◌, refl, sym, ap, ◌∙◌, subst, Option, some, List, [], ◌∷◌, arith, ◌==◌, eq_iff, All, ok,
  ok_injective, inl, inr, Result-cases, Bool-cases,
}
use dent.Model.{FactId, FactEvent, FactEventId, TimestampMillis}
use dent.State.{FactState, is_terminal, apply_event}
use dent.State.Frame.{ended_is_final}
use dent.Replay.{replay_fact}
use dent.Hash.{Codec}
use dent.Store.{AppendReceipt}
use dent.Memory.{InMemoryEventStore, append}
use dent.Memory.Index.{stream}
use dent.Memory.Safety.{
  IsHealthy, append-Appended, stream-grows, passed_replay, replays_more, append-IsHealthy,
}
use dent.Ops.Revise.{append_all}

-- The fact has ended, in a state of a kind.
pub record Ended (P : FactState → Type 0) (f : FactId) (s : InMemoryEventStore) : Type 0 where
  pub state : FactState
  pub replays : replay_fact (stream f s.log) ≡ ok (some state)
  pub ended : is_terminal state.lifecycle ≡ true
  pub holds : P state

-- The event ends the fact in a state of that kind wherever it is accepted.
pub record Ends (P : FactState → Type 0) (f : FactId) (e : FactEvent) : Type 0 where
  pub about : e.fact_id ≡ f
  pub step :
      (o : Option FactState) (u : FactState)
      → apply_event o e ≡ ok u
      → (is_terminal u.lifecycle ≡ true) × P u

abbrev pub AllEnd : (FactState → Type 0) → List FactId → List FactEvent → Type 0
AllEnd P [] [] = Unit
AllEnd P (f ∷ fs) (e ∷ es) = Ends P f e × AllEnd P fs es
AllEnd _ _ _ = ⊥

module _ (c : Codec) (P : FactState → Type 0)
    (stable : (s : FactState) (at : TimestampMillis) (id : FactEventId)
      → P s
      → P (record s { updated_at = at; last_event_id = id })) where
  append-Ended :
      (s t : InMemoryEventStore) (e : FactEvent) (r : AppendReceipt) (f : FactId)
      → IsHealthy c s
      → append c s e ≡ ok (t, r)
      → Ends P f e
      → Ended P f t
  append-Ended s t e r f v h k =
      let a = append-Appended c s t e r h in
      let (o, u, before, applied) = passed_replay c s e v.sound a.passed in
      let (ended, holds) = k.step o u applied in
      subst (λ x. Ended P x t) k.about
        (record {
          state = u;
          replays = rw (
            stream-grows c s t e r e.fact_id a.wrote,
            (eq_iff e.fact_id e.fact_id).1 refl,
            replays_more (stream e.fact_id s.log) e o u before applied,
          );
          ended = ended;
          holds = holds;
        })

  append_keeps :
      (s t : InMemoryEventStore) (e : FactEvent) (r : AppendReceipt) (f : FactId)
      → IsHealthy c s
      → append c s e ≡ ok (t, r)
      → Ended P f s
      → Ended P f t
  append_keeps s t e r f v h g =
      let a = append-Appended c s t e r h in
      elim (Bool-cases (e.fact_id == f)) [
        | inr other ↦ record {
          state = g.state;
          replays =
              rw (stream-grows c s t e r f a.wrote, other, append-nil (stream f s.log)) g.replays;
          ended = g.ended;
          holds = g.holds;
        }
        | inl same ↦
            let (o, u, before, applied) = passed_replay c s e v.sound a.passed in
            let here : replay_fact (stream f s.log) ≡ ok o =
              rw ((eq_iff e.fact_id f).0 same) at before in
            let is_state : o ≡ some g.state = ok_injective (sym here ∙ g.replays) in
            let final = (ended_is_final g.state u e g.ended (rw is_state at applied)).1 in
            record {
              state = u;
              replays = rw (
                stream-grows c s t e r f a.wrote,
                same,
                replays_more (stream f s.log) e o u here applied,
              );
              ended = ap (λ x. is_terminal x.lifecycle) final ∙ g.ended;
              holds =
                  subst P (sym final) (stable g.state e.provenance.recorded_at e.event_id g.holds);
            }
      ]

  all_keep :
      (s t : InMemoryEventStore) (es : List FactEvent) (f : FactId)
      → IsHealthy c s
      → append_all c s es ≡ ok t
      → Ended P f s
      → Ended P f t
  unfolding append_all
  all_keep s t [] f v h g = subst (Ended P f) (ok_injective h) g
  all_keep s t (e ∷ es) f v h g = elim (Result-cases (append c s e)) [
    | inr (x, bad) ↦ absurd (ground arith)
    | inl ((u, r), good) ↦
        all_keep u t es f (append-IsHealthy c s u e r v good) (ground arith)
          (append_keeps s u e r f v good g)
  ]

  pub all_end :
      (s t : InMemoryEventStore) (fs : List FactId) (es : List FactEvent)
      → IsHealthy c s
      → AllEnd P fs es
      → append_all c s es ≡ ok t
      → All (λ f. Ended P f t) fs
  unfolding append_all
  all_end s t [] es v m h = tt
  all_end s t (f ∷ fs) [] v m h = absurd m
  all_end s t (f ∷ fs) (e ∷ es) v m h = elim (Result-cases (append c s e)) [
    | inr (x, bad) ↦ absurd (ground arith)
    | inl ((u, r), good) ↦
        let w = append-IsHealthy c s u e r v good in
        let rest : append_all c u es ≡ ok t = ground arith in
        (all_keep u t es f w rest (append-Ended s u e r f v good m.0), all_end u t fs es w m.1 rest)
  ]

pub append_all-IsHealthy :
    (c : Codec) (s t : InMemoryEventStore) (es : List FactEvent)
    → IsHealthy c s
    → append_all c s es ≡ ok t
    → IsHealthy c t
unfolding append_all
append_all-IsHealthy c s t [] v h = subst (IsHealthy c) (ok_injective h) v
append_all-IsHealthy c s t (e ∷ es) v h = elim (Result-cases (append c s e)) [
  | inr (x, bad) ↦ absurd (ground arith)
  | inl ((u, r), good) ↦
      append_all-IsHealthy c u t es (append-IsHealthy c s u e r v good) (ground arith)
]
