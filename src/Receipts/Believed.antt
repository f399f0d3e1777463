-- ===== src/Receipts/Believed.antt =====
-- What `believed_fact_ids` of crates/dent8-store/src/memory.rs lists, against the replay of each fact's stream.
use dent.Prelude.{
  ◌≡◌, refl, sym, subst, ap, ◌∙◌, true, false, none, some, List, [], ◌∷◌, map, arith, All, keep,
  ◌==◌, eq_iff, ok, inl, inr, ◌⊎◌, Bool-cases, ok_injective, map_err-eq-ok, bind_inverts, map_err,
}
use dent.Model.{FactId, FactEvent, FactEventKind, asserted, Subject, Predicate, subject_eq_iff}
use dent.State.{
  FactState, is_terminal, apply_event, apply_initial_event, initial_by_kind, initial_state,
}
use dent.State.Admission.{Accepts-iff}
use dent.State.Frame.{apply-SameBelief}
use dent.State.Inversion.{apply_initial}
use dent.Replay.{replay_fact, transition}
use dent.Replay.Strict.{strict, replay-eq-strict}
use dent.Subject.{replay_subject, has}
use dent.Subject.Projection.{about, replay_subject-believed}
use dent.Memory.{InMemoryEventStore, StoredEvent, passes, scan_events}
use dent.Memory.Index.{stream}
use dent.Receipts.{matching, projection_of, believed_fact_ids}

-- The event is about the fact of the state, and of its subject and predicate.
record SameShape (s : FactState) (e : FactEvent) : Type 0 where
  fact : s.fact_id ≡ e.fact_id
  subject : s.subject ≡ e.subject
  predicate : s.predicate ≡ e.predicate

step_SameShape : (s t : FactState) (e : FactEvent) → apply_event (some s) e ≡ ok t → SameShape t e
step_SameShape s t e h =
    let a = (Accepts-iff s e).0 (rw h refl) in
    let b = apply-SameBelief s t e h in
    record {
      fact = b.fact_id ∙ a.same_fact;
      subject = b.subject ∙ a.same_subject;
      predicate = b.predicate ∙ a.same_predicate;
    }

open_kind :
    (s : FactState) (e : FactEvent) (k : FactEventKind) → initial_by_kind e k ≡ ok s → SameShape s e
unfolding initial_by_kind initial_state
open_kind s e asserted h = ground arith
open_kind s e k h = cc

open_SameShape : (s : FactState) (e : FactEvent) → apply_event none e ≡ ok s → SameShape s e
unfolding apply_initial_event
open_SameShape s e h = open_kind s e e.kind (apply_initial e h)

strict-SameShape :
    (s t : FactState) (es : List FactEvent)
    → strict (some s) es ≡ ok (some t)
    → (t.fact_id ≡ s.fact_id)
      × (t.subject ≡ s.subject)
      × (t.predicate ≡ s.predicate)
      × All (SameShape t) es
unfolding strict
strict-SameShape s t [] h = ground arith
strict-SameShape s t (e ∷ es) h =
    let (u, (step, rest)) = bind_inverts (apply_event (some s) e) _ h in
    let (f, k, p, all) = strict-SameShape u t es rest in
    let b = apply-SameBelief s u e step in
    let here = step_SameShape s u e step in
    (
      f ∙ b.fact_id,
      k ∙ b.subject,
      p ∙ b.predicate,
      (
        record { fact = f ∙ here.fact; subject = k ∙ here.subject; predicate = p ∙ here.predicate },
        all,
      ),
    )

-- Every event of a stream that replays to a state has the state's fact, subject and predicate.
replay_SameShape :
    (t : FactState) (es : List FactEvent) → replay_fact es ≡ ok (some t) → All (SameShape t) es
unfolding strict
replay_SameShape t es h =
    go es (map_err-eq-ok transition (strict none es) (sym (replay-eq-strict es) ∙ h))
  where
    go : (es : List FactEvent) → strict none es ≡ ok (some t) → All (SameShape t) es
    go [] h = tt
    go (e ∷ es) h =
        let (u, (step, rest)) = bind_inverts (apply_event none e) _ h in
        let (f, k, p, all) = strict-SameShape u t es rest in
        let here = open_SameShape u e step in
        (
          record {
            fact = f ∙ here.fact;
            subject = k ∙ here.subject;
            predicate = p ∙ here.predicate;
          },
          all,
        )

of_stream :
    (t : FactState) (f : FactId) (log : List StoredEvent)
    → All (SameShape t) (stream f log)
    → (stream f log ≡ []) ⊎ (t.fact_id ≡ f)
of_stream t f [] h = inl refl
of_stream t f (st ∷ log) h = elim (Bool-cases (st.event.fact_id == f)) [
  | inr other ↦ elim (of_stream t f log (rw other at h)) [
    | inl none_left ↦ inl (rw other none_left)
    | inr found ↦ inr found
  ]
  | inl same ↦
      let both : SameShape t st.event × All (SameShape t) (stream f log) = rw same at h in
      inr (both.0.fact ∙ (eq_iff st.event.fact_id f).0 same)
]

is_of :
    (t : FactState) (f : FactId) (log : List StoredEvent)
    → replay_fact (stream f log) ≡ ok (some t)
    → t.fact_id ≡ f
unfolding strict
is_of t f log h = elim (of_stream t f log (replay_SameShape t (stream f log) h)) [
  | inr found ↦ found
  | inl none_left ↦ absurd (
      let empty : map_err transition (strict none []) ≡ ok (some t) =
        sym (replay-eq-strict []) ∙ (ap replay_fact (sym none_left) ∙ h) in
      cc)
]

-- The fact has not ended in the store, and is of the subject and predicate.
pub record IsBelieved (subject : Subject) (predicate : Predicate) (s : InMemoryEventStore)
    (f : FactId) : Type 0 where
  pub state : FactState
  pub replays : replay_fact (stream f s.log) ≡ ok (some state)
  pub going : is_terminal state.lifecycle ≡ false
  pub of_subject : state.subject ≡ subject
  pub of_predicate : state.predicate ≡ predicate

module _ (subject : Subject) (predicate : Predicate) where
  abbrev scanned : List StoredEvent → List FactEvent
  scanned log = map (λ st. st.event) (keep (passes (matching subject predicate)) log)

  -- A fact of the subject and predicate is scanned whole.
  scanned-about :
      (t : FactState) (f : FactId) (log : List StoredEvent)
      → t.subject ≡ subject
      → t.predicate ≡ predicate
      → All (SameShape t) (stream f log)
      → about f (scanned log) ≡ stream f log
  scanned-about t f [] a b h = refl
  scanned-about t f (st ∷ log) a b h = elim (Bool-cases (st.event.fact_id == f)) [
    | inr other ↦ ground (arith, other, scanned-about t f log a b)
    | inl same ↦
        let both : SameShape t st.event × All (SameShape t) (stream f log) = rw same at h in
        let subjects = (subject_eq_iff subject st.event.subject).1 (sym a ∙ both.0.subject) in
        let predicates = (eq_iff predicate st.event.predicate).1 (sym b ∙ both.0.predicate) in
        let rest = scanned-about t f log a b both.1 in
        ground (arith, same, subjects, predicates, rest)
  ]

  -- Every fact of the subject and predicate that has not ended is listed.
  pub believed_fact_ids-IsBelieved :
      (s : InMemoryEventStore) (f : FactId) (fs : List FactId)
      → IsBelieved subject predicate s f
      → believed_fact_ids s subject predicate ≡ ok fs
      → has f fs ≡ true
  unfolding believed_fact_ids projection_of scan_events
  believed_fact_ids-IsBelieved s f fs b h =
      let (p, (hp, listed)) = bind_inverts (projection_of s subject predicate) _ h in
      let folded = map_err-eq-ok _ (replay_subject (scanned s.log)) hp in
      let shapes = replay_SameShape b.state (stream f s.log) b.replays in
      let whole = scanned-about b.state f s.log b.of_subject b.of_predicate shapes in
      ap (has f) (sym (ok_injective listed))
      ∙ replay_subject-believed (scanned s.log) p f b.state folded
          (ap replay_fact whole ∙ b.replays) (is_of b.state f s.log b.replays) b.going

pub has_all {ℓ} :
    (P : FactId → Type ℓ) (f : FactId) (fs : List FactId) → has f fs ≡ true → All P fs → P f
has_all P f [] h all = cc
has_all P f (g ∷ fs) h all = elim (Bool-cases (g == f)) [
  | inl same ↦ subst P ((eq_iff g f).0 same) all.0
  | inr other ↦ has_all P f fs (ground arith) all.1
]
