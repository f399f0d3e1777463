-- ===== src/State/Admission.antt =====
-- When `apply_event` of crates/dent8-core/src/state.rs takes an event, said without its code.
use dent.Prelude.{
  ◌≤◌, Bool, true, false, ◌≡◌, ◌≢◌, refl, ◌↔◌, ◌⊎◌, inl, inr, Option, none, some, arith, eq_iff, ap,
  not, is_some_and, ok, is_ok, ◌&&◌, ◌||◌,
}
use dent.Model.{
  FactEvent, FactEventKind, asserted, reinforced, contradicted, superseded, expired, retracted,
  retrieved, used_in_decision, challenge_rejected, FactValue, value_eq, value_eq_iff,
  subject_eq_iff, canonical, rank, validate,
}
use dent.State.Lifecycle.{is_terminal}
use dent.State.Defs.{FactState}
use dent.State.Apply.{apply_kind, apply_next_event, apply_valid_event, apply_event, is_audit}

-- The kinds that a state takes: a fact that has ended takes audit records only, a replacement or a removal must
-- come from a level that is not below the fact's, a canonical fact is not contradicted, and nothing asserts twice.
abbrev pub Allows : FactState → FactEvent → FactEventKind → Type 0
Allows s e asserted = ⊥
Allows s e (reinforced by) =
    (is_terminal s.lifecycle ≡ false) × ((e.value ≡ none) ⊎ (e.value ≡ some s.value))
Allows s e (contradicted by basis) =
    (is_terminal s.lifecycle ≡ false) × (s.authority.level ≢ canonical)
Allows s e (superseded by reason) =
    (is_terminal s.lifecycle ≡ false) × (rank s.authority.level ≤ rank e.authority.level)
Allows s e (expired reason) =
    (is_terminal s.lifecycle ≡ false) × (rank s.authority.level ≤ rank e.authority.level)
Allows s e (retracted reason) =
    (is_terminal s.lifecycle ≡ false) × (rank s.authority.level ≤ rank e.authority.level)
Allows s e (retrieved purpose) = Unit
Allows s e (used_in_decision decision_id) = Unit
Allows s e (challenge_rejected challenge by rejection) = is_terminal s.lifecycle ≡ false

pub record Accepts (s : FactState) (e : FactEvent) : Type 0 where
  pub valid : validate e ≡ ok tt
  pub same_fact : s.fact_id ≡ e.fact_id
  pub same_subject : s.subject ≡ e.subject
  pub same_predicate : s.predicate ≡ e.predicate
  pub allowed : Allows s e e.kind

may_reinforce :
    (o : Option FactValue) (v : FactValue)
    → (is_some_and o (λ w. not (value_eq w v)) ≡ false) ↔ ((o ≡ none) ⊎ (o ≡ some v))
may_reinforce none v = (λ h. inl refl, λ h. refl)
may_reinforce (some w) v = (
  λ h. inr (ap some ((value_eq_iff w v).0 (ground arith))),
  λ h. ground (arith, value_eq_iff w v),
)

-- What the kind's own branch decides, behind the guard on ended facts.
abbrev guarded : FactState → FactEventKind → Bool
guarded s k = not (is_terminal s.lifecycle) || is_audit k

kind_accepts :
    (s : FactState) (e : FactEvent) (k : FactEventKind)
    → ((guarded s k && is_ok (apply_kind s e k)) ≡ true) ↔ Allows s e k
unfolding apply_kind
kind_accepts s e asserted = (ground arith, ground arith)
kind_accepts s e (reinforced by) =
    (ground (arith, may_reinforce e.value s.value), ground (arith, may_reinforce e.value s.value))
kind_accepts s e (contradicted by basis) = (ground arith, ground arith)
kind_accepts s e k = (ground arith, ground arith)

guards_accept :
    (s : FactState) (e : FactEvent)
    → (is_ok (apply_next_event s e) ≡ true) ↔ (
        (s.fact_id ≡ e.fact_id)
        × (s.subject ≡ e.subject)
        × (s.predicate ≡ e.predicate)
        × ((guarded s e.kind && is_ok (apply_kind s e e.kind)) ≡ true))
unfolding apply_next_event
guards_accept s e = (
  ground (
    arith,
    eq_iff s.fact_id e.fact_id,
    subject_eq_iff s.subject e.subject,
    eq_iff s.predicate e.predicate,
  ),
  ground (
    arith,
    eq_iff s.fact_id e.fact_id,
    subject_eq_iff s.subject e.subject,
    eq_iff s.predicate e.predicate,
  ),
)

-- A state takes an event exactly when the event is well formed, is about the state's fact, subject and predicate,
-- and is of a kind that the state allows.
pub Accepts-iff :
    (s : FactState) (e : FactEvent) → (is_ok (apply_event (some s) e) ≡ true) ↔ Accepts s e
unfolding apply_event apply_valid_event
Accepts-iff s e = (
  λ h.
      let g = (guards_accept s e).0 (ground arith) in
      record {
        valid = ground arith;
        same_fact = g.0;
        same_subject = g.1;
        same_predicate = g.2;
        allowed = (kind_accepts s e e.kind).0 g.3;
      },
  λ a.
      let g =
        (guards_accept s e).1
          (a.same_fact, a.same_subject, a.same_predicate, (kind_accepts s e e.kind).1 a.allowed) in
      ground (arith, a.valid),
)
