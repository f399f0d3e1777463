-- ===== src/State/Inversion.antt =====
-- What a successful `apply_event` of crates/dent8-core/src/state.rs has gone through.
use dent.Prelude.{true, not, ◌≡◌, refl, none, some, arith, eq_iff, ok, ◌||◌, Result-cases, inl, inr}
use dent.Model.{FactEventKind, asserted, is_asserted, FactEvent}
use dent.State.Lifecycle.{is_terminal}
use dent.State.Defs.{FactState}
use dent.State.Apply.{
  stamp, is_audit, apply_kind, initial_by_kind, apply_initial_event, apply_next_event,
  apply_valid_event, apply_event,
}

-- The guards passed, and the branch of the kind answered with `next`.
pub record Steps (s : FactState) (e : FactEvent) (t : FactState) : Type 0 where
  pub next : FactState
  pub fact_id : s.fact_id ≡ e.fact_id
  pub open_or_audit : (not (is_terminal s.lifecycle) || is_audit e.kind) ≡ true
  pub by_kind : apply_kind s e e.kind ≡ ok next
  pub stamped : t ≡ stamp e next

next_Steps :
    (s : FactState) (e : FactEvent) {t : FactState} → apply_next_event s e ≡ ok t → Steps s e t
unfolding apply_next_event
next_Steps s e {t} h = elim (Result-cases (apply_kind s e e.kind)) [
  | inl (next, k) ↦ record {
    next = next;
    fact_id = ground (arith, eq_iff s.fact_id e.fact_id);
    open_or_audit = ground arith;
    by_kind = k;
    stamped = ground arith;
  }
  | inr (x, k) ↦ absurd (ground arith)
]

pub apply_Steps :
    (s : FactState) (e : FactEvent) {t : FactState} → apply_event (some s) e ≡ ok t → Steps s e t
unfolding apply_event apply_valid_event
apply_Steps s e h = next_Steps s e (ground arith)

pub apply_initial :
    (e : FactEvent) {t : FactState} → apply_event none e ≡ ok t → apply_initial_event e ≡ ok t
unfolding apply_event apply_valid_event
apply_initial e h = ground arith

starts_asserted :
    (a : FactEvent) (k : FactEventKind) (s : FactState)
    → initial_by_kind a k ≡ ok s
    → is_asserted k ≡ true
unfolding initial_by_kind
starts_asserted a asserted s h = refl
starts_asserted a k s h = cc

-- Only an assertion opens a fact.
pub opening_asserts :
    (a : FactEvent) {s : FactState} → apply_event none a ≡ ok s → is_asserted a.kind ≡ true
unfolding apply_initial_event
opening_asserts a {s} h = starts_asserted a a.kind s (apply_initial a h)
