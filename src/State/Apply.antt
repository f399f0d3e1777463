-- ===== src/State/Apply.antt =====
-- `apply_event` of crates/dent8-core/src/state.rs and the errors that it answers with.
use dent.Prelude.{
  ◌+◌, Bool, true, false, not, ◌&&◌, ◌||◌, Option, none, some, List, [], ◌∷◌, ◌++◌, ◌==◌,
  if◌then◌else◌, or, unwrap_or, is_some_and, any, length, Result, ok, err, ◌>>=◌, map_err,
}
use dent.Model.{
  FactId, FactEvent, FactEventKind, asserted, reinforced, contradicted, superseded, expired,
  retracted, retrieved, used_in_decision, challenge_rejected, FactValue, value_eq, subject_eq,
  AuthorityLevel, canonical, level_lt, level_eq, ValidationError, validate,
}
use dent.State.Lifecycle.{FactLifecycle, is_terminal}
use dent.State.Defs.{FactState, record_level}

pub data TransitionError : Type 0 where
  invalid_event : ValidationError → TransitionError
  missing_initial_assertion : TransitionError
  duplicate_assertion : TransitionError
  fact_id_mismatch : TransitionError
  fact_shape_mismatch : TransitionError
  reinforcement_value_mismatch : TransitionError
  terminal_state_mutation : FactLifecycle → TransitionError
  -- the incumbent's level, then the challenger's
  insufficient_authority : AuthorityLevel → AuthorityLevel → TransitionError
  canonical_contradiction : TransitionError

unfoldable pub initial_state : FactEvent → FactValue → FactState
initial_state event value = record {
  fact_id = event.fact_id;
  subject = event.subject;
  predicate = event.predicate;
  value = value;
  authority = event.authority;
  ttl = event.ttl;
  freshness_anchor = unwrap_or (or event.valid_from event.observed_at) event.provenance.recorded_at;
  valid_from = event.valid_from;
  valid_to = event.valid_to;
  lifecycle = FactLifecycle.active;
  created_at = event.provenance.recorded_at;
  updated_at = event.provenance.recorded_at;
  last_event_id = event.event_id;
  superseded_by = none;
  contradicted_by = [];
  evidence_count = length event.evidence;
  corroborating_sources = (event.provenance.source, event.authority.level) ∷ [];
  survived_challenges = [];
}

unfoldable pub initial_by_kind : FactEvent → FactEventKind → Result TransitionError FactState
unfolding initial_state
initial_by_kind event asserted = elim event.value [
  | none ↦ err missing_initial_assertion
  | some value ↦ ok (initial_state event value)
]
initial_by_kind event _ = err missing_initial_assertion

unfoldable pub apply_initial_event : FactEvent → Result TransitionError FactState
apply_initial_event event = initial_by_kind event event.kind

-- Events that only record a use.
abbrev pub is_audit : FactEventKind → Bool
is_audit (retrieved _) = true
is_audit (used_in_decision _) = true
is_audit _ = false

abbrev pub add_contradictor : FactId → List FactId → List FactId
add_contradictor by ids = if any (λ id. id == by) ids then ids else ids ++ by ∷ []

-- The gate on the events that end a fact.
abbrev pub outranked : FactState → FactEvent → Bool
outranked state event = level_lt event.authority.level state.authority.level

-- The `match` on the event's kind.
unfoldable pub apply_kind : FactState → FactEvent → FactEventKind → Result TransitionError FactState
apply_kind state event asserted = err duplicate_assertion
apply_kind state event (reinforced by) =
    if is_some_and event.value (λ value. not (value_eq value state.value))
    then err reinforcement_value_mismatch
    else ok (record state {
      evidence_count = state.evidence_count + length event.evidence;
      corroborating_sources =
          record_level event.provenance.source event.authority.level state.corroborating_sources;
    })
apply_kind state event (contradicted by basis) =
    if level_eq state.authority.level canonical
    then err canonical_contradiction
    else ok (record state {
      lifecycle = FactLifecycle.contested;
      contradicted_by = add_contradictor by state.contradicted_by;
    })
apply_kind state event (superseded by reason) =
    if outranked state event
    then err (insufficient_authority state.authority.level event.authority.level)
    else ok (record state { lifecycle = FactLifecycle.superseded; superseded_by = some by })
apply_kind state event (expired reason) =
    if outranked state event
    then err (insufficient_authority state.authority.level event.authority.level)
    else ok (record state { lifecycle = FactLifecycle.expired })
apply_kind state event (retracted reason) =
    if outranked state event
    then err (insufficient_authority state.authority.level event.authority.level)
    else ok (record state { lifecycle = FactLifecycle.retracted })
apply_kind state event (retrieved purpose) = ok state
apply_kind state event (used_in_decision decision_id) = ok state
apply_kind state event (challenge_rejected challenge by rejection) = ok (record state {
  survived_challenges =
      record_level event.provenance.source event.authority.level state.survived_challenges;
})

abbrev pub stamp : FactEvent → FactState → FactState
stamp event state = record state {
  updated_at = event.provenance.recorded_at;
  last_event_id = event.event_id;
}

unfoldable pub apply_next_event : FactState → FactEvent → Result TransitionError FactState
apply_next_event state event =
    if not (state.fact_id == event.fact_id)
    then err fact_id_mismatch
    else if not (subject_eq state.subject event.subject) || not (state.predicate == event.predicate)
    then err fact_shape_mismatch
    else if is_terminal state.lifecycle && not (is_audit event.kind)
    then err (terminal_state_mutation state.lifecycle)
    else do next ← apply_kind state event event.kind; ok (stamp event next)

unfoldable pub apply_valid_event : Option FactState → FactEvent → Result TransitionError FactState
apply_valid_event none event = apply_initial_event event
apply_valid_event (some state) event = apply_next_event state event

unfoldable pub apply_event : Option FactState → FactEvent → Result TransitionError FactState
apply_event current event =
    map_err invalid_event (validate event) >>= λ _. apply_valid_event current event
