-- ===== src/Registry.antt =====
-- The predicate registry of crates/dent8-store/src/registry.rs: floors, default lifetimes, ceilings and uniqueness.
pub mod Enforce
use dent.Prelude.{
  ℕ, ◌+◌, ◌*◌, String, Bool, true, false, not, ◌&&◌, ◌||◌, Option, none, some, List, [], ◌∷◌, ◌++◌,
  ◌==◌, ltb, leb, if◌then◌else◌, or, unwrap_or, is_some_and, any, keep, length, Result, ok, err,
  map_err, ◌>>=◌, ◌>>◌,
}
use Prim.Native.String.{◌++◌ as concat}
use dent.Prelude.Int.{saturating_sub, u64_or_zero}
use dent.Prelude.Maps.{Map, pair_key, get, insert}
use dent.Model.{
  FactId, FactEvent, FactEventKind, is_asserted, Subject, subject_eq, Predicate, AuthorityLevel,
  low, medium, high, level_lt, Ttl, never, expires_at, duration_millis, TimestampMillis,
}
use dent.State.{FactState, FactLifecycle, lifecycle_eq, is_expired_at}
use dent.Subject.{replay_subject, believed, has}
use dent.Store.{
  EventFilter, Fault, fails, replay, below_authority_floor, ttl_ceiling_exceeded,
  uniqueness_violation,
}

abbrev pub default_max_ttl_ms : ℕ
default_max_ttl_ms = 90 * 24 * 60 * 60 * 1000

abbrev pub volatile_retention_ceiling_ms : ℕ
volatile_retention_ceiling_ms = 7 * 24 * 60 * 60 * 1000

pub data Volatility : Type 0 where
  stable volatile : Volatility

abbrev pub retention_ceiling : Volatility → Option Ttl
retention_ceiling volatile = some (duration_millis volatile_retention_ceiling_ms)
retention_ceiling stable = none

pub record PredicatePolicy : Type 0 where
  pub authority_floor : AuthorityLevel
  pub default_ttl : Ttl
  pub unique : Bool
  pub volatility : Volatility
  pub max_ttl : Option Ttl

pub record PredicateRegistry : Type 0 where
  pub policies : Map (String × String) PredicatePolicy
  pub max_ttl : Ttl

abbrev pub empty_registry : PredicateRegistry
empty_registry = record { policies = []; max_ttl = duration_millis default_max_ttl_ms }

unfoldable pub register :
    PredicateRegistry
    → String
    → String
    → AuthorityLevel
    → Ttl
    → Bool
    → Volatility
    → PredicateRegistry
register registry subject_kind predicate floor default_ttl unique volatility = record registry {
  policies =
      insert (subject_kind, predicate)
        (record {
          authority_floor = floor;
          default_ttl = default_ttl;
          unique = unique;
          volatility = volatility;
          max_ttl = none;
        })
        registry.policies;
}

unfoldable pub coding_agent : PredicateRegistry
unfolding register
coding_agent =
    let database = register empty_registry "repo" "database" high never true stable in
    let test_command = register database "repo" "test_command" medium never true stable in
    let version = register test_command "dependency" "version" medium never true volatile in
    let status = register version "branch" "status" low (duration_millis 3600000) true volatile in
    register status "user" "preference" medium never true stable

unfoldable pub policy_for : PredicateRegistry → Subject → Predicate → Option PredicatePolicy
policy_for registry subject predicate = get (subject.kind, predicate) registry.policies

unfoldable pub with_max_ttl : PredicateRegistry → Ttl → PredicateRegistry
with_max_ttl registry max_ttl = record registry { max_ttl = max_ttl }

unfoldable pub set_predicate_max_ttl :
    PredicateRegistry → String → String → Option Ttl → PredicateRegistry
set_predicate_max_ttl registry subject_kind predicate max_ttl =
    elim (get (subject_kind, predicate) registry.policies) [
      | none ↦ registry
      | some policy ↦ record registry {
        policies =
            insert (subject_kind, predicate) (record policy { max_ttl = max_ttl })
              registry.policies;
      }
    ]

abbrev pub display_key : Subject → Predicate → String
display_key subject predicate = concat subject.kind (concat "." predicate)

-- What a lifetime claims.
abbrev pub claimed_ms : Ttl → TimestampMillis → Option ℕ
claimed_ms never anchor = none
claimed_ms (duration_millis duration) anchor = some duration
claimed_ms (expires_at at) anchor = some (u64_or_zero (saturating_sub at anchor))

unfoldable pub bounded_ttl_ms : FactEvent → Option ℕ
bounded_ttl_ms candidate =
    claimed_ms candidate.ttl (unwrap_or candidate.valid_from candidate.provenance.recorded_at)

unfoldable pub bounded_valid_to_ms : FactEvent → Option ℕ
bounded_valid_to_ms candidate = elim candidate.valid_to [
  | none ↦ none
  | some valid_to ↦ some (
      u64_or_zero (
        saturating_sub valid_to (
          unwrap_or (or candidate.valid_from candidate.observed_at)
            candidate.provenance.recorded_at)))
]

abbrev pub ceiling_ms : Ttl → Option ℕ
ceiling_ms (duration_millis duration) = some duration
ceiling_ms never = none
ceiling_ms (expires_at _) = none

abbrev pub is_never : Ttl → Bool
is_never never = true
is_never _ = false

unfoldable pub apply_policy_defaults : PredicateRegistry → FactEvent → FactEvent
apply_policy_defaults registry candidate =
    elim (policy_for registry candidate.subject candidate.predicate) [
      | none ↦ candidate
      | some policy ↦
          if is_asserted candidate.kind && is_never candidate.ttl
          then record candidate { ttl = policy.default_ttl }
          else candidate
    ]

unfoldable pub check_floor : Option PredicatePolicy → FactEvent → Result Fault (Unit {0})
check_floor none candidate = ok tt
check_floor (some policy) candidate =
    if is_asserted candidate.kind && level_lt candidate.authority.level policy.authority_floor
    then err (
        fails (
          below_authority_floor (display_key candidate.subject candidate.predicate)
            policy.authority_floor candidate.authority.level))
    else ok tt

-- `a > b`, where both are given.
abbrev pub exceeds : Option ℕ → Option ℕ → Option (ℕ × ℕ)
exceeds (some reach) (some ceiling) = if ltb ceiling reach then some (reach, ceiling) else none
exceeds _ _ = none

abbrev pub within : FactEvent → Option (ℕ × ℕ) → Result Fault (Unit {0})
within candidate none = ok tt
within candidate (some (reach, ceiling)) =
    err (
      fails
        (ttl_ceiling_exceeded (display_key candidate.subject candidate.predicate) reach ceiling))

-- The ceiling that a policy sets on purpose: its own, or that of its volatility.
abbrev pub policy_ceiling : Option PredicatePolicy → Option Ttl
policy_ceiling none = none
policy_ceiling (some policy) = or policy.max_ttl (retention_ceiling policy.volatility)

abbrev pub deliberate_ms : Option Ttl → Option ℕ
deliberate_ms none = none
deliberate_ms (some ceiling) = ceiling_ms ceiling

unfoldable pub check_ceilings :
    PredicateRegistry → Option PredicatePolicy → FactEvent → Result Fault (Unit {0})
check_ceilings registry policy candidate =
    if is_asserted candidate.kind
    then within candidate (
        exceeds (bounded_ttl_ms candidate)
          (ceiling_ms (unwrap_or (policy_ceiling policy) registry.max_ttl)))
      >> within candidate
          (exceeds (bounded_valid_to_ms candidate) (deliberate_ms (policy_ceiling policy)))
    else ok tt

abbrev pub rivals : FactId → TimestampMillis → List FactState → Bool
rivals fact now states =
    any (λ state. not (state.fact_id == fact))
      (keep (λ state. not (is_expired_at state now)) states)

module _ (scan : EventFilter → Result Fault (List FactEvent)) where
  unfoldable pub check_rivals : FactEvent → TimestampMillis → Result Fault (Unit {0})
  check_rivals candidate now = do
    events ← scan (record {
      fact_id = none;
      subject = some candidate.subject;
      predicate = some candidate.predicate;
      after_sequence = none;
      limit = none;
    })
    subject ← map_err (λ e. fails (replay e)) (replay_subject events)
    if rivals candidate.fact_id now (believed subject)
        then err (fails (uniqueness_violation (display_key candidate.subject candidate.predicate)))
        else ok tt

  unfoldable pub check_unique :
      Option PredicatePolicy → FactEvent → TimestampMillis → Result Fault (Unit {0})
  check_unique none candidate now = ok tt
  check_unique (some policy) candidate now =
      if policy.unique && is_asserted candidate.kind then check_rivals candidate now else ok tt

  unfoldable pub enforce_policy :
      PredicateRegistry → FactEvent → TimestampMillis → Result Fault (Unit {0})
  enforce_policy registry candidate now =
      let policy = policy_for registry candidate.subject candidate.predicate in
      check_floor policy candidate
      >> check_ceilings registry policy candidate
      >> check_unique policy candidate now

abbrev pub same_shape : FactState → FactState → Bool
same_shape a b = subject_eq a.subject b.subject && a.predicate == b.predicate

-- What contested facts of a group account for: themselves and what contradicts them.
abbrev pub accounted : List FactState → List FactId
accounted [] = []
accounted (state ∷ group) =
    let rest = accounted group in
    if lifecycle_eq state.lifecycle FactLifecycle.contested
    then state.fact_id ∷ (state.contradicted_by ++ rest)
    else rest

abbrev pub is_unique_for : PredicateRegistry → FactState → Bool
is_unique_for registry state =
    is_some_and (policy_for registry state.subject state.predicate) (λ policy. policy.unique)

-- A group of two or more with a fact that is not accounted for.
abbrev pub is_split : List FactState → Bool
is_split group =
    ltb 1 (length group) && any (λ state. not (has state.fact_id (accounted group))) group

-- The loop over the fresh facts; `checked` has a fact of each shape that was met.
unfoldable pub check_groups :
    PredicateRegistry → List FactState → List FactState → List FactState → Result Fault (Unit {0})
check_groups registry fresh checked [] = ok tt
check_groups registry fresh checked (state ∷ states) =
    elim (any (λ other. same_shape other state) checked) [
      | true ↦ check_groups registry fresh checked states
      | false ↦
          if is_unique_for registry state && is_split (keep (λ other. same_shape other state) fresh)
          then err (fails (uniqueness_violation (display_key state.subject state.predicate)))
          else check_groups registry fresh (state ∷ checked) states
    ]

unfoldable pub validate_unique_projection :
    PredicateRegistry → List FactEvent → TimestampMillis → Result Fault (Unit {0})
validate_unique_projection registry events now = do
  subject ← map_err (λ e. fails (replay e)) (replay_subject events)
  let fresh = keep (λ state. not (is_expired_at state now)) (believed subject)
  check_groups registry fresh [] fresh
