-- ===== src/Registry/Enforce.antt =====
-- What `enforce_policy` of crates/dent8-store/src/registry.rs lets through.
use dent.Prelude.{
  ℕ, ◌≤◌, ◌<◌, ◌≡◌, refl, ◌↔◌, ◌⊎◌, inl, inr, true, false, Option, none, some, List, arith, ltb,
  unwrap_or, Result, ok, err, ◌>>◌, Bool-cases, Result-cases, Option-cases,
}
use dent.Prelude.Int.{pos, ◌+ℤ◌, ◌≤ℤ◌, i64_max, IsI64}
use dent.Model.{
  FactEvent, is_asserted, rank, Ttl, never, expires_at, duration_millis, ttl_expires_at,
  TimestampMillis,
}
use dent.Prelude.{or}
use dent.Model.{FactEventKind, asserted}
use dent.State.{
  FactState, apply_event, apply_initial_event, initial_by_kind, initial_state, is_expired_at,
}
use dent.State.Inversion.{apply_initial, opening_asserts}
use dent.State.Freshness.{expired_iff}
use dent.Subject.{SubjectProjection, replay_subject, believed}
use dent.Store.{EventFilter, Fault}
use dent.Registry.{
  PredicatePolicy, PredicateRegistry, policy_for, claimed_ms, bounded_ttl_ms, bounded_valid_to_ms,
  ceiling_ms, policy_ceiling, deliberate_ms, exceeds, within, check_floor, check_ceilings,
  check_rivals, check_unique, enforce_policy, rivals,
}

abbrev pub MeetsFloor : Option PredicatePolicy → FactEvent → Type 0
MeetsFloor none e = Unit
MeetsFloor (some policy) e = rank policy.authority_floor ≤ rank e.authority.level

-- Where both are given, the first is not above the second.
abbrev pub IsBounded : Option ℕ → Option ℕ → Type 0
IsBounded (some reach) (some ceiling) = reach ≤ ceiling
IsBounded _ _ = Unit

abbrev pub matching : FactEvent → EventFilter
matching e = record {
  fact_id = none;
  subject = some e.subject;
  predicate = some e.predicate;
  after_sequence = none;
  limit = none;
}

floor_iff :
    (policy : Option PredicatePolicy) (e : FactEvent)
    → is_asserted e.kind ≡ true
    → (check_floor policy e ≡ ok tt) ↔ MeetsFloor policy e
unfolding check_floor
floor_iff none e h = (λ x. tt, λ x. refl)
floor_iff (some policy) e h = ground (arith, h)

within_iff :
    (e : FactEvent) (reach ceiling : Option ℕ)
    → (within e (exceeds reach ceiling) ≡ ok tt) ↔ IsBounded reach ceiling
within_iff e none c = (λ x. tt, λ x. refl)
within_iff e (some r) none = (λ x. tt, λ x. refl)
within_iff e (some r) (some c) = elim (Bool-cases (ltb c r)) [
  | inl above ↦ (λ h. absurd (ground (arith, above)), λ h. absurd (ground (arith, above)))
  | inr below ↦ (λ h. ground (arith, below), λ h. ground (arith, below))
]

both_iff : (m k : Result Fault (Unit {0})) → ((m >> k) ≡ ok tt) ↔ ((m ≡ ok tt) × (k ≡ ok tt))
both_iff (ok tt) k = (λ h. (refl, h), λ h. h.1)
both_iff (err x) k = (λ h. cc, λ h. cc)

ceilings_iff :
    (registry : PredicateRegistry) (policy : Option PredicatePolicy) (e : FactEvent)
    → is_asserted e.kind ≡ true
    → (check_ceilings registry policy e ≡ ok tt) ↔ (
        IsBounded
          (bounded_ttl_ms e)
          (ceiling_ms (unwrap_or (policy_ceiling policy) registry.max_ttl))
        × IsBounded (bounded_valid_to_ms e) (deliberate_ms (policy_ceiling policy)))
unfolding check_ceilings
ceilings_iff registry policy e h =
    let ttl =
      within_iff e (bounded_ttl_ms e)
        (ceiling_ms (unwrap_or (policy_ceiling policy) registry.max_ttl)) in
    let window = within_iff e (bounded_valid_to_ms e) (deliberate_ms (policy_ceiling policy)) in
    let both = both_iff (within e _) (within e _) in
    rw h (λ x. let b = both.0 x in (ttl.0 b.0, window.0 b.1), λ x. both.1 (ttl.1 x.0, window.1 x.1))

module _ (scan : EventFilter → Result Fault (List FactEvent)) where
  -- No other fact of the subject and predicate is believed and has not expired, where the policy asks for it.
  abbrev pub IsAlone : Option PredicatePolicy → FactEvent → TimestampMillis → Type 0
  IsAlone none e now = Unit
  IsAlone (some policy) e now =
      (policy.unique ≡ false)
      ⊎ ((events : List FactEvent) × (subject : SubjectProjection) × (scan (matching e) ≡ ok events)
          × (replay_subject events ≡ ok subject)
          × (rivals e.fact_id now (believed subject) ≡ false))

  rivals_iff :
      (e : FactEvent) (now : TimestampMillis)
      → (check_rivals scan e now ≡ ok tt) ↔ (
          (events : List FactEvent) × (subject : SubjectProjection) × (scan (matching e)
            ≡ ok events)
          × (replay_subject events ≡ ok subject)
          × (rivals e.fact_id now (believed subject) ≡ false))
  unfolding check_rivals
  rivals_iff e now = elim (Result-cases (scan (matching e))) [
    | inr (x, s) ↦ (λ h. absurd (ground (arith, s)), λ h. absurd (ground (arith, s, h.2)))
    | inl (events, s) ↦ elim (Result-cases (replay_subject events)) [
      | inr (x, r) ↦
          (λ h. absurd (ground (arith, s, r)), λ h. absurd (ground (arith, s, r, h.2, h.3)))
      | inl (subject, r) ↦ (
        λ h. (events, subject, s, r, ground (arith, s, r)),
        λ h. ground (arith, s, r, h.2, h.3, h.4),
      )
    ]
  ]

  unique_iff :
      (policy : Option PredicatePolicy) (e : FactEvent) (now : TimestampMillis)
      → is_asserted e.kind ≡ true
      → (check_unique scan policy e now ≡ ok tt) ↔ IsAlone policy e now
  unfolding check_unique
  unique_iff none e now h = (λ x. tt, λ x. refl)
  unique_iff (some policy) e now h = elim (Bool-cases policy.unique) [
    | inr shared ↦ (λ x. inl shared, λ x. ground (arith, shared))
    | inl unique ↦ (
      λ x. inr ((rivals_iff e now).0 (ground (arith, unique, h))),
      λ x. elim x [
        | inl shared ↦ absurd (ground (arith, unique, shared))
        | inr alone ↦ let k = (rivals_iff e now).1 alone in ground (arith, unique, h, k)
      ],
    )
  ]

  -- An assertion passes the policy exactly when it meets the floor of its predicate, its lifetime is within the
  -- ceiling that applies, the end of its validity is within the ceiling that the predicate's own policy sets, and no
  -- other fact stands where there may be one only.
  pub enforce_policy_iff :
      (registry : PredicateRegistry) (e : FactEvent) (now : TimestampMillis)
      → is_asserted e.kind ≡ true
      → (enforce_policy scan registry e now ≡ ok tt) ↔ (
          MeetsFloor (policy_for registry e.subject e.predicate) e
          × IsBounded (bounded_ttl_ms e) (
              ceiling_ms (
                unwrap_or
                  (policy_ceiling (policy_for registry e.subject e.predicate))
                  registry.max_ttl))
          × IsBounded
              (bounded_valid_to_ms e)
              (deliberate_ms (policy_ceiling (policy_for registry e.subject e.predicate)))
          × IsAlone (policy_for registry e.subject e.predicate) e now)
  unfolding enforce_policy
  enforce_policy_iff registry e now h =
      let policy = policy_for registry e.subject e.predicate in
      let floor = floor_iff policy e h in
      let ceilings = ceilings_iff registry policy e h in
      let unique = unique_iff policy e now h in
      let first =
        both_iff (check_floor policy e >> check_ceilings registry policy e)
          (check_unique scan policy e now) in
      let second = both_iff (check_floor policy e) (check_ceilings registry policy e) in
      (
        λ x.
            let a = first.0 x in
            let b = second.0 a.0 in let c = ceilings.0 b.1 in (floor.0 b.0, c.0, c.1, unique.0 a.1),
        λ x. first.1 (second.1 (floor.1 x.0, ceilings.1 (x.1, x.2)), unique.1 x.3),
      )

  -- Dissent is free: what is not an assertion passes the policy, whatever the registry says and the store holds.
  pub dissent_passes :
      (registry : PredicateRegistry) (e : FactEvent) (now : TimestampMillis)
      → is_asserted e.kind ≡ false
      → enforce_policy scan registry e now ≡ ok tt
  unfolding enforce_policy check_floor check_ceilings check_unique
  dissent_passes registry e now h =
      elim (Option-cases (policy_for registry e.subject e.predicate)) [
        | inl missing ↦ ground (arith, missing, h)
        | inr (policy, there) ↦ ground (arith, there, h)
      ]

reach_bounds :
    (ttl : Ttl) (anchor at : TimestampMillis) (ceiling : ℕ)
    → ceiling < i64_max
    → IsI64 anchor
    → IsBounded (claimed_ms ttl anchor) (some ceiling)
    → ttl_expires_at ttl anchor ≡ some at
    → at ≤ℤ (anchor +ℤ pos ceiling)
unfolding ttl_expires_at
reach_bounds never anchor at c small fits b h = cc
reach_bounds (expires_at t) anchor at c small fits b h = ground (arith, b)
reach_bounds (duration_millis d) anchor at c small fits b h = ground (arith, b)

-- The instant from which a lifetime is counted: for a duration the anchor of the fact's freshness, which is the start of
-- its validity, or else when it was observed, or else when it was recorded; for a fixed end the start of its validity,
-- or else when it was recorded.
abbrev pub counted_from : Ttl → FactEvent → TimestampMillis
counted_from (duration_millis d) e =
    unwrap_or (or e.valid_from e.observed_at) e.provenance.recorded_at
counted_from ttl e = unwrap_or e.valid_from e.provenance.recorded_at

counted_reach :
    (ttl : Ttl) (e : FactEvent) (at : TimestampMillis) (ceiling : ℕ)
    → ceiling < i64_max
    → IsI64 (counted_from ttl e)
    → IsBounded (claimed_ms ttl (unwrap_or e.valid_from e.provenance.recorded_at)) (some ceiling)
    → ttl_expires_at ttl (unwrap_or (or e.valid_from e.observed_at) e.provenance.recorded_at)
      ≡ some at
    → at ≤ℤ (counted_from ttl e +ℤ pos ceiling)
unfolding ttl_expires_at
counted_reach never e at c small fits b h = cc
counted_reach (expires_at t) e at c small fits b h =
    reach_bounds (expires_at t) (unwrap_or e.valid_from e.provenance.recorded_at) at c small fits b
      h
counted_reach (duration_millis d) e at c small fits b h =
    reach_bounds (duration_millis d)
      (unwrap_or (or e.valid_from e.observed_at) e.provenance.recorded_at) at c small fits b h

opens_kind :
    (e : FactEvent) (k : FactEventKind) (s : FactState)
    → initial_by_kind e k ≡ ok s
    → (s.ttl ≡ e.ttl)
      × (s.freshness_anchor ≡ unwrap_or (or e.valid_from e.observed_at) e.provenance.recorded_at)
unfolding initial_by_kind initial_state
opens_kind e asserted s h = ground arith
opens_kind e k s h = cc

opens :
    (e : FactEvent) (s : FactState)
    → apply_event none e ≡ ok s
    → (s.ttl ≡ e.ttl)
      × (s.freshness_anchor ≡ unwrap_or (or e.valid_from e.observed_at) e.provenance.recorded_at)
unfolding apply_initial_event
opens e s h = opens_kind e e.kind s (apply_initial e h)

-- The fact that an assertion opens, where the assertion passes the policy under a ceiling shorter than an `i64` holds
-- and its lifetime ends, is expired from the ceiling on, counted for a duration from the anchor of the fact's freshness
-- and for a fixed end from the start of its validity or the time of the record.
pub enforced_lifetime_bounds :
    (scan : EventFilter → Result Fault (List FactEvent)) (registry : PredicateRegistry)
    (e : FactEvent) (s : FactState) (now at later : TimestampMillis) (ceiling : ℕ)
    → enforce_policy scan registry e now ≡ ok tt
    → ceiling_ms
        (unwrap_or (policy_ceiling (policy_for registry e.subject e.predicate)) registry.max_ttl)
      ≡ some ceiling
    → ceiling < i64_max
    → IsI64 (counted_from e.ttl e)
    → apply_event none e ≡ ok s
    → ttl_expires_at s.ttl s.freshness_anchor ≡ some at
    → (counted_from e.ttl e +ℤ pos ceiling) ≤ℤ later
    → is_expired_at s later ≡ true
unfolding bounded_ttl_ms
enforced_lifetime_bounds scan registry e s now at later ceiling passed is_ceiling small fits opened
      ends le =
    let allowed = (enforce_policy_iff scan registry e now (opening_asserts e opened)).0 passed in
    let (lives, anchored) = opens e s opened in
    let bound =
      counted_reach e.ttl e at ceiling small fits (rw is_ceiling at allowed.1)
        (rw (lives, anchored) at ends) in
    (expired_iff s later).1 (inl (rw ends (omega arith)))
