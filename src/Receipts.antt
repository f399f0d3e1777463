-- ===== src/Receipts.antt =====
-- What the store of crates/dent8-store/src/memory.rs tells a reader: `explain` and its relatives.
pub mod Grounded
pub mod Believed
use dent.Prelude.{
  ℕ, ◌≡◌, refl, sym, ap, ◌∙◌, Bool, true, false, not, ◌&&◌, Option, none, some, List, [], ◌∷◌, map,
  arith, if◌then◌else◌, get_elem?, last, find, or, Result, ok, err, map_err, ◌>>=◌, ok_injective,
  inl, inr, Result-cases, Option-cases, unwrap_or,
}
use dent.Prelude.Int.{leb_ℤ}
use dent.Prelude.Maps.{string_key, get, values}
use dent.Model.{FactId, Subject, Predicate, FactValue, AuthorityLevel, TimestampMillis}
use dent.State.{
  FactState, FactLifecycle, lifecycle_eq, is_fresh_at, is_not_yet_valid_at, is_expired_at,
  state_expires_at, corroboration, survived_challenge_count,
}
use dent.Replay.{replay_fact}
use dent.Hash.{Bytes, Codec}
use dent.Store.{Fault, fails, panics, replay, EventFilter}
use dent.Subject.{SubjectProjection, replay_subject, believed}
use dent.Memory.{
  InMemoryEventStore, StoredEvent, events_at, load_fact_events, scan_events, verify_chain,
}

pub record IntegrityReceipt : Type 0 where
  pub fact_id : FactId
  pub subject : Subject
  pub predicate : Predicate
  pub value : FactValue
  pub lifecycle : FactLifecycle
  pub authority : AuthorityLevel
  pub fresh : Bool
  pub not_yet_valid : Bool
  pub valid_from : Option TimestampMillis
  pub expires_at : Option TimestampMillis
  pub evidence_count : ℕ
  pub corroboration : ℕ
  pub survived_challenges : ℕ
  pub superseded_by : Option FactId
  pub contradicted_by : List FactId
  pub replay_position : ℕ
  pub event_hash : Bytes
  pub chain_verified : Bool

unfoldable pub receipt_for : FactState → StoredEvent → TimestampMillis → Bool → IntegrityReceipt
receipt_for state newest now verified = record {
  fact_id = state.fact_id;
  subject = state.subject;
  predicate = state.predicate;
  value = state.value;
  lifecycle = state.lifecycle;
  authority = state.authority.level;
  fresh = is_fresh_at state now;
  not_yet_valid = is_not_yet_valid_at state now;
  valid_from = state.valid_from;
  expires_at = state_expires_at state;
  evidence_count = state.evidence_count;
  corroboration = corroboration state;
  survived_challenges = survived_challenge_count state;
  superseded_by = state.superseded_by;
  contradicted_by = state.contradicted_by;
  replay_position = newest.global_sequence;
  event_hash = newest.event_hash;
  chain_verified = verified;
}

abbrev pub matching : Subject → Predicate → EventFilter
matching subject predicate = record {
  fact_id = none;
  subject = some subject;
  predicate = some predicate;
  after_sequence = none;
  limit = none;
}

-- The contested fact that has not expired, or else one that has not expired, or else any that is believed.
unfoldable pub preferred : SubjectProjection → TimestampMillis → Option FactState
preferred subject now =
    or
      (find
        (λ state.
          lifecycle_eq state.lifecycle FactLifecycle.contested && not (is_expired_at state now))
        (believed subject))
      (or (find (λ state. not (is_expired_at state now)) (believed subject))
        (find (λ state. true) (believed subject)))

-- `max_by_key(|state| state.updated_at)`, which answers with the last of the greatest.
unfoldable pub newest_of : Option FactState → List FactState → Option FactState
newest_of best [] = best
newest_of none (state ∷ states) = newest_of (some state) states
newest_of (some best) (state ∷ states) =
    newest_of (some (if leb_ℤ best.updated_at state.updated_at then state else best)) states

abbrev pub id_of : Option FactState → Option FactId
id_of none = none
id_of (some state) = some state.fact_id

unfoldable pub projection_of :
    InMemoryEventStore → Subject → Predicate → Result Fault SubjectProjection
projection_of store subject predicate = do
  events ← scan_events store (matching subject predicate)
  map_err (λ e. fails (replay e)) (replay_subject events)

unfoldable pub latest_fact_id :
    InMemoryEventStore → Subject → Predicate → TimestampMillis → Result Fault (Option FactId)
latest_fact_id store subject predicate now = do
  projection ← projection_of store subject predicate
  ok (id_of (or (preferred projection now) (newest_of none (values projection.facts))))

unfoldable pub believed_fact_ids :
    InMemoryEventStore → Subject → Predicate → Result Fault (List FactId)
believed_fact_ids store subject predicate = do
  projection ← projection_of store subject predicate
  ok (map (λ state. state.fact_id) (believed projection))

module _ (c : Codec) where
  -- The receipt of the fact whose events stand at the positions.
  unfoldable pub explain_at :
      InMemoryEventStore
      → List ℕ
      → ℕ
      → TimestampMillis
      → Bool
      → Result Fault (Option IntegrityReceipt)
  explain_at store indices newest now verify = do
    events ← events_at store.log indices
    current ← map_err (λ e. fails (replay e)) (replay_fact events)
    elim current [
      | none ↦ ok none
      | some state ↦ elim (get_elem? store.log newest) [
        | none ↦ err (panics "index out of bounds")
        | some stored ↦ ok (some (receipt_for state stored now (verify && verify_chain c store)))
      ]
    ]

  unfoldable pub explain_with :
      InMemoryEventStore → FactId → TimestampMillis → Bool → Result Fault (Option IntegrityReceipt)
  explain_with store fact now verify = elim (get fact store.by_fact) [
    | none ↦ ok none
    | some indices ↦ elim (last indices) [
      | none ↦ ok none
      | some newest ↦ explain_at store indices newest now verify
    ]
  ]

  unfoldable pub explain :
      InMemoryEventStore → FactId → TimestampMillis → Result Fault (Option IntegrityReceipt)
  explain store fact now = explain_with store fact now true

  abbrev pub explain_found :
      InMemoryEventStore
      → TimestampMillis
      → Bool
      → Option FactId
      → Result Fault (Option IntegrityReceipt)
  explain_found store now verify none = ok none
  explain_found store now verify (some fact) = explain_with store fact now verify

  unfoldable pub latest_freshness :
      InMemoryEventStore
      → Subject
      → Predicate
      → TimestampMillis
      → Result Fault (Option IntegrityReceipt)
  latest_freshness store subject predicate now =
      latest_fact_id store subject predicate now >>= explain_found store now false

  unfoldable pub explain_latest :
      InMemoryEventStore
      → Subject
      → Predicate
      → TimestampMillis
      → Result Fault (Option IntegrityReceipt)
  explain_latest store subject predicate now =
      latest_fact_id store subject predicate now >>= explain_found store now true

  unfoldable pub explain_subject :
      InMemoryEventStore
      → Subject
      → Predicate
      → TimestampMillis
      → Result Fault (Option IntegrityReceipt)
  explain_subject store subject predicate now = do
    projection ← projection_of store subject predicate
    explain_found store now true (id_of (preferred projection now))
