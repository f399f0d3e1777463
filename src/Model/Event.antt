-- ===== src/Model/Event.antt =====
-- The events of crates/dent8-core/src/model.rs: what a writer records about a fact, and when it is well formed.
use dent.Prelude.{
  String, Bool, true, false, ◌≡◌, ◌↔◌, Option, some, List, [], ◌∷◌, arith, ◌==◌, eq_iff,
  if◌then◌else◌, is_none, Result, ok, err,
}
use dent.Prelude.Int.{leb_ℤ}
use dent.Model.Ids.{
  FactId, FactEventId, SourceId, ActorId, EvidenceId, TimestampMillis, Subject, Predicate,
  ValidationError, empty_field, missing_fact_value, missing_evidence, invalid_validity_interval,
  is_blank, new_id,
}
use dent.Model.Level.{Authority, Confidence}
use dent.Model.Lifetime.{Ttl}

-- The text of a `CanonicalJson`.
pub data FactValue : Type 0 where
  text : String → FactValue
  json : String → FactValue
  redacted : FactValue

-- The derived `PartialEq`.
abbrev pub value_eq : FactValue → FactValue → Bool
value_eq (text a) (text b) = a == b
value_eq (json a) (json b) = a == b
value_eq redacted redacted = true
value_eq _ _ = false

pub value_eq_iff : (a b : FactValue) → (value_eq a b ≡ true) ↔ (a ≡ b)
value_eq_iff (text a) (text b) = (ground (arith, eq_iff a b), ground (arith, eq_iff a b))
value_eq_iff (json a) (json b) = (ground (arith, eq_iff a b), ground (arith, eq_iff a b))
value_eq_iff redacted b = (ground arith, ground arith)
value_eq_iff a b = (ground arith, ground arith)

pub data AttestationAlgorithm : Type 0 where
  ed25519 : AttestationAlgorithm

pub record WriteAttestation : Type 0 where
  pub algorithm : AttestationAlgorithm
  pub public_key : String
  pub signature : String

pub record Provenance : Type 0 where
  pub source : SourceId
  pub actor : ActorId
  pub tool : Option String
  pub run_id : Option String
  pub input_digest : Option String
  pub recorded_at : TimestampMillis
  pub attestation : Option WriteAttestation

pub data EvidenceKind : Type 0 where
  direct_observation tool_output file_span user_statement derived_summary external_document :
      EvidenceKind
  derived_from : EvidenceKind

pub record Evidence : Type 0 where
  pub id : EvidenceId
  pub kind : EvidenceKind
  pub locator : String
  pub digest : Option String
  pub summary : Option String

pub data ContradictionBasis : Type 0 where
  same_predicate_different_value mutually_exclusive_predicate : ContradictionBasis
  authority_challenge freshness_challenge : ContradictionBasis

pub data SupersessionReason : Type 0 where
  newer_observation higher_authority user_correction schema_migration : SupersessionReason

pub data ExpirationReason : Type 0 where
  ttl_elapsed policy_retention : ExpirationReason

pub data RetractionReason : Type 0 where
  source_invalidated poisoning_detected user_deleted policy_violation : RetractionReason

pub data ChallengeKind : Type 0 where
  supersession contradiction retraction expiration : ChallengeKind

pub data ChallengeRejection : Type 0 where
  insufficient_authority laundered_authority canonical_contradiction : ChallengeRejection
  weaker_corroboration weaker_entrenchment : ChallengeRejection

pub data FactEventKind : Type 0 where
  asserted : FactEventKind
  reinforced : FactId → FactEventKind
  contradicted : FactId → ContradictionBasis → FactEventKind
  superseded : FactId → SupersessionReason → FactEventKind
  expired : ExpirationReason → FactEventKind
  retracted : RetractionReason → FactEventKind
  retrieved : String → FactEventKind
  used_in_decision : String → FactEventKind
  challenge_rejected : ChallengeKind → Option FactId → ChallengeRejection → FactEventKind

abbrev pub kind_name : FactEventKind → String
kind_name asserted = "fact.asserted"
kind_name (reinforced _) = "fact.reinforced"
kind_name (contradicted _ _) = "fact.contradicted"
kind_name (superseded _ _) = "fact.superseded"
kind_name (expired _) = "fact.expired"
kind_name (retracted _) = "fact.retracted"
kind_name (retrieved _) = "fact.retrieved"
kind_name (used_in_decision _) = "fact.used_in_decision"
kind_name (challenge_rejected _ _ _) = "fact.challenge_rejected"

abbrev pub is_lifecycle_terminal : FactEventKind → Bool
is_lifecycle_terminal (superseded _ _) = true
is_lifecycle_terminal (expired _) = true
is_lifecycle_terminal (retracted _) = true
is_lifecycle_terminal _ = false

abbrev pub is_asserted : FactEventKind → Bool
is_asserted asserted = true
is_asserted _ = false

pub record FactEvent : Type 0 where
  pub event_id : FactEventId
  pub fact_id : FactId
  pub kind : FactEventKind
  pub subject : Subject
  pub predicate : Predicate
  pub value : Option FactValue
  pub confidence : Confidence
  pub authority : Authority
  pub ttl : Ttl
  pub provenance : Provenance
  pub evidence : List Evidence
  pub observed_at : Option TimestampMillis
  pub valid_from : Option TimestampMillis
  pub valid_to : Option TimestampMillis

-- The sources that the evidence of the event names, in order. A blank locator is skipped.
edges_of : List Evidence → List FactId
edges_of [] = []
edges_of (item ∷ rest) =
    let further = edges_of rest in
    elim item.kind [
      | derived_from ↦ elim (new_id "FactId" item.locator) [
        | ok id ↦ id ∷ further
        | err _ ↦ further
      ]
      | _ ↦ further
    ]

unfoldable pub dependency_edges : FactEvent → List FactId
unfolding edges_of
dependency_edges event = edges_of event.evidence

-- `to <= from`, where both are given.
abbrev pub interval_is_inverted : Option TimestampMillis → Option TimestampMillis → Bool
interval_is_inverted (some from) (some to) = leb_ℤ to from
interval_is_inverted _ _ = false

abbrev pub is_empty {ℓ} : {A : Type ℓ} → List A → Bool
is_empty [] = true
is_empty (_ ∷ _) = false

validate_kind : FactEvent → FactEventKind → Result ValidationError (Unit {0})
validate_kind event asserted =
    if is_none event.value
    then err missing_fact_value
    else if is_empty event.evidence
    then err missing_evidence
    else ok tt
validate_kind event (retrieved purpose) =
    if is_blank purpose then err (empty_field "retrieval.purpose") else ok tt
validate_kind event (used_in_decision decision_id) =
    if is_blank decision_id then err (empty_field "decision_id") else ok tt
validate_kind event _ = ok tt

unfoldable pub validate : FactEvent → Result ValidationError (Unit {0})
unfolding validate_kind
validate event =
    if interval_is_inverted event.valid_from event.valid_to
    then err invalid_validity_interval
    else validate_kind event event.kind
