-- ===== src/Ops.antt =====
-- The operations of crates/dent8-cli/src/ops.rs: their errors, the retry of a write, and which refusals count as a
-- challenge that the incumbent survived. Error codes are those of crates/dent8-cli/src/status.rs.
pub mod Retry
pub mod Challenges
pub mod Revise
pub mod Gate
pub mod Ended
pub mod Incumbents
pub mod Close
pub mod Superseded
pub mod Supersede
use dent.Prelude.{ℕ, zero, suc, ◌+◌, String, Option, none, some, Result, ok, err, if◌then◌else◌}
use dent.Model.{
  FactId, FactEvent, FactEventKind, superseded, contradicted, retracted, expired, AuthorityLevel,
  ChallengeKind, supersession, contradiction, retraction, expiration, ChallengeRejection,
}
use dent.State.{
  TransitionError, invalid_event, missing_initial_assertion, duplicate_assertion, fact_id_mismatch,
  fact_shape_mismatch, reinforcement_value_mismatch, terminal_state_mutation,
  insufficient_authority, canonical_contradiction,
}
use dent.Status.{ErrorCode}
use dent.Store.{
  StoreError, conflict, unavailable, corrupt_event, canonicalization, rejected, laundered_authority,
  unbacked_supersession, below_authority_floor, uniqueness_violation, ttl_ceiling_exceeded, replay,
}

-- A malformed request, a refused one, and a conflict that may be tried again.
pub data OpError : Type 0 where
  invalid : ErrorCode → String → OpError
  refused : ErrorCode → String → OpError
  contended : String → OpError

abbrev pub error_code : OpError → ErrorCode
error_code (invalid code message) = code
error_code (refused code message) = code
error_code (contended message) = ErrorCode.write_conflict

pub data WriteError : Type 0 where
  conflicts : String → WriteError
  other : String → WriteError

abbrev pub reserve_error_to_op : WriteError → OpError
reserve_error_to_op (conflicts message) = contended message
reserve_error_to_op (other message) = refused ErrorCode.rejected "could not reserve event ids"

abbrev pub write_error_to_op : WriteError → OpError
write_error_to_op (conflicts message) = contended message
write_error_to_op (other message) = refused ErrorCode.commit_failed "could not commit the write"

-- What a survived challenge records.
pub record Challenge : Type 0 where
  pub challenge : ChallengeKind
  pub by : Option FactId
  pub rejection : ChallengeRejection
  pub effective : AuthorityLevel

unfoldable pub lost_supersession : FactId → AuthorityLevel → StoreError → Option Challenge
lost_supersession by stated (rejected (insufficient_authority incumbent challenger)) =
    some (record {
      challenge = supersession;
      by = some by;
      rejection = ChallengeRejection.insufficient_authority;
      effective = stated;
    })
lost_supersession by stated (laundered_authority incumbent challenger) = some (record {
  challenge = supersession;
  by = some by;
  rejection = ChallengeRejection.laundered_authority;
  effective = challenger;
})
lost_supersession by stated error = none

unfoldable pub lost_contradiction : FactId → AuthorityLevel → StoreError → Option Challenge
lost_contradiction by stated (rejected canonical_contradiction) = some (record {
  challenge = contradiction;
  by = some by;
  rejection = ChallengeRejection.canonical_contradiction;
  effective = stated;
})
lost_contradiction by stated error = none

-- A retraction or an expiration.
unfoldable pub lost_ending : ChallengeKind → AuthorityLevel → StoreError → Option Challenge
lost_ending challenge stated (rejected (insufficient_authority incumbent challenger)) =
    some (record {
      challenge = challenge;
      by = none;
      rejection = ChallengeRejection.insufficient_authority;
      effective = stated;
    })
lost_ending challenge stated error = none

unfoldable pub classify_kind : FactEventKind → AuthorityLevel → StoreError → Option Challenge
classify_kind (superseded by reason) stated error = lost_supersession by stated error
classify_kind (contradicted by basis) stated error = lost_contradiction by stated error
classify_kind (retracted reason) stated error = lost_ending retraction stated error
classify_kind (expired reason) stated error = lost_ending expiration stated error
classify_kind kind stated error = none

unfoldable pub classify_challenge : FactEvent → StoreError → Option Challenge
classify_challenge candidate error = classify_kind candidate.kind candidate.authority.level error

abbrev pub max_attempts : ℕ
max_attempts = 32

-- What the lease and the operation answer in the attempt of a number.
module _ (lease : ℕ → Result String (Unit {0})) (op : ℕ → Result OpError String) where
  unfoldable pub retry_from : ℕ → ℕ → Result OpError String
  retry_from zero attempt = err (refused ErrorCode.rejected "write conflict persisted")
  retry_from (suc left) attempt =
      let later = retry_from left (suc attempt) in
      elim (lease attempt) [
        | err message ↦ later
        | ok _ ↦ elim (op attempt) [
          | ok text ↦ ok text
          | err error ↦ elim error [
            | contended message ↦ later
            | invalid code message ↦ err (invalid code message)
            | refused code message ↦ err (refused code message)
          ]
        ]
      ]

  unfoldable pub with_write_retry : Result OpError String
  with_write_retry = retry_from max_attempts 0
