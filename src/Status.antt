-- ===== src/Status.antt =====
-- The error codes of crates/dent8-cli/src/status.rs, and the code of each error of a store.
use dent.Prelude.{String, ◌≡◌, refl, Option, some, List, [], ◌∷◌, ◌==◌, find}
use dent.State.{TransitionError}
use dent.Store.{StoreError}

pub data ErrorCode : Type 0 where
  invalid_argument rejected write_conflict : ErrorCode
  operation_failed unknown_tool invalid_event : ErrorCode
  missing_initial_assertion duplicate_assertion fact_id_mismatch : ErrorCode
  fact_shape_mismatch reinforcement_value_mismatch terminal_fact : ErrorCode
  insufficient_authority canonical_contradiction store_unavailable : ErrorCode
  corrupt_event replay_failed canonicalization_failed : ErrorCode
  laundered_authority unbacked_supersession below_authority_floor : ErrorCode
  uniqueness_violation ttl_ceiling_exceeded authority_ceiling : ErrorCode
  scope_violation identity_rejected unauthenticated_write : ErrorCode
  weaker_entrenchment content_rejected commit_failed : ErrorCode

unfoldable pub as_str : ErrorCode → String
as_str ErrorCode.invalid_argument = "invalid-argument"
as_str ErrorCode.rejected = "rejected"
as_str ErrorCode.write_conflict = "write-conflict"
as_str ErrorCode.operation_failed = "operation-failed"
as_str ErrorCode.unknown_tool = "unknown-tool"
as_str ErrorCode.invalid_event = "invalid-event"
as_str ErrorCode.missing_initial_assertion = "missing-initial-assertion"
as_str ErrorCode.duplicate_assertion = "duplicate-assertion"
as_str ErrorCode.fact_id_mismatch = "fact-id-mismatch"
as_str ErrorCode.fact_shape_mismatch = "fact-shape-mismatch"
as_str ErrorCode.reinforcement_value_mismatch = "reinforcement-value-mismatch"
as_str ErrorCode.terminal_fact = "terminal-fact"
as_str ErrorCode.insufficient_authority = "insufficient-authority"
as_str ErrorCode.canonical_contradiction = "canonical-contradiction"
as_str ErrorCode.store_unavailable = "store-unavailable"
as_str ErrorCode.corrupt_event = "corrupt-event"
as_str ErrorCode.replay_failed = "replay-failed"
as_str ErrorCode.canonicalization_failed = "canonicalization-failed"
as_str ErrorCode.laundered_authority = "laundered-authority"
as_str ErrorCode.unbacked_supersession = "unbacked-supersession"
as_str ErrorCode.below_authority_floor = "below-authority-floor"
as_str ErrorCode.uniqueness_violation = "uniqueness-violation"
as_str ErrorCode.ttl_ceiling_exceeded = "ttl-ceiling-exceeded"
as_str ErrorCode.authority_ceiling = "authority-ceiling"
as_str ErrorCode.scope_violation = "scope-violation"
as_str ErrorCode.identity_rejected = "identity-rejected"
as_str ErrorCode.unauthenticated_write = "unauthenticated-write"
as_str ErrorCode.weaker_entrenchment = "weaker-entrenchment"
as_str ErrorCode.content_rejected = "content-rejected"
as_str ErrorCode.commit_failed = "commit-failed"

abbrev pub all_codes : List ErrorCode
all_codes =
    ErrorCode.invalid_argument ∷ ErrorCode.rejected ∷ ErrorCode.write_conflict
    ∷ ErrorCode.operation_failed ∷ ErrorCode.unknown_tool ∷ ErrorCode.invalid_event
    ∷ ErrorCode.missing_initial_assertion ∷ ErrorCode.duplicate_assertion
    ∷ ErrorCode.fact_id_mismatch ∷ ErrorCode.fact_shape_mismatch
    ∷ ErrorCode.reinforcement_value_mismatch ∷ ErrorCode.terminal_fact
    ∷ ErrorCode.insufficient_authority ∷ ErrorCode.canonical_contradiction
    ∷ ErrorCode.store_unavailable ∷ ErrorCode.corrupt_event ∷ ErrorCode.replay_failed
    ∷ ErrorCode.canonicalization_failed ∷ ErrorCode.laundered_authority
    ∷ ErrorCode.unbacked_supersession ∷ ErrorCode.below_authority_floor
    ∷ ErrorCode.uniqueness_violation ∷ ErrorCode.ttl_ceiling_exceeded ∷ ErrorCode.authority_ceiling
    ∷ ErrorCode.scope_violation ∷ ErrorCode.identity_rejected ∷ ErrorCode.unauthenticated_write
    ∷ ErrorCode.weaker_entrenchment ∷ ErrorCode.content_rejected ∷ ErrorCode.commit_failed ∷ []

unfoldable pub from_wire : String → Option ErrorCode
from_wire token = find (λ code. as_str code == token) all_codes

unfoldable pub for_transition_error : TransitionError → ErrorCode
for_transition_error (TransitionError.invalid_event e) = ErrorCode.invalid_event
for_transition_error TransitionError.missing_initial_assertion = ErrorCode.missing_initial_assertion
for_transition_error TransitionError.duplicate_assertion = ErrorCode.duplicate_assertion
for_transition_error TransitionError.fact_id_mismatch = ErrorCode.fact_id_mismatch
for_transition_error TransitionError.fact_shape_mismatch = ErrorCode.fact_shape_mismatch
for_transition_error TransitionError.reinforcement_value_mismatch =
    ErrorCode.reinforcement_value_mismatch
for_transition_error (TransitionError.terminal_state_mutation lifecycle) = ErrorCode.terminal_fact
for_transition_error (TransitionError.insufficient_authority incumbent challenger) =
    ErrorCode.insufficient_authority
for_transition_error TransitionError.canonical_contradiction = ErrorCode.canonical_contradiction

unfoldable pub for_store_error : StoreError → ErrorCode
for_store_error (StoreError.conflict message) = ErrorCode.write_conflict
for_store_error (StoreError.unavailable message) = ErrorCode.store_unavailable
for_store_error (StoreError.corrupt_event message) = ErrorCode.corrupt_event
for_store_error (StoreError.replay error) = ErrorCode.replay_failed
for_store_error (StoreError.canonicalization message) = ErrorCode.canonicalization_failed
for_store_error (StoreError.rejected transition) = for_transition_error transition
for_store_error (StoreError.laundered_authority incumbent challenger) =
    ErrorCode.laundered_authority
for_store_error (StoreError.unbacked_supersession by) = ErrorCode.unbacked_supersession
for_store_error (StoreError.below_authority_floor predicate floor level) =
    ErrorCode.below_authority_floor
for_store_error (StoreError.uniqueness_violation predicate) = ErrorCode.uniqueness_violation
for_store_error (StoreError.ttl_ceiling_exceeded predicate claimed ceiling) =
    ErrorCode.ttl_ceiling_exceeded

-- A code that was sent as text is read back as itself.
pub from_wire-as_str : (code : ErrorCode) → from_wire (as_str code) ≡ some code
unfolding from_wire as_str
from_wire-as_str ErrorCode.invalid_argument = refl
from_wire-as_str ErrorCode.rejected = refl
from_wire-as_str ErrorCode.write_conflict = refl
from_wire-as_str ErrorCode.operation_failed = refl
from_wire-as_str ErrorCode.unknown_tool = refl
from_wire-as_str ErrorCode.invalid_event = refl
from_wire-as_str ErrorCode.missing_initial_assertion = refl
from_wire-as_str ErrorCode.duplicate_assertion = refl
from_wire-as_str ErrorCode.fact_id_mismatch = refl
from_wire-as_str ErrorCode.fact_shape_mismatch = refl
from_wire-as_str ErrorCode.reinforcement_value_mismatch = refl
from_wire-as_str ErrorCode.terminal_fact = refl
from_wire-as_str ErrorCode.insufficient_authority = refl
from_wire-as_str ErrorCode.canonical_contradiction = refl
from_wire-as_str ErrorCode.store_unavailable = refl
from_wire-as_str ErrorCode.corrupt_event = refl
from_wire-as_str ErrorCode.replay_failed = refl
from_wire-as_str ErrorCode.canonicalization_failed = refl
from_wire-as_str ErrorCode.laundered_authority = refl
from_wire-as_str ErrorCode.unbacked_supersession = refl
from_wire-as_str ErrorCode.below_authority_floor = refl
from_wire-as_str ErrorCode.uniqueness_violation = refl
from_wire-as_str ErrorCode.ttl_ceiling_exceeded = refl
from_wire-as_str ErrorCode.authority_ceiling = refl
from_wire-as_str ErrorCode.scope_violation = refl
from_wire-as_str ErrorCode.identity_rejected = refl
from_wire-as_str ErrorCode.unauthenticated_write = refl
from_wire-as_str ErrorCode.weaker_entrenchment = refl
from_wire-as_str ErrorCode.content_rejected = refl
from_wire-as_str ErrorCode.commit_failed = refl
