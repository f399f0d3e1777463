-- ===== src/Ops/Revise.antt =====
-- `op_supersede` of crates/dent8-cli/src/ops.rs from the store that it has loaded to the store that it would commit,
-- with what it builds on the way. The clock, the reserved number and the configuration are arguments.
use Prim.Native.String.{◌++◌ as concat}
use dent.Prelude.{
  ℕ, suc, ◌+◌, String, Bool, ◌&&◌, Option, none, some, List, [], ◌∷◌, ltb, if◌then◌else◌,
  is_some_and, any, length, Result, ok, err, map_err, ◌>>=◌, ◌>>◌,
}
use dent.Prelude.Decimal.{to_decimal}
use dent.Model.{
  FactId, FactEvent, FactEventKind, asserted, superseded, user_correction, FactValue, text,
  AuthorityLevel, level_lt, level_eq, Ttl, never, duration_millis, TimestampMillis, user_statement,
  new_id, new_subject, new_predicate,
}
use dent.State.{FactState, earned_entrenchment_at_or_above}
use dent.Replay.{replay_fact}
use dent.Hash.{Codec}
use dent.Store.{Fault}
use dent.Memory.{InMemoryEventStore, load_fact_events, append}
use dent.Receipts.{believed_fact_ids}
use dent.Registry.{PredicatePolicy, coding_agent, policy_for, apply_policy_defaults}
use dent.ContentCheck.{ContentCheckConfig, ScanError, WireVerdict, enforce}
use dent.Status.{ErrorCode, for_store_error}
use dent.Ops.{OpError, invalid, refused}

-- A text that is refused where it is blank.
abbrev pub named : String → String → Result String String
named kind value = map_err (λ e. kind) (new_id kind value)

unfoldable pub build_event :
    String
    → String
    → String
    → String
    → String
    → FactEventKind
    → Option FactValue
    → String
    → AuthorityLevel
    → TimestampMillis
    → Result String FactEvent
build_event event_id fact_id subject_kind subject_key predicate kind value source authority now = do
  event ← named "event id" event_id
  fact ← named "fact id" fact_id
  subject ← map_err (λ e. "subject") (new_subject subject_kind subject_key)
  relation ← map_err (λ e. "predicate") (new_predicate predicate)
  origin ← named "source" source
  ok (record {
    event_id = event;
    fact_id = fact;
    kind = kind;
    subject = subject;
    predicate = relation;
    value = value;
    confidence = 900;
    authority = record { level = authority; issuer = none; scope = none };
    ttl = never;
    provenance = record {
      source = origin;
      actor = "actor:cli";
      tool = some "dent8";
      run_id = none;
      input_digest = none;
      recorded_at = now;
      attestation = none;
    };
    evidence =
        record {
          id = "evidence:cli";
          kind = user_statement;
          locator = concat "cli:" source;
          digest = none;
          summary = none;
        }
        ∷ [];
    observed_at = none;
    valid_from = none;
    valid_to = none;
  })

abbrev pub event_name : ℕ → String
event_name seq = concat "event:" (to_decimal seq)

pub record Validity : Type 0 where
  pub from : Option TimestampMillis
  pub to : Option TimestampMillis
  pub ttl : Option ℕ

abbrev pub ttl_or : Option ℕ → Ttl → Ttl
ttl_or none ttl = ttl
ttl_or (some ttl_ms) ttl = duration_millis ttl_ms

-- `Validity::stamp`
unfoldable pub stamp_validity : Validity → FactEvent → FactEvent
stamp_validity validity event = record event {
  valid_from = validity.from;
  valid_to = validity.to;
  ttl = ttl_or validity.ttl event.ttl;
}

abbrev pub replacement_id : String → String → String → ℕ → String
replacement_id subject_kind subject_key predicate seq = concat "fact:" (
    concat subject_kind (
      concat ":"
        (concat subject_key (concat ":" (concat predicate (concat ":" (to_decimal seq)))))))

module _ (subject_kind subject_key predicate source : String) (authority : AuthorityLevel)
    (now : TimestampMillis) where
  -- One supersession for each incumbent, numbered from `seq`.
  unfoldable pub build_supersessions : String → ℕ → List FactId → Result String (List FactEvent)
  build_supersessions replacement seq [] = ok []
  build_supersessions replacement seq (incumbent ∷ incumbents) = do
    by ← named "fact id" replacement
    event ←
        build_event (event_name seq) incumbent subject_kind subject_key predicate
          (superseded by user_correction) none source authority now
    events ← build_supersessions replacement (suc seq) incumbents
    ok (event ∷ events)

  unfoldable pub build_replacement : ℕ → String → Result String FactEvent
  build_replacement seq new_value =
      build_event (event_name seq) (replacement_id subject_kind subject_key predicate seq)
        subject_kind subject_key predicate asserted (some (text new_value)) source authority now

  -- The replacement, and the supersessions behind it.
  unfoldable pub build_revision :
      ℕ → List FactId → String → Result String (FactEvent × List FactEvent)
  build_revision seq incumbents new_value = do
    replacement ← build_replacement seq new_value
    supersessions ←
        build_supersessions (replacement_id subject_kind subject_key predicate seq) (seq + 1)
          incumbents
    ok (replacement, supersessions)

abbrev pub below_floor : Option PredicatePolicy → AuthorityLevel → Bool
below_floor policy authority = is_some_and policy (λ p. level_lt authority p.authority_floor)

abbrev pub clear_floor : Option PredicatePolicy → AuthorityLevel → Result OpError (Unit {0})
clear_floor policy authority =
    if below_floor policy authority
    then err (refused ErrorCode.below_authority_floor "REJECTED")
    else ok tt

-- An incumbent at the level of the revision that has earned more than one source's entrenchment.
abbrev pub resists : AuthorityLevel → Option FactState → Bool
resists authority state = is_some_and state (λ s.
    level_eq s.authority.level authority
    && ltb 1 (earned_entrenchment_at_or_above s s.authority.level))

-- `.ok().and_then(|stream| replay_fact(&stream).ok().flatten())`
abbrev pub flatten_ok {ℓ κ} : {E : Type ℓ} {A : Type κ} → Result E (Option A) → Option A
flatten_ok (ok a) = a
flatten_ok (err e) = none

unfoldable pub state_of : InMemoryEventStore → FactId → Option FactState
state_of store incumbent = elim (load_fact_events store incumbent) [
  | ok stream ↦ flatten_ok (replay_fact stream)
  | err e ↦ none
]

unfoldable pub check_entrenchment :
    Bool → InMemoryEventStore → AuthorityLevel → List FactId → Result OpError (Unit {0})
check_entrenchment enabled store authority incumbents =
    if enabled && any (λ f. resists authority (state_of store f)) incumbents
    then err (refused ErrorCode.weaker_entrenchment "unearned supersession")
    else ok tt

abbrev pub code_of : Fault → ErrorCode
code_of (Fault.fails e) = for_store_error e
code_of (Fault.panics message) = ErrorCode.operation_failed

-- `enforce_content_check` of crates/dent8-cli/src/main.rs, with the configured scanner, if any.
unfoldable pub enforce_content_check :
    (ContentCheckConfig → FactEvent → Result ScanError String)
    → (String → Result String WireVerdict)
    → Option ContentCheckConfig
    → List FactEvent
    → Result OpError (List FactEvent)
enforce_content_check run_scanner from_str none events = ok events
enforce_content_check run_scanner from_str (some config) events =
    map_err (λ refusal. refused ErrorCode.content_rejected "REJECTED")
      (enforce run_scanner from_str config events)

abbrev pub some_incumbents : List FactId → Result OpError (List FactId)
some_incumbents [] = err (refused ErrorCode.rejected "nothing to supersede")
some_incumbents (f ∷ fs) = ok (f ∷ fs)

module _ (c : Codec) where
  -- The loop that applies the events to the store in memory, up to the first refusal.
  unfoldable pub append_all :
      InMemoryEventStore → List FactEvent → Result OpError InMemoryEventStore
  append_all store [] = ok store
  append_all store (event ∷ events) = do
    (next, receipt) ← map_err (λ e. refused (code_of e) "REJECTED") (append c store event)
    append_all next events

  -- From the incumbents on. `check` is the content check of the configuration.
  unfoldable pub revise :
      (List FactEvent → Result OpError (List FactEvent))
      → Bool
      → InMemoryEventStore
      → ℕ
      → List FactId
      → String
      → String
      → String
      → String
      → AuthorityLevel
      → String
      → Validity
      → TimestampMillis
      → Result OpError (InMemoryEventStore × List FactEvent)
  revise check gate store seq incumbents subject_kind subject_key predicate new_value authority
        source validity now =
      do
        (replacement, supersessions) ←
            map_err (λ e. invalid ErrorCode.invalid_argument "invalid supersession")
              (build_revision subject_kind subject_key predicate source authority now seq incumbents
                new_value)
        events ← check (
            apply_policy_defaults coding_agent (stamp_validity validity replacement)
            ∷ supersessions)
        check_entrenchment gate store authority incumbents
        next ← append_all store events
        ok (next, events)

  -- `op_supersede` behind the reading of its store. `reserve` answers with the first number of a range of a length.
  unfoldable pub supersede :
      (ℕ → Result OpError ℕ)
      → (List FactEvent → Result OpError (List FactEvent))
      → Bool
      → InMemoryEventStore
      → String
      → String
      → String
      → String
      → AuthorityLevel
      → String
      → Validity
      → TimestampMillis
      → Result OpError (InMemoryEventStore × List FactEvent)
  supersede reserve check gate store subject_kind subject_key predicate new_value authority source
        validity now =
      do
        subject ←
            map_err (λ e. invalid ErrorCode.invalid_argument "invalid subject")
              (new_subject subject_kind subject_key)
        relation ←
            map_err (λ e. invalid ErrorCode.invalid_argument "invalid predicate")
              (new_predicate predicate)
        believed ←
            map_err (λ e. invalid ErrorCode.invalid_argument "believed facts")
              (believed_fact_ids store subject relation)
        incumbents ← some_incumbents believed
        clear_floor (policy_for coding_agent subject relation) authority
        seq ← reserve (1 + length incumbents)
        revise check gate store seq incumbents subject_kind subject_key predicate new_value
            authority source validity now
