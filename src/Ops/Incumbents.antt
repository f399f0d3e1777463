-- ===== src/Ops/Incumbents.antt =====
-- `op_retract`, `op_reinforce` and `op_expire` of crates/dent8-cli/src/ops.rs, with `build_per_incumbent`: one event for
-- each fact that is believed, from the loaded store to the store that they would commit.
use dent.Prelude.{ℕ, suc, String, none, List, [], ◌∷◌, length, Result, ok, map_err, ◌>>=◌}
use dent.Model.{
  FactId, FactEvent, FactEventKind, reinforced, expired, retracted, policy_retention, user_deleted,
  AuthorityLevel, TimestampMillis, new_subject, new_predicate,
}
use dent.Hash.{Codec}
use dent.Memory.{InMemoryEventStore}
use dent.Receipts.{believed_fact_ids}
use dent.Status.{ErrorCode}
use dent.Ops.{OpError, invalid}
use dent.Ops.Revise.{build_event, event_name, append_all, some_incumbents}

module _ (subject_kind subject_key predicate source : String) (authority : AuthorityLevel)
    (now : TimestampMillis) where
  -- The events of the incumbents, numbered from `seq`.
  unfoldable pub build_each :
      (FactId → FactEventKind) → ℕ → List FactId → Result String (List FactEvent)
  build_each kind_for seq [] = ok []
  build_each kind_for seq (incumbent ∷ incumbents) = do
    event ←
        build_event (event_name seq) incumbent subject_kind subject_key predicate
          (kind_for incumbent) none source authority now
    events ← build_each kind_for (suc seq) incumbents
    ok (event ∷ events)

  abbrev pub build_retractions : ℕ → List FactId → Result String (List FactEvent)
  build_retractions seq incumbents = build_each (λ _. retracted user_deleted) seq incumbents

-- What the operations share. `build` makes the events from the first number and the incumbents.
module _ (c : Codec) (reserve : ℕ → Result OpError ℕ) (store : InMemoryEventStore)
    (subject_kind subject_key predicate : String) where
  unfoldable pub write_each :
      (ℕ → List FactId → Result String (List FactEvent))
      → Result OpError (InMemoryEventStore × List FactEvent)
  write_each build = do
    subject ←
        map_err (λ e. invalid ErrorCode.invalid_argument "invalid subject")
          (new_subject subject_kind subject_key)
    relation ←
        map_err (λ e. invalid ErrorCode.invalid_argument "invalid predicate")
          (new_predicate predicate)
    believed ←
        map_err (λ e. invalid ErrorCode.invalid_argument "believed facts")
          (believed_fact_ids store subject relation)
    incumbents ← some_incumbents believed
    seq ← reserve (length incumbents)
    events ←
        map_err (λ e. invalid ErrorCode.invalid_argument "invalid event") (build seq incumbents)
    next ← append_all c store events
    ok (next, events)

  unfoldable pub retract :
      AuthorityLevel
      → String
      → TimestampMillis
      → Result OpError (InMemoryEventStore × List FactEvent)
  retract authority source now =
      write_each (build_retractions subject_kind subject_key predicate source authority now)

  unfoldable pub build_per_incumbent :
      AuthorityLevel
      → String
      → TimestampMillis
      → (FactId → FactEventKind)
      → Result OpError (InMemoryEventStore × List FactEvent)
  build_per_incumbent authority source now kind_for =
      write_each (build_each subject_kind subject_key predicate source authority now kind_for)

  abbrev pub reinforce :
      AuthorityLevel
      → String
      → TimestampMillis
      → Result OpError (InMemoryEventStore × List FactEvent)
  reinforce authority source now = build_per_incumbent authority source now reinforced

  abbrev pub expire :
      AuthorityLevel
      → String
      → TimestampMillis
      → Result OpError (InMemoryEventStore × List FactEvent)
  expire authority source now =
      build_per_incumbent authority source now (λ _. expired policy_retention)
