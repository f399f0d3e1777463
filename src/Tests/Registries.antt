-- ===== src/Tests/Registries.antt =====
-- The coding agent's registry at a few writes.
use dent.Prelude.{◌≡◌, refl, ◌↔◌, none, ok, arith, unwrap_or}
use dent.Prelude.Int.{pos}
use dent.Prelude.Maps.{get, insert, replace, place}
use dent.Model.{
  FactEvent, low, high, duration_millis, ttl_expires_at, contradicted,
  same_predicate_different_value,
}
use dent.Subject.{replay_subject, replay_subject_with_policy, group, fold_streams, believed}
use dent.Memory.{new, scan_events}
use dent.Registry.{
  coding_agent, register, policy_for, policy_ceiling, ceiling_ms, default_max_ttl_ms,
  bounded_ttl_ms, bounded_valid_to_ms, deliberate_ms, check_floor, check_ceilings, check_rivals,
  check_unique, enforce_policy,
}
use dent.Registry.Enforce.{
  MeetsFloor, IsBounded, IsAlone, enforce_policy_iff, enforced_lifetime_bounds,
}
use dent.Prelude.{some, true}
use dent.State.{
  FactState, is_expired_at, apply_event, apply_valid_event, apply_initial_event, initial_by_kind,
  initial_state,
}
use dent.Model.{validate}
use dent.Tests.Fixtures.{event, assertion}

-- A choice of database that is to be reviewed after a while.
abbrev choice : FactEvent
choice = record (assertion "e1" "fact:A" "source:owner" high) { ttl = duration_millis 5000 }

abbrev objection : FactEvent
objection =
    event "e2" "fact:A" (contradicted "fact:B" same_predicate_different_value) none "source:web" low

passed : enforce_policy (scan_events new) coding_agent choice (pos 2) ≡ ok tt
unfolding enforce_policy check_floor check_ceilings check_unique check_rivals policy_for
    coding_agent register insert replace place get bounded_ttl_ms bounded_valid_to_ms scan_events
    replay_subject replay_subject_with_policy group fold_streams believed
passed = refl

enforce_policy_iff_example :
    (enforce_policy (scan_events new) coding_agent choice (pos 2) ≡ ok tt) ↔ (
      MeetsFloor (policy_for coding_agent choice.subject choice.predicate) choice
      × IsBounded (bounded_ttl_ms choice) (
          ceiling_ms (
            unwrap_or
              (policy_ceiling (policy_for coding_agent choice.subject choice.predicate))
              coding_agent.max_ttl))
      × IsBounded
          (bounded_valid_to_ms choice)
          (deliberate_ms (policy_ceiling (policy_for coding_agent choice.subject choice.predicate)))
      × IsAlone
          (scan_events new)
          (policy_for coding_agent choice.subject choice.predicate)
          choice
          (pos 2))
enforce_policy_iff_example = enforce_policy_iff (scan_events new) coding_agent choice (pos 2) refl

-- A choice that was observed after it was recorded.
abbrev late : FactEvent
late = record choice { observed_at = some (pos 3) }

late_passed : enforce_policy (scan_events new) coding_agent late (pos 2) ≡ ok tt
unfolding enforce_policy check_floor check_ceilings check_unique check_rivals policy_for
    coding_agent register insert replace place get bounded_ttl_ms bounded_valid_to_ms scan_events
    replay_subject replay_subject_with_policy group fold_streams believed
late_passed = refl

late_opens : (s : FactState) × (apply_event none late ≡ ok s)
unfolding apply_event apply_valid_event apply_initial_event initial_by_kind initial_state validate
late_opens = (_, refl)

enforced_lifetime_bounds_example : is_expired_at late_opens.0 (pos 9000000000) ≡ true
unfolding policy_for coding_agent register insert replace place get ttl_expires_at late_opens
enforced_lifetime_bounds_example =
    enforced_lifetime_bounds (scan_events new) coding_agent late late_opens.0 (pos 2) (pos 5003)
      (pos 9000000000) default_max_ttl_ms late_passed refl (omega arith) (omega arith) late_opens.1
      refl (omega arith)
