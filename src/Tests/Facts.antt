-- ===== src/Tests/Facts.antt =====
-- One fact: its states, its replay, and the firewall's decisions about it.
use dent.Prelude.{
  ◌≡◌, refl, true, false, none, some, [], ◌∷◌, arith, ok, err, is_ok, ◌>>=◌, map_err, ◌↔◌,
}
use dent.Prelude.Int.{ℤ, pos, ◌≤ℤ◌}
use dent.Prelude.Maps.{get, insert, replace, place, contains}
use dent.Model.{
  FactEvent, AuthorityLevel, low, medium, high, superseded, retrieved, reinforced,
  newer_observation, validate, text, duration_millis, ttl_expires_at, is_blank,
  is_lifecycle_terminal,
}
use dent.State.{
  FactState, FactLifecycle, initial_state, initial_by_kind, apply_initial_event, apply_kind,
  apply_next_event, apply_valid_event, apply_event, is_audit, stamp, record_level, raised,
  earned_entrenchment_at_or_above, is_expired_at, is_fresh_at, insufficient_authority,
}
use dent.State.Admission.{Accepts, Accepts-iff}
use dent.State.Frame.{SameBelief, apply-SameBelief, ended_is_final, ending_is_ranked}
use dent.State.Entrenchment.{weak_sources_add_nothing}
use dent.State.Freshness.{fresh_iff, Reached}
use dent.Policy.{EpistemicPolicy, identity, admits, IsStricter}
use dent.Replay.{replay_fact, replay_fact_with_policy, fold_from, transition}
use dent.Replay.Strict.{strict, replay-append}
use dent.Replay.Poison.{weak_events_move_nothing, Stands}
use dent.Replay.Counterfactual.{policy_replays, IsLaxer}
use dent.Firewall.{arbitrate_events, check_backing, replacing_state}
use dent.Firewall.Backing.{IsBacked, supersession-IsBacked}
use dent.Tests.Fixtures.{event, assertion}

abbrev owned : FactEvent
owned = assertion "e1" "fact:A" "source:owner" high

abbrev owned_state : FactState
unfolding initial_state
owned_state = initial_state owned (text "postgres")

abbrev backing : FactEvent
backing = assertion "e2" "fact:B" "source:owner" high

abbrev replacement : AuthorityLevel → FactEvent
replacement level =
    event "e3" "fact:A" (superseded "fact:B" newer_observation) none "source:owner" level

abbrev praise : FactEvent
praise = event "e4" "fact:A" (reinforced "fact:A") none "source:crowd" low

abbrev reading : FactEvent
reading = event "e5" "fact:A" (retrieved "audit") none "source:reader" low

-- Opens what a run of `apply_event` calls.
abbrev ended_state : FactState
ended_state = record owned_state {
  lifecycle = FactLifecycle.superseded;
  superseded_by = some "fact:B";
  last_event_id = "e3";
}

opened : apply_event none owned ≡ ok owned_state
unfolding apply_event apply_valid_event apply_initial_event initial_by_kind initial_state validate
opened = refl

superseding : apply_event (some owned_state) (replacement high) ≡ ok ended_state
unfolding apply_event apply_valid_event apply_next_event apply_kind initial_state validate
superseding = refl

weak_supersession :
    apply_event (some owned_state) (replacement low) ≡ err (insufficient_authority high low)
unfolding apply_event apply_valid_event apply_next_event apply_kind initial_state validate
weak_supersession = refl

Accepts-iff_example :
    (is_ok (apply_event (some owned_state) (replacement high)) ≡ true)
    ↔ Accepts owned_state (replacement high)
Accepts-iff_example = Accepts-iff owned_state (replacement high)

apply-SameBelief_example : SameBelief owned_state ended_state
apply-SameBelief_example = apply-SameBelief owned_state ended_state (replacement high) superseding

read_after_end : apply_event (some ended_state) reading ≡ ok (stamp reading ended_state)
unfolding apply_event apply_valid_event apply_next_event apply_kind initial_state validate is_blank
read_after_end = refl

ended_is_final_example : is_audit reading.kind ≡ true
unfolding initial_state
ended_is_final_example =
    (ended_is_final ended_state (stamp reading ended_state) reading refl read_after_end).0

ending_is_ranked_example : is_lifecycle_terminal (replacement high).kind ≡ true
unfolding initial_state
ending_is_ranked_example =
    (ending_is_ranked owned_state ended_state (replacement high) refl refl superseding).0

abbrev praised_state : FactState
praised_state = record owned_state {
  evidence_count = 2;
  corroborating_sources = ("source:crowd", low) ∷ ("source:owner", high) ∷ [];
  last_event_id = "e4";
}

praising : apply_event (some owned_state) praise ≡ ok praised_state
unfolding apply_event apply_valid_event apply_next_event apply_kind initial_state validate
    record_level raised insert get replace place
praising = refl

weak_sources_add_nothing_example :
    earned_entrenchment_at_or_above praised_state medium
    ≡ earned_entrenchment_at_or_above owned_state medium
weak_sources_add_nothing_example =
    weak_sources_add_nothing medium owned_state praised_state praise (omega arith) praising

abbrev dated : FactState
dated = record owned_state {
  ttl = duration_millis 500;
  freshness_anchor = pos 1000;
  valid_from = some (pos 1000);
  valid_to = some (pos 2000);
}

fresh_iff_example : (is_fresh_at dated (pos 1200) ≡ true) ↔ (
    ((from : ℤ) → dated.valid_from ≡ some from → from ≤ℤ pos 1200)
    × ¬ Reached (ttl_expires_at dated.ttl dated.freshness_anchor) (pos 1200)
    × ¬ Reached dated.valid_to (pos 1200))
fresh_iff_example = fresh_iff dated (pos 1200)

dated_expired : is_expired_at dated (pos 1500) ≡ true
unfolding is_expired_at ttl_expires_at initial_state
dated_expired = refl

abbrev distrust : EpistemicPolicy
distrust = record {
  distrusted_sources = ("source:owner", tt) ∷ [];
  authority_floor = low;
  confidence_floor = 0;
}

strict_distrust : IsStricter distrust identity
unfolding contains
strict_distrust = record { sources = λ s h. cc; authority = omega arith; confidence = omega arith }

praise_trusted : admits distrust praise ≡ true
unfolding admits contains
praise_trusted = refl

replaying : replay_fact (owned ∷ []) ≡ ok (some owned_state)
unfolding replay_fact fold_from admits contains apply_event apply_valid_event apply_initial_event
    initial_by_kind initial_state validate
replaying = refl

replaying_praise : replay_fact (owned ∷ praise ∷ []) ≡ ok (some praised_state)
unfolding replay_fact fold_from admits contains apply_event apply_valid_event apply_initial_event
    initial_by_kind initial_state validate apply_next_event apply_kind record_level raised insert
    get replace place
replaying_praise = refl

replay-append_example :
    replay_fact (owned ∷ praise ∷ [])
    ≡ (replay_fact (owned ∷ []) >>= λ s. map_err transition (strict s (praise ∷ [])))
replay-append_example = replay-append (owned ∷ []) (praise ∷ [])

weak_events_move_nothing_example : Stands medium owned_state praised_state
unfolding initial_state
weak_events_move_nothing_example =
    weak_events_move_nothing medium (owned ∷ []) (praise ∷ []) owned_state praised_state replaying
      (omega arith) refl (omega arith, tt) replaying_praise

policy_replays_example :
    (admits distrust owned ≡ false
      → replay_fact_with_policy (owned ∷ praise ∷ []) distrust ≡ ok none)
    × (admits distrust owned ≡ true
        → (t : FactState) × (replay_fact_with_policy (owned ∷ praise ∷ []) distrust ≡ ok (some t))
          × IsLaxer t praised_state)
policy_replays_example = policy_replays distrust owned (praise ∷ []) praised_state replaying_praise

arbitrating : arbitrate_events (replacement high) (owned ∷ []) (some (backing ∷ [])) ≡ ok tt
unfolding arbitrate_events check_backing replacing_state replay_fact fold_from admits contains
    apply_event apply_valid_event apply_initial_event initial_by_kind initial_state validate
    apply_next_event apply_kind
arbitrating = refl

supersession-IsBacked_example : IsBacked (replacement high) (owned ∷ []) (some (backing ∷ []))
supersession-IsBacked_example =
    supersession-IsBacked (replacement high) (owned ∷ []) (some (backing ∷ [])) "fact:B"
      newer_observation refl arbitrating
