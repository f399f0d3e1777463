-- ===== src/Firewall/Backing.antt =====
-- What `arbitrate_events` of crates/dent8-store/src/firewall.rs lets through.
use dent.Prelude.{
  ◌≤◌, String, ◌≡◌, ◌≢◌, refl, ◌∙◌, ap, Option, none, some, List, arith, inl, inr, ok, err,
  map_err-eq-ok, Result-cases, true,
}
use dent.Model.{
  FactId, FactEvent, FactEventKind, asserted, is_asserted, superseded, SupersessionReason,
  AuthorityLevel, rank,
}
use dent.State.{FactState, apply_event, apply_kind}
use dent.State.Inversion.{apply_Steps, opening_asserts}
use dent.Replay.{replay_fact}
use dent.Store.{panics}
use dent.Firewall.{authority_of, replacing_state, check_backing, arbitrate_events}

-- A write that passed: the stream replayed, the event applied to what it gave, and the check on its backing passed.
pub record Passed (candidate : FactEvent) (existing : List FactEvent)
    (replacing : Option (List FactEvent)) : Type 0 where
  pub current : Option FactState
  pub state : FactState
  pub replays : replay_fact existing ≡ ok current
  pub applies : apply_event current candidate ≡ ok state
  pub backed : check_backing candidate.kind (authority_of current) replacing ≡ ok tt

pub arbitrate_events-Passed :
    (candidate : FactEvent) (existing : List FactEvent) (replacing : Option (List FactEvent))
    → arbitrate_events candidate existing replacing ≡ ok tt
    → Passed candidate existing replacing
unfolding arbitrate_events
arbitrate_events-Passed candidate existing replacing h =
    elim (Result-cases (replay_fact existing)) [
      | inr (x, r) ↦ absurd (ground arith)
      | inl (current, r) ↦ elim (Result-cases (apply_event current candidate)) [
        | inr (x, a) ↦ absurd (ground arith)
        | inl (state, a) ↦ record {
          current = current;
          state = state;
          replays = r;
          applies = a;
          backed = ground arith;
        }
      ]
    ]

backing_of :
    (k : FactEventKind) (by : FactId) (reason : SupersessionReason)
    (incumbent : Option AuthorityLevel) (replacing : Option (List FactEvent))
    → k ≡ superseded by reason
    → check_backing k incumbent replacing ≡ ok tt
    → (level : AuthorityLevel) × (state : FactState) × (incumbent ≡ some level)
      × (replacing_state replacing ≡ ok (some state))
      × (rank level ≤ rank state.authority.level)
unfolding check_backing
backing_of k by reason none replacing e h = absurd (ground arith)
backing_of k by reason (some level) replacing e h =
    elim (Result-cases (replacing_state replacing)) [
      | inr (x, r) ↦ absurd (ground arith)
      | inl (none, r) ↦ absurd (ground arith)
      | inl (some state, r) ↦ (level, state, refl, r, ground arith)
    ]

kind_backing :
    (e : FactEvent) (k : FactEventKind) (by : FactId) (reason : SupersessionReason)
    (s t : FactState)
    → k ≡ superseded by reason
    → apply_kind s e k ≡ ok t
    → rank s.authority.level ≤ rank e.authority.level
unfolding apply_kind
kind_backing e k by reason s t i h = ground arith

-- The incumbent and the fact behind the candidate, and how they rank.
pub record IsBacked (candidate : FactEvent) (existing : List FactEvent)
    (replacing : Option (List FactEvent)) : Type 0 where
  pub incumbent : FactState
  pub events : List FactEvent
  pub backing : FactState
  pub existing_replays : replay_fact existing ≡ ok (some incumbent)
  pub named : replacing ≡ some events
  pub backing_replays : replay_fact events ≡ ok (some backing)
  pub stated_level : rank incumbent.authority.level ≤ rank candidate.authority.level
  pub actual_level : rank incumbent.authority.level ≤ rank backing.authority.level

find_incumbent :
    (o : Option FactState) (level : AuthorityLevel)
    → authority_of o ≡ some level
    → (s : FactState) × (o ≡ some s) × (s.authority.level ≡ level)
find_incumbent none level h = cc
find_incumbent (some s) level h = (s, refl, cc)

find_backing :
    (o : Option (List FactEvent)) (s : FactState)
    → replacing_state o ≡ ok (some s)
    → (events : List FactEvent) × (o ≡ some events) × (replay_fact events ≡ ok (some s))
unfolding replacing_state
find_backing none s h = cc
find_backing (some events) s h = (events, refl, map_err-eq-ok _ (replay_fact events) h)

-- A supersession passes the firewall only over a fact that is there, with a replacement that is there: the event's
-- own level and the level of the replacing fact's state are both not below the incumbent's.
pub supersession-IsBacked :
    (candidate : FactEvent) (existing : List FactEvent) (replacing : Option (List FactEvent))
    (by : FactId) (reason : SupersessionReason)
    → candidate.kind ≡ superseded by reason
    → arbitrate_events candidate existing replacing ≡ ok tt
    → IsBacked candidate existing replacing
supersession-IsBacked candidate existing replacing by reason k h =
    let p = arbitrate_events-Passed candidate existing replacing h in
    let (level, backing, inc, state, le) =
      backing_of candidate.kind by reason (authority_of p.current) replacing k p.backed in
    let (incumbent, is_current, is_level) = find_incumbent p.current level inc in
    let (events, is_named, back) = find_backing replacing backing state in
    let steps = apply_Steps incumbent candidate (rw is_current at p.applies) in
    record {
      incumbent = incumbent;
      events = events;
      backing = backing;
      existing_replays = p.replays ∙ ap ok is_current;
      named = is_named;
      backing_replays = back;
      stated_level =
          kind_backing candidate candidate.kind by reason incumbent steps.next k steps.by_kind;
      actual_level = rw is_level le;
    }

backing_ne_panics :
    (k : FactEventKind) (level : AuthorityLevel) (replacing : Option (List FactEvent))
    (message : String)
    → check_backing k (some level) replacing ≢ err (panics message)
unfolding check_backing replacing_state
backing_ne_panics (superseded by reason) level none message h = cc
backing_ne_panics (superseded by reason) level (some events) message h = ground (arith, h)
backing_ne_panics asserted level replacing message h = cc
backing_ne_panics k level replacing message h = cc

opening_ne_panics :
    (k : FactEventKind) (replacing : Option (List FactEvent)) (message : String)
    → is_asserted k ≡ true
    → check_backing k none replacing ≢ err (panics message)
unfolding check_backing
opening_ne_panics asserted replacing message a h = cc
opening_ne_panics k replacing message a h = cc

-- The firewall never panics: by the time it asks for the incumbent of a supersession, there is one.
pub arbitrate_events-ne-panics :
    (candidate : FactEvent) (existing : List FactEvent) (replacing : Option (List FactEvent))
    (message : String)
    → arbitrate_events candidate existing replacing ≢ err (panics message)
unfolding arbitrate_events
arbitrate_events-ne-panics candidate existing replacing message h =
    elim (Result-cases (replay_fact existing)) [
      | inr (x, r) ↦ ground (arith, r)
      | inl (none, r) ↦ elim (Result-cases (apply_event none candidate)) [
        | inr (x, a) ↦ ground (arith, r, a)
        | inl (s, a) ↦
            opening_ne_panics candidate.kind replacing message (opening_asserts candidate a)
              (ground (arith, r, a))
      ]
      | inl (some inc, r) ↦ elim (Result-cases (apply_event (some inc) candidate)) [
        | inr (x, a) ↦ ground (arith, r, a)
        | inl (s, a) ↦
            backing_ne_panics candidate.kind inc.authority.level replacing message
              (ground (arith, r, a))
      ]
    ]
