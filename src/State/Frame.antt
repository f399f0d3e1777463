-- ===== src/State/Frame.antt =====
-- What an applied event of crates/dent8-core/src/state.rs cannot change, and who can end a fact.
use dent.Prelude.{◌≤◌, true, false, ◌≡◌, some, arith, ok}
use dent.Model.{FactEvent, FactEventKind, asserted, rank, is_lifecycle_terminal}
use dent.State.Lifecycle.{is_terminal}
use dent.State.Defs.{FactState}
use dent.State.Apply.{stamp, is_audit, apply_kind, apply_event}
use dent.State.Inversion.{apply_Steps}

-- The two states are of one fact, with one value, one authority and one validity window.
pub record SameBelief (s t : FactState) : Type 0 where
  pub fact_id : t.fact_id ≡ s.fact_id
  pub subject : t.subject ≡ s.subject
  pub predicate : t.predicate ≡ s.predicate
  pub value : t.value ≡ s.value
  pub authority : t.authority ≡ s.authority
  pub ttl : t.ttl ≡ s.ttl
  pub freshness_anchor : t.freshness_anchor ≡ s.freshness_anchor
  pub valid_from : t.valid_from ≡ s.valid_from
  pub valid_to : t.valid_to ≡ s.valid_to
  pub created_at : t.created_at ≡ s.created_at

kind_SameBelief :
    (s : FactState) (e : FactEvent) (k : FactEventKind) (t : FactState)
    → apply_kind s e k ≡ ok t
    → SameBelief s (stamp e t)
unfolding apply_kind
kind_SameBelief s e asserted t h = cc
kind_SameBelief s e k t h = ground arith

-- No event that a state takes changes which fact it is of, the fact's value, its authority or its validity window.
pub apply-SameBelief :
    (s t : FactState) (e : FactEvent) → apply_event (some s) e ≡ ok t → SameBelief s t
apply-SameBelief s t e h =
    let p = apply_Steps s e h in rw p.stamped (kind_SameBelief s e e.kind p.next p.by_kind)

audit_keeps :
    (s : FactState) (e : FactEvent) (k : FactEventKind) (t : FactState)
    → is_audit k ≡ true
    → apply_kind s e k ≡ ok t
    → t ≡ s
unfolding apply_kind
audit_keeps s e asserted t a h = cc
audit_keeps s e k t a h = ground arith

-- An event that a fact takes after its end is an audit record, and changes no more than the state's last event and
-- its time.
pub ended_is_final :
    (s t : FactState) (e : FactEvent)
    → is_terminal s.lifecycle ≡ true
    → apply_event (some s) e ≡ ok t
    → (is_audit e.kind ≡ true)
      × (t ≡ record s { updated_at = e.provenance.recorded_at; last_event_id = e.event_id })
ended_is_final s t e ended h =
    let p = apply_Steps s e h in
    let audit : is_audit e.kind ≡ true = ground (arith, p.open_or_audit) in
    (audit, cc (p.stamped, audit_keeps s e e.kind p.next audit p.by_kind))

kind_ends :
    (s : FactState) (e : FactEvent) (k : FactEventKind) (t : FactState)
    → is_terminal s.lifecycle ≡ false
    → is_terminal t.lifecycle ≡ true
    → apply_kind s e k ≡ ok t
    → (is_lifecycle_terminal k ≡ true) × (rank s.authority.level ≤ rank e.authority.level)
unfolding apply_kind
kind_ends s e asserted t a b h = cc
kind_ends s e k t a b h = ground arith

-- Only a supersession, an expiration or a retraction ends a fact, and only at a level that is not below the fact's.
pub ending_is_ranked :
    (s t : FactState) (e : FactEvent)
    → is_terminal s.lifecycle ≡ false
    → is_terminal t.lifecycle ≡ true
    → apply_event (some s) e ≡ ok t
    → (is_lifecycle_terminal e.kind ≡ true) × (rank s.authority.level ≤ rank e.authority.level)
ending_is_ranked s t e a b h =
    let p = apply_Steps s e h in kind_ends s e e.kind p.next a (ground (arith, p.stamped)) p.by_kind
