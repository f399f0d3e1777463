-- ===== src/Ops/Challenges.antt =====
-- `classify_challenge` of crates/dent8-cli/src/ops.rs against the firewall whose refusals it reads.
use dent.Prelude.{
  subst, Bool, false, Result, ◌>>=◌, if◌then◌else◌, ◌<◌, ◌≡◌, ◌≢◌, refl, ◌⊎◌, inl, inr, true,
  Option, none, some, List, arith, ok, err, Result-cases,
}
use dent.Model.{
  FactEvent, FactEventKind, asserted, superseded, contradicted, retracted, expired, AuthorityLevel,
  canonical, rank, ChallengeRejection, validate,
}
use dent.State.{
  FactState, stamp, apply_event, apply_valid_event, apply_initial_event, initial_by_kind,
  apply_next_event, apply_kind, TransitionError, terminal_state_mutation, fact_shape_mismatch,
  fact_id_mismatch, insufficient_authority, canonical_contradiction,
}
use dent.Replay.{replay_fact, ReplayError}
use dent.Store.{replay, StoreError, fails, rejected, laundered_authority}
use dent.Firewall.{authority_of, check_backing, arbitrate_events, replacing_state}
use dent.Ops.{
  Challenge, classify_challenge, classify_kind, lost_supersession, lost_contradiction, lost_ending,
}

kind_outranked :
    (s : FactState) (e : FactEvent) (k : FactEventKind) (i c : AuthorityLevel)
    → apply_kind s e k ≡ err (insufficient_authority i c)
    → rank e.authority.level < rank s.authority.level
unfolding apply_kind
kind_outranked s e asserted i c h = cc
kind_outranked s e k i c h = ground arith

kind_canonical :
    (s : FactState) (e : FactEvent) (k : FactEventKind)
    → apply_kind s e k ≡ err canonical_contradiction
    → rank s.authority.level ≡ rank canonical
unfolding apply_kind
kind_canonical s e asserted h = cc
kind_canonical s e k h = ground arith

opening_outranked :
    (e : FactEvent) (k : FactEventKind) (i c : AuthorityLevel)
    → initial_by_kind e k ≢ err (insufficient_authority i c)
unfolding initial_by_kind
opening_outranked e asserted i c h = ground arith
opening_outranked e k i c h = cc

opening_canonical :
    (e : FactEvent) (k : FactEventKind) → initial_by_kind e k ≢ err canonical_contradiction
unfolding initial_by_kind
opening_canonical e asserted h = ground arith
opening_canonical e k h = cc

-- An error that is the kind's own.
abbrev IsOfKind : TransitionError → Type 0
IsOfKind (insufficient_authority i c) = Unit
IsOfKind canonical_contradiction = Unit
IsOfKind x = ⊥

past_guard :
    {A : Type 0} (b : Bool) (y x : TransitionError) (m : Result TransitionError A)
    → (if b then err y else m) ≡ err x
    → y ≢ x
    → m ≡ err x
past_guard true y x m h other = absurd (other (ground arith))
past_guard false y x m h other = h

bind_fails :
    {A B : Type 0} (m : Result TransitionError A) (f : A → B) (x : TransitionError)
    → (m >>= λ a. ok (f a)) ≡ err x
    → m ≡ err x
bind_fails (ok a) f x h = cc
bind_fails (err y) f x h = cc

-- The error is not one of the guards'.
next_fails :
    (s : FactState) (e : FactEvent) (x : TransitionError)
    → IsOfKind x
    → apply_next_event s e ≡ err x
    → apply_kind s e e.kind ≡ err x
unfolding apply_next_event
next_fails s e (insufficient_authority i c) w h = bind_fails (apply_kind s e e.kind) (stamp e) _ (
    past_guard _ (terminal_state_mutation s.lifecycle) _ _
      (past_guard _ fact_shape_mismatch _ _ (past_guard _ fact_id_mismatch _ _ h (λ y. cc))
        (λ y. cc))
      (λ y. cc))
next_fails s e canonical_contradiction w h = bind_fails (apply_kind s e e.kind) (stamp e) _ (
    past_guard _ (terminal_state_mutation s.lifecycle) _ _
      (past_guard _ fact_shape_mismatch _ _ (past_guard _ fact_id_mismatch _ _ h (λ y. cc))
        (λ y. cc))
      (λ y. cc))
next_fails s e x w h = absurd w

valid_fails :
    (current : Option FactState) (e : FactEvent) (x : TransitionError)
    → IsOfKind x
    → apply_event current e ≡ err x
    → apply_valid_event current e ≡ err x
unfolding apply_event
valid_fails current e (insufficient_authority i c) w h = elim (Result-cases (validate e)) [
  | inl (tt, k) ↦ ground arith
  | inr (y, k) ↦ absurd (ground arith)
]
valid_fails current e canonical_contradiction w h = elim (Result-cases (validate e)) [
  | inl (tt, k) ↦ ground arith
  | inr (y, k) ↦ absurd (ground arith)
]
valid_fails current e x w h = absurd w

apply_outranked :
    (current : Option FactState) (e : FactEvent) (i c : AuthorityLevel)
    → apply_event current e ≡ err (insufficient_authority i c)
    → (s : FactState) × (current ≡ some s) × (rank e.authority.level < rank s.authority.level)
unfolding apply_valid_event apply_initial_event
apply_outranked none e i c h =
    absurd (opening_outranked e e.kind i c (valid_fails none e (insufficient_authority i c) tt h))
apply_outranked (some s) e i c h = (
  s,
  refl,
  kind_outranked s e e.kind i c (
      next_fails s e (insufficient_authority i c) tt
        (valid_fails (some s) e (insufficient_authority i c) tt h)),
)

apply_canonical :
    (current : Option FactState) (e : FactEvent)
    → apply_event current e ≡ err canonical_contradiction
    → (s : FactState) × (current ≡ some s) × (rank s.authority.level ≡ rank canonical)
unfolding apply_valid_event apply_initial_event
apply_canonical none e h =
    absurd (opening_canonical e e.kind (valid_fails none e canonical_contradiction tt h))
apply_canonical (some s) e h = (
  s,
  refl,
  kind_canonical s e e.kind (
      next_fails s e canonical_contradiction tt
        (valid_fails (some s) e canonical_contradiction tt h)),
)

backing_laundered :
    (k : FactEventKind) (current : Option FactState) (replacing : Option (List FactEvent))
    (i c : AuthorityLevel)
    → check_backing k (authority_of current) replacing ≡ err (fails (laundered_authority i c))
    → (s : FactState) × (current ≡ some s) × (rank c < rank s.authority.level)
unfolding check_backing replacing_state
backing_laundered (superseded by reason) none replacing i c h = absurd (ground arith)
backing_laundered (superseded by reason) (some s) replacing i c h = (s, refl, ground arith)
backing_laundered asserted current replacing i c h = cc
backing_laundered k current replacing i c h = cc

-- The incumbent of a challenge, and why the challenge was lost.
pub record Lost (candidate : FactEvent) (existing : List FactEvent) (lost : Challenge)
    : Type 0 where
  pub incumbent : FactState
  pub replays : replay_fact existing ≡ ok (some incumbent)
  pub weaker :
      (rank lost.effective < rank incumbent.authority.level)
      ⊎ ((lost.rejection ≡ ChallengeRejection.canonical_contradiction)
          × (rank incumbent.authority.level ≡ rank canonical))

classified :
    (k : FactEventKind) (stated : AuthorityLevel) (x : StoreError) (lost : Challenge)
    → classify_kind k stated x ≡ some lost
    → ((i : AuthorityLevel) × (c : AuthorityLevel) × (x ≡ rejected (insufficient_authority i c))
        × (lost.effective ≡ stated))
      ⊎ (((i : AuthorityLevel) × (c : AuthorityLevel) × (x ≡ laundered_authority i c)
            × (lost.effective ≡ c))
          ⊎ ((x ≡ rejected canonical_contradiction)
              × (lost.rejection ≡ ChallengeRejection.canonical_contradiction)))
unfolding classify_kind lost_supersession lost_contradiction lost_ending
classified (superseded by reason) stated (rejected (insufficient_authority i c)) lost h =
    inl (i, c, refl, ground arith)
classified (superseded by reason) stated (laundered_authority i c) lost h =
    inr (inl (i, c, refl, ground arith))
classified (contradicted by basis) stated (rejected canonical_contradiction) lost h =
    inr (inr (refl, ground arith))
classified (retracted reason) stated (rejected (insufficient_authority i c)) lost h =
    inl (i, c, refl, ground arith)
classified (expired reason) stated (rejected (insufficient_authority i c)) lost h =
    inl (i, c, refl, ground arith)
classified k stated x lost h = cc

refused_at :
    (candidate : FactEvent) (existing : List FactEvent) (replacing : Option (List FactEvent))
    (x : StoreError)
    → arbitrate_events candidate existing replacing ≡ err (fails x)
    → ((y : ReplayError) × (x ≡ replay y))
      ⊎ ((current : Option FactState) × (replay_fact existing ≡ ok current)
          × (((y : TransitionError) × (x ≡ rejected y) × (apply_event current candidate ≡ err y))
              ⊎ (check_backing candidate.kind (authority_of current) replacing ≡ err (fails x))))
unfolding arbitrate_events
refused_at candidate existing replacing x h = elim (Result-cases (replay_fact existing)) [
  | inr (y, r) ↦ inl (y, ground arith)
  | inl (current, r) ↦ elim (Result-cases (apply_event current candidate)) [
    | inr (y, a) ↦ inr (current, r, inl (y, ground arith, a))
    | inl (t, a) ↦ inr (current, r, inr (ground arith))
  ]
]

backing_ne_rejected :
    (k : FactEventKind) (current : Option AuthorityLevel) (replacing : Option (List FactEvent))
    (y : TransitionError)
    → check_backing k current replacing ≢ err (fails (rejected y))
unfolding check_backing replacing_state
backing_ne_rejected (superseded by reason) none replacing y h = cc
backing_ne_rejected (superseded by reason) (some s) none y h = cc
backing_ne_rejected (superseded by reason) (some s) (some events) y h = ground arith
backing_ne_rejected asserted current replacing y h = cc
backing_ne_rejected k current replacing y h = cc

module _ (candidate : FactEvent) (existing : List FactEvent)
    (replacing : Option (List FactEvent)) where
  rejected_at :
      (y : TransitionError)
      → arbitrate_events candidate existing replacing ≡ err (fails (rejected y))
      → (current : Option FactState) × (replay_fact existing ≡ ok current)
        × (apply_event current candidate ≡ err y)
  rejected_at y h = elim (refused_at candidate existing replacing (rejected y) h) [
    | inl (z, e) ↦ absurd (ground arith)
    | inr (current, r, inl (z, e, a)) ↦
        (current, r, subst (λ w. apply_event current candidate ≡ err w) (ground arith) a)
    | inr (current, r, inr b) ↦
        absurd (backing_ne_rejected candidate.kind (authority_of current) replacing y b)
  ]

  laundered_at :
      (i c : AuthorityLevel)
      → arbitrate_events candidate existing replacing ≡ err (fails (laundered_authority i c))
      → (current : Option FactState) × (replay_fact existing ≡ ok current)
        × (check_backing candidate.kind (authority_of current) replacing
            ≡ err (fails (laundered_authority i c)))
  laundered_at i c h = elim (refused_at candidate existing replacing (laundered_authority i c) h) [
    | inl (z, e) ↦ absurd (ground arith)
    | inr (current, r, inl (z, e, a)) ↦ absurd (ground arith)
    | inr (current, r, inr b) ↦ (current, r, b)
  ]

  -- A refusal of the firewall that is recorded as a survived challenge was lost on strength: the fact challenged is
  -- there, and the recorded level is below its level, or the challenge was a contradiction of a canonical fact.
  pub classify_challenge-Lost :
      (x : StoreError) (lost : Challenge)
      → arbitrate_events candidate existing replacing ≡ err (fails x)
      → classify_challenge candidate x ≡ some lost
      → Lost candidate existing lost
  unfolding classify_challenge
  classify_challenge-Lost x lost h q =
      elim (classified candidate.kind candidate.authority.level x lost q) [
        | inl (i, c, e, level) ↦
            let (current, r, a) = rejected_at (insufficient_authority i c) (rw e at h) in
            let (s, there, weak) = apply_outranked current candidate i c a in
            record { incumbent = s; replays = rw there at r; weaker = inl (rw level weak) }
        | inr (inl (i, c, e, level)) ↦
            let (current, r, b) = laundered_at i c (rw e at h) in
            let (s, there, weak) = backing_laundered candidate.kind current replacing i c b in
            record { incumbent = s; replays = rw there at r; weaker = inl (rw level weak) }
        | inr (inr (e, why)) ↦
            let (current, r, a) = rejected_at canonical_contradiction (rw e at h) in
            let (s, there, top) = apply_canonical current candidate a in
            record { incumbent = s; replays = rw there at r; weaker = inr (why, top) }
      ]
