-- ===== src/Ops/Gate.antt =====
-- The earned-supersession gate of `op_supersede` of crates/dent8-cli/src/ops.rs: which facts it lets give way.
use dent.Prelude.{
  ◌≤◌, ◌≡◌, ◌≢◌, ◌⊎◌, inl, inr, refl, sym, ap, ◌∙◌, Bool, true, false, some, List, [], ◌∷◌, arith,
  any, ◌==◌, eq_iff, ok, Bool-cases,
}
use dent.Model.{FactId, AuthorityLevel, rank}
use dent.State.{FactState, earned_entrenchment_at_or_above}
use dent.Replay.{replay_fact}
use dent.Hash.{Codec}
use dent.Memory.{InMemoryEventStore}
use dent.Memory.Index.{stream}
use dent.Memory.Invariant.{IsSound, load_fact_events-stream}
use dent.Subject.{has}
use dent.Ops.Revise.{resists, state_of, check_entrenchment}

-- The gate is off, the levels differ, or the fact has no more than one source or survived challenge at its level.
abbrev pub MayYield : Bool → AuthorityLevel → FactState → Type 0
MayYield gate authority s =
    (gate ≡ false)
    ⊎ ((rank s.authority.level ≢ rank authority)
        ⊎ (earned_entrenchment_at_or_above s s.authority.level ≤ 1))

any_not :
    (p : FactId → Bool) (f : FactId) (fs : List FactId)
    → has f fs ≡ true
    → any p fs ≡ false
    → p f ≡ false
any_not p f [] h k = cc
any_not p f (g ∷ fs) h k = elim (Bool-cases (g == f)) [
  | inl same ↦ ap p (sym ((eq_iff g f).0 same)) ∙ ground arith
  | inr other ↦ any_not p f fs (ground arith) (ground arith)
]

state_of_lem :
    (c : Codec) (s : InMemoryEventStore) (f : FactId) (state : FactState)
    → IsSound c s
    → replay_fact (stream f s.log) ≡ ok (some state)
    → state_of s f ≡ some state
unfolding state_of
state_of_lem c s f state v h = rw (load_fact_events-stream c s f v, state_of, h) refl

-- What passes the gate may yield.
pub check_entrenchment-MayYield :
    (c : Codec) (gate : Bool) (s : InMemoryEventStore) (authority : AuthorityLevel)
    (fs : List FactId) (f : FactId) (state : FactState) (u : Unit {0})
    → IsSound c s
    → replay_fact (stream f s.log) ≡ ok (some state)
    → has f fs ≡ true
    → check_entrenchment gate s authority fs ≡ ok u
    → MayYield gate authority state
unfolding check_entrenchment
check_entrenchment-MayYield c gate s authority fs f state u v h listed passed =
    elim (Bool-cases gate) [
      | inr off ↦ inl off
      | inl on ↦
          let calm : any (λ g. resists authority (state_of s g)) fs ≡ false = ground arith in
          let here = any_not (λ g. resists authority (state_of s g)) f fs listed calm in
          let it : resists authority (some state) ≡ false =
            ap (resists authority) (sym (state_of_lem c s f state v h)) ∙ here in
          inr (ground arith)
    ]
