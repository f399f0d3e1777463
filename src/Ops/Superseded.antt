-- ===== src/Ops/Superseded.antt =====
-- Facts that have ended by a supersession, and what a batch of supersessions does to a store in `op_supersede` of
-- crates/dent8-cli/src/ops.rs.
use dent.Prelude.{◌≡◌, refl, ap, ◌∙◌, Option, none, some, List, [], ◌∷◌, arith, All, ok}
use dent.Model.{FactId, FactEvent, FactEventKind, superseded, SupersessionReason}
use dent.State.{FactState, FactLifecycle, apply_event, apply_kind}
use dent.State.Inversion.{apply_Steps, opening_asserts}
use dent.Hash.{Codec}
use dent.Memory.{InMemoryEventStore}
use dent.Memory.Safety.{IsHealthy}
use dent.Ops.Revise.{append_all}
use dent.Ops.Ended.{Ended, AllEnd, all_end}

-- A state that another fact has superseded.
abbrev pub SupersededBy : FactId → FactState → Type 0
SupersededBy by x = (x.lifecycle ≡ FactLifecycle.superseded) × (x.superseded_by ≡ some by)

abbrev pub GivesWay : FactId → FactId → InMemoryEventStore → Type 0
GivesWay by f s = Ended (SupersededBy by) f s

kind_supersedes :
    (s t : FactState) (e : FactEvent) (k : FactEventKind) (by : FactId)
    (reason : SupersessionReason)
    → k ≡ superseded by reason
    → apply_kind s e k ≡ ok t
    → (t.lifecycle ≡ FactLifecycle.superseded) × (t.superseded_by ≡ some by)
unfolding apply_kind
kind_supersedes s t e k by reason i h = ground arith

step_supersedes :
    (o : Option FactState) (u : FactState) (e : FactEvent) (by : FactId)
    (reason : SupersessionReason)
    → e.kind ≡ superseded by reason
    → apply_event o e ≡ ok u
    → (u.lifecycle ≡ FactLifecycle.superseded) × (u.superseded_by ≡ some by)
step_supersedes none u e by reason k h = absurd (ground (arith, opening_asserts e h))
step_supersedes (some s) u e by reason k h =
    let p = apply_Steps s e h in
    let (ended, names) = kind_supersedes s p.next e e.kind by reason k p.by_kind in
    (ap (λ x. x.lifecycle) p.stamped ∙ ended, ap (λ x. x.superseded_by) p.stamped ∙ names)

-- The events supersede the facts, one by one, and carry no value.
pub record Supersedes (by f : FactId) (e : FactEvent) : Type 0 where
  pub about : e.fact_id ≡ f
  pub reason : SupersessionReason
  pub kind : e.kind ≡ superseded by reason
  pub nothing : e.value ≡ none

abbrev pub AllSupersede : FactId → List FactId → List FactEvent → Type 0
AllSupersede by [] [] = Unit
AllSupersede by (f ∷ fs) (e ∷ es) = Supersedes by f e × AllSupersede by fs es
AllSupersede _ _ _ = ⊥

AllSupersede-AllEnd :
    (by : FactId) (fs : List FactId) (es : List FactEvent)
    → AllSupersede by fs es
    → AllEnd (SupersededBy by) fs es
AllSupersede-AllEnd by [] [] m = tt
AllSupersede-AllEnd by [] (e ∷ es) m = absurd m
AllSupersede-AllEnd by (f ∷ fs) [] m = absurd m
AllSupersede-AllEnd by (f ∷ fs) (e ∷ es) m = (
  record {
    about = m.0.about;
    step =
        λ o u h. let now = step_supersedes o u e by m.0.reason m.0.kind h in (rw now.0 refl, now);
  },
  AllSupersede-AllEnd by fs es m.1,
)

pub all_supersede :
    (c : Codec) (by : FactId) (s t : InMemoryEventStore) (fs : List FactId) (es : List FactEvent)
    → IsHealthy c s
    → AllSupersede by fs es
    → append_all c s es ≡ ok t
    → All (λ f. GivesWay by f t) fs
all_supersede c by s t fs es v m h =
    all_end c (SupersededBy by) (λ x at id p. p) s t fs es v (AllSupersede-AllEnd by fs es m) h
