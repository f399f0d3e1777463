-- ===== src/Replay/Diff.antt =====
-- `diff_states` of crates/dent8-store/src/lib.rs: two folds of a fact's stream under different policies, compared.
use dent.Prelude.{
  ℕ, ◌≡◌, ◌↔◌, Bool, true, false, ◌&&◌, Option, none, some, List, [], ◌∷◌, arith, ◌==◌, eq_iff,
  nat_eq, is_none, if◌then◌else◌,
}
use dent.Model.{FactId, FactValue, value_eq, value_eq_iff}
use dent.State.{FactState, FactLifecycle, lifecycle_eq}

pub data StateDiff : Type 0 where
  unchanged appeared disappeared : StateDiff
  -- each field has the two values where they differ
  changed :
      Option (FactLifecycle × FactLifecycle)
      → Option (FactValue × FactValue)
      → Option (Option FactId × Option FactId)
      → Option (List FactId × List FactId)
      → Option (ℕ × ℕ)
      → StateDiff

abbrev pub target_eq : Option FactId → Option FactId → Bool
target_eq none none = true
target_eq (some a) (some b) = a == b
target_eq _ _ = false

abbrev pub ids_eq : List FactId → List FactId → Bool
ids_eq [] [] = true
ids_eq (a ∷ x) (b ∷ y) = a == b && ids_eq x y
ids_eq _ _ = false

-- `(a != b).then_some((a, b))`
abbrev pub differing {ℓ} : {A : Type ℓ} → Bool → A → A → Option (A × A)
differing true a b = none
differing false a b = some (a, b)

abbrev pub diff_of :
    Option (FactLifecycle × FactLifecycle)
    → Option (FactValue × FactValue)
    → Option (Option FactId × Option FactId)
    → Option (List FactId × List FactId)
    → Option (ℕ × ℕ)
    → StateDiff
diff_of lifecycle value superseded_by contradicted_by evidence_count =
    if is_none lifecycle
      && is_none value
      && is_none superseded_by
      && is_none contradicted_by
      && is_none evidence_count
    then unchanged
    else changed lifecycle value superseded_by contradicted_by evidence_count

unfoldable pub diff_states : Option FactState → Option FactState → StateDiff
diff_states none none = unchanged
diff_states none (some cf) = appeared
diff_states (some base) none = disappeared
diff_states (some base) (some cf) =
    diff_of (differing (lifecycle_eq base.lifecycle cf.lifecycle) base.lifecycle cf.lifecycle)
      (differing (value_eq base.value cf.value) base.value cf.value)
      (differing (target_eq base.superseded_by cf.superseded_by) base.superseded_by
        cf.superseded_by)
      (differing (ids_eq base.contradicted_by cf.contradicted_by) base.contradicted_by
        cf.contradicted_by)
      (differing (nat_eq base.evidence_count cf.evidence_count) base.evidence_count
        cf.evidence_count)

lifecycle_eq_iff : (a b : FactLifecycle) → (lifecycle_eq a b ≡ true) ↔ (a ≡ b)
lifecycle_eq_iff a b = ground arith

target_eq_iff : (a b : Option FactId) → (target_eq a b ≡ true) ↔ (a ≡ b)
target_eq_iff none none = ground arith
target_eq_iff none (some b) = ground arith
target_eq_iff (some a) none = ground arith
target_eq_iff (some a) (some b) = ground (arith, eq_iff a b)

ids_eq_iff : (x y : List FactId) → (ids_eq x y ≡ true) ↔ (x ≡ y)
ids_eq_iff [] [] = ground arith
ids_eq_iff [] (b ∷ y) = ground arith
ids_eq_iff (a ∷ x) [] = ground arith
ids_eq_iff (a ∷ x) (b ∷ y) = ground (arith, eq_iff a b, ids_eq_iff x y)

-- The two folds agree on what a stream can change of a fact.
pub record Agrees (a b : FactState) : Type 0 where
  pub lifecycle : a.lifecycle ≡ b.lifecycle
  pub value : a.value ≡ b.value
  pub superseded_by : a.superseded_by ≡ b.superseded_by
  pub contradicted_by : a.contradicted_by ≡ b.contradicted_by
  pub evidence_count : a.evidence_count ≡ b.evidence_count

-- Two folds that are there are reported as unchanged exactly when they agree on the lifecycle, the value, the fact
-- that supersedes, those that contradict, and the count of evidence.
pub diff_states_iff : (a b : FactState) → (diff_states (some a) (some b) ≡ unchanged) ↔ Agrees a b
unfolding diff_states
diff_states_iff a b =
    let l = lifecycle_eq_iff a.lifecycle b.lifecycle in
    let v = value_eq_iff a.value b.value in
    let s = target_eq_iff a.superseded_by b.superseded_by in
    let c = ids_eq_iff a.contradicted_by b.contradicted_by in
    (
      λ h. record {
        lifecycle = l.0 (ground arith);
        value = v.0 (ground arith);
        superseded_by = s.0 (ground arith);
        contradicted_by = c.0 (ground arith);
        evidence_count = ground arith;
      },
      λ g. ground (
        arith,
        l.1 g.lifecycle,
        v.1 g.value,
        s.1 g.superseded_by,
        c.1 g.contradicted_by,
        g.evidence_count,
      ),
    )
