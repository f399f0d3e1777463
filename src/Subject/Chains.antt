-- ===== src/Subject/Chains.antt =====
-- Paths along the supersessions of a subject (`superseded_by` of crates/dent8-core/src/state.rs).
use dent.Prelude.{
  ℕ, zero, suc, ◌≡◌, refl, true, ◌||◌, some, List, [], ◌∷◌, ◌++◌, arith, ◌==◌, eq_iff, eq_refl, inl,
  inr, Bool-cases,
}
use dent.Prelude.Maps.{Map, Set, string_key, contains, include, contains-include}
use dent.Model.{FactId}
use dent.State.{FactState}
use dent.Subject.{successor, drop, include_all, has}

pub contains-include_all :
    (v : FactId) (ms : List FactId) (s : Set FactId)
    → contains v (include_all ms s) ≡ (has v ms || contains v s)
contains-include_all v [] s = refl
contains-include_all v (m ∷ ms) s =
    ground (arith, contains-include_all v ms (include m s), contains-include m v s)

module _ (facts : Map FactId FactState) where
  -- From `u`, one supersession or more lead to `w`.
  pub data Leads : FactId → FactId → Type 0 where
    one : {u w : FactId} → successor facts u ≡ some w → Leads u w
    step : {u v w : FactId} → successor facts u ≡ some v → Leads v w → Leads u w

  pub Leads-trans : {u v w : FactId} → Leads u v → Leads v w → Leads u w
  Leads-trans (one e) b = step e b
  Leads-trans (step e a) b = step e (Leads-trans a b)

  -- A path whose facts replace each other in turn, the last by `node`.
  abbrev pub Chain : List FactId → FactId → Type 0
  Chain [] node = Unit
  Chain (k ∷ []) node = (successor facts k ≡ some node) × Unit {0}
  Chain (k ∷ j ∷ ks) node = (successor facts k ≡ some j) × Chain (j ∷ ks) node

  pub Chain-append :
      (ks : List FactId) (node next : FactId)
      → Chain ks node
      → successor facts node ≡ some next
      → Chain (ks ++ node ∷ []) next
  Chain-append [] node next c e = (e, tt)
  Chain-append (k ∷ []) node next c e = (c.0, (e, tt))
  Chain-append (k ∷ j ∷ ks) node next c e = (c.0, Chain-append (j ∷ ks) node next c.1 e)

  Chain-tail : (k : FactId) (ks : List FactId) (node : FactId) → Chain (k ∷ ks) node → Chain ks node
  Chain-tail k [] node c = tt
  Chain-tail k (j ∷ ks) node c = c.1

  pub Chain-drop :
      (i : ℕ) (ks : List FactId) (node : FactId) → Chain ks node → Chain (drop i ks) node
  Chain-drop zero ks node c = c
  Chain-drop (suc i) [] node c = tt
  Chain-drop (suc i) (k ∷ ks) node c = Chain-drop i ks node (Chain-tail k ks node c)

  Chain-Leads : (k : FactId) (ks : List FactId) (node : FactId) → Chain (k ∷ ks) node → Leads k node
  Chain-Leads k [] node c = one c.0
  Chain-Leads k (j ∷ ks) node c = step c.0 (Chain-Leads j ks node c.1)

  -- What is on the path leads to its end, and its start leads to what is on it.
  from_path : (ks : List FactId) (node m : FactId) → Chain ks node → has m ks ≡ true → Leads m node
  from_path [] node m c h = cc
  from_path (k ∷ ks) node m c h = elim (Bool-cases (k == m)) [
    | inl same ↦ rw (← (eq_iff k m).0 same) (Chain-Leads k ks node c)
    | inr other ↦ from_path ks node m (Chain-tail k ks node c) (ground arith)
  ]

  to_path :
      (k : FactId) (ks : List FactId) (node m : FactId)
      → Chain (k ∷ ks) node
      → has m ks ≡ true
      → Leads k m
  to_path k [] node m c h = cc
  to_path k (j ∷ ks) node m c h = elim (Bool-cases (j == m)) [
    | inl same ↦ rw (← (eq_iff j m).0 same) (one c.0)
    | inr other ↦ step c.0 (to_path j ks node m c.1 (ground arith))
  ]

  -- A path from a fact back to it: all on it lead back to themselves.
  pub ring_Leads :
      (node : FactId) (ks : List FactId) (m : FactId)
      → Chain (node ∷ ks) node
      → has m (node ∷ ks) ≡ true
      → Leads m m
  ring_Leads node ks m c h = elim (Bool-cases (node == m)) [
    | inl same ↦ rw (← (eq_iff node m).0 same) (Chain-Leads node ks node c)
    | inr other ↦
        let on : has m ks ≡ true = ground arith in
        Leads-trans (from_path (node ∷ ks) node m c h) (to_path node ks node m c on)
  ]

  -- The replacement of what is on the path is on it, or is its end.
  path_closed :
      (ks : List FactId) (node v w : FactId)
      → Chain ks node
      → has v ks ≡ true
      → successor facts v ≡ some w
      → (has w ks || w == node) ≡ true
  path_closed [] node v w c h e = cc
  path_closed (k ∷ []) node v w c h e = ground (arith, c, eq_iff k v, eq_refl node)
  path_closed (k ∷ j ∷ ks) node v w c h e =
      ground (arith, c.0, eq_iff k v, eq_refl j, path_closed (j ∷ ks) node v w c.1)

  -- A set that holds the replacement of each fact that it holds.
  abbrev pub Closed : Set FactId → Type 0
  Closed s = (v w : FactId) → contains v s ≡ true → successor facts v ≡ some w → contains w s ≡ true

  pub Closed-Leads :
      (s : Set FactId) {u w : FactId}
      → Closed s
      → contains u s ≡ true
      → Leads u w
      → contains w s ≡ true
  Closed-Leads s c m (one e) = c _ _ m e
  Closed-Leads s c m (step e r) = Closed-Leads s c (c _ _ m e) r

  pub ring_Closed :
      (node : FactId) (ks : List FactId) (s : Set FactId)
      → Chain (node ∷ ks) node
      → Closed s
      → Closed (include_all (node ∷ ks) s)
  ring_Closed node ks s c closed v w m e = ground (
    arith,
    contains-include_all v (node ∷ ks) s,
    contains-include_all w (node ∷ ks) s,
    path_closed (node ∷ ks) node v w c,
    closed v w,
    eq_iff w node,
    eq_refl node,
  )
