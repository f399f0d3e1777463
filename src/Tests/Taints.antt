-- ===== src/Tests/Taints.antt =====
-- A derivation that outlives its source.
use dent.Prelude.{◌≡◌, refl, true, none, some, List, [], ◌∷◌, ok, All, false}
use dent.Prelude.Maps.{get, insert, replace, place, contains, include}
use dent.Model.{
  FactId, FactEvent, high, retracted, source_invalidated, derived_from, dependency_edges, validate,
  is_blank, new_id,
}
use dent.State.{
  FactLifecycle, apply_event, apply_valid_event, apply_initial_event, initial_by_kind,
  initial_state, apply_next_event, apply_kind,
}
use dent.Subject.{group}
use dent.Taint.{
  Deps, Lifecycles, survey, fold_stream, is_invalidated, an_invalidated_root, search_root,
  enough_fuel, unseen_edges, Derives, tainted_facts, report, taint_of, TaintedFact,
}
use dent.Taint.Roots.{an_invalidated_root_lem, tainted_facts_lem, IsTainted, IsCovered}
use dent.Tests.Fixtures.{event, assertion}

abbrev source : FactEvent
source = assertion "e1" "fact:A" "source:web" high

abbrev derivative : FactEvent
derivative = record (assertion "e2" "fact:B" "source:owner" high) {
  evidence =
      record {
        id = "evidence:2";
        kind = derived_from;
        locator = "fact:A";
        digest = none;
        summary = none;
      }
      ∷ [];
}

abbrev removal : FactEvent
removal = event "e3" "fact:A" (retracted source_invalidated) none "source:web" high

abbrev history : List FactEvent
history = source ∷ derivative ∷ removal ∷ []

abbrev lifecycles : Lifecycles
lifecycles = ("fact:A", FactLifecycle.retracted) ∷ ("fact:B", FactLifecycle.active) ∷ []

abbrev sources : Deps
sources = ("fact:A", []) ∷ ("fact:B", "fact:A" ∷ []) ∷ []

surveyed : survey [] [] (group [] history) ≡ ok (lifecycles, sources)
unfolding survey group fold_stream insert replace place get dependency_edges validate apply_event
    apply_valid_event apply_initial_event initial_by_kind initial_state apply_next_event apply_kind
    is_blank new_id
surveyed = refl

tainted_facts_lem_example :
    (ts : List TaintedFact) × (tainted_facts history ≡ ok ts)
    × All (IsTainted lifecycles sources lifecycles) ts
    × All (IsCovered lifecycles sources ts) lifecycles
tainted_facts_lem_example = tainted_facts_lem history lifecycles sources surveyed

an_invalidated_root_lem_example :
    ((root : FactId)
      → an_invalidated_root sources (is_invalidated lifecycles) "fact:B" ≡ some root
      → Derives sources "fact:B" root × (is_invalidated lifecycles root ≡ true))
    × (an_invalidated_root sources (is_invalidated lifecycles) "fact:B" ≡ none
        → (v : FactId) → Derives sources "fact:B" v
        → is_invalidated lifecycles v ≡ false)
an_invalidated_root_lem_example =
    an_invalidated_root_lem sources (is_invalidated lifecycles) "fact:B"

reported :
    tainted_facts history
    ≡ ok
        (record { fact = "fact:B"; root = "fact:A"; root_lifecycle = FactLifecycle.retracted } ∷ [])
unfolding tainted_facts survey group fold_stream insert replace place get dependency_edges validate
    apply_event apply_valid_event apply_initial_event initial_by_kind initial_state apply_next_event
    apply_kind is_blank new_id report taint_of an_invalidated_root search_root enough_fuel
    unseen_edges contains include
reported = refl
