-- ===== src/Subject/Cycles.antt =====
-- The walks of `supersession_cycle_members` of crates/dent8-store/src/lib.rs along the supersessions of a subject.
use dent.Prelude.{
  ℕ, zero, suc, ◌+◌, ◌≤◌, ◌<◌, ◌≡◌, refl, none, some, List, [], ◌∷◌, ◌++◌, arith, eq_iff,
  if◌then◌else◌, length, is_none, inl, inr, Bool-cases, Option-cases,
}
use dent.Prelude.Maps.{Map, Set, string_key, get, insert, get-insert, contains}
use dent.Model.{FactId}
use dent.State.{FactState}
use dent.Subject.{successor, walk, drop, include_all}

-- The facts that a walk has not met.
abbrev pub unmet : Map FactId ℕ → Map FactId FactState → ℕ
unmet index [] = 0
unmet index ((fact, _) ∷ facts) = (if is_none (get fact index) then 1 else 0) + unmet index facts

pub unmet-le :
    (index : Map FactId ℕ) (facts : Map FactId FactState) → unmet index facts ≤ length facts
unmet-le index [] = omega arith
unmet-le index ((k, s) ∷ facts) = ground (arith, unmet-le index facts)

unmet-insert-le :
    (node : FactId) (n : ℕ) (index : Map FactId ℕ) (facts : Map FactId FactState)
    → unmet (insert node n index) facts ≤ unmet index facts
unmet-insert-le node n index [] = omega arith
unmet-insert-le node n index ((k, s) ∷ facts) =
    ground (arith, get-insert node k n index, unmet-insert-le node n index facts)

-- A fact of the subject that is met for the first time leaves one fewer to meet.
unmet-insert :
    (node : FactId) (n : ℕ) (index : Map FactId ℕ) (facts : Map FactId FactState)
    (state : FactState)
    → get node facts ≡ some state
    → get node index ≡ none
    → unmet (insert node n index) facts < unmet index facts
unfolding get
unmet-insert node n index [] state h fresh = cc
unmet-insert node n index ((k, s) ∷ facts) state h fresh = ground (
  arith,
  get-insert node k n index,
  eq_iff k node,
  eq_iff node k,
  unmet-insert-le node n index facts,
  unmet-insert node n index facts state,
)

pub successor_is_there :
    (facts : Map FactId FactState) (node next : FactId)
    → successor facts node ≡ some next
    → (state : FactState) × (get next facts ≡ some state)
successor_is_there facts node next h = elim (Option-cases (get next facts)) [
  | inr (state, there) ↦ (state, there)
  | inl missing ↦ absurd (ground (arith, missing))
]

module _ (facts : Map FactId FactState) where
  pub walk-ends :
      (n : ℕ) (on_cycle : Set FactId) (index : Map FactId ℕ) (path : List FactId) (node : FactId)
      (state : FactState)
      → get node facts ≡ some state
      → unmet index facts < n
      → (members : Set FactId) × (walk facts n on_cycle index path node ≡ some members)
  unfolding walk
  walk-ends zero on_cycle index path node state here le = absurd (omega arith)
  walk-ends (suc n) on_cycle index path node state here le = elim (Option-cases (get node index)) [
    | inr (first, met) ↦ (include_all (drop first path) on_cycle, rw (met, walk) refl)
    | inl fresh ↦ elim (Bool-cases (contains node on_cycle)) [
      | inl known ↦ (on_cycle, rw (fresh, known, walk) refl)
      | inr new ↦ elim (Option-cases (successor facts node)) [
        | inl end ↦ (on_cycle, rw (fresh, new, end, walk) refl)
        | inr (next, goes) ↦
            let (there, is_there) = successor_is_there facts node next goes in
            rw (fresh, new, goes, walk)
              (walk-ends n on_cycle (insert node (length path) index) (path ++ node ∷ []) next there
                is_there
                (omega (arith, unmet-insert node (length path) index facts state here fresh)))
      ]
    ]
  ]
