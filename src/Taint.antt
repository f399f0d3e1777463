-- ===== src/Taint.antt =====
-- `tainted_facts` and `an_invalidated_root` of crates/dent8-store/src/lib.rs: the facts that are still believed and
-- derive from a fact that was retracted or has expired.
pub mod Search
pub mod Roots
use dent.Prelude.{
  ◌≡◌, ℕ, zero, suc, ◌+◌, Bool, true, false, Option, none, some, List, [], ◌∷◌, ◌++◌, ◌==◌,
  if◌then◌else◌, length, any, is_some_and, unwrap_or, Result, ok, err, map_err, ◌>>=◌,
}
use dent.Prelude.Maps.{Map, Set, string_key, get, insert, contains, include}
use dent.Model.{FactId, FactEvent, dependency_edges}
use dent.State.{FactState, FactLifecycle, is_terminal, apply_event}
use dent.Replay.{ReplayError, transition}
use dent.Subject.{group, has}

-- The sources of each fact.
abbrev pub Deps : Type 0
Deps = Map FactId (List FactId)

abbrev pub edges : Deps → FactId → List FactId
edges deps fact = unwrap_or (get fact deps) []

-- `stack.extend(further)` on a stack that is written from its top.
abbrev pub extend : List FactId → List FactId → List FactId
extend [] stack = stack
extend (x ∷ further) stack = extend further (x ∷ stack)

-- The edges out of the facts that were not seen.
unfoldable pub unseen_edges : Set FactId → Deps → ℕ
unseen_edges seen [] = 0
unseen_edges seen ((fact, sources) ∷ deps) =
    (if contains fact seen then 0 else length sources) + unseen_edges seen deps

module _ (deps : Deps) where
  -- `v` derives from `u` over one edge or more.
  pub data Derives (u : FactId) : FactId → Type 0 where
    direct : {v : FactId} → has v (edges deps u) ≡ true → Derives u v
    further : {v w : FactId} → Derives u v → has w (edges deps v) ≡ true → Derives u w

  -- Each round takes a fact off the stack, and puts a fact's sources on it once.
  unfoldable pub enough_fuel : FactId → ℕ
  enough_fuel fact = suc (length (edges deps fact) + unseen_edges [] deps)

module _ (deps : Deps) (invalidated : FactId → Bool) where
  -- The loop of `an_invalidated_root`; `none` is out of fuel.
  unfoldable pub search_root : ℕ → Set FactId → List FactId → Option (Option FactId)
  search_root zero seen stack = none
  search_root (suc fuel) seen [] = some none
  search_root (suc fuel) seen (next ∷ stack) = elim (contains next seen) [
    | true ↦ search_root fuel seen stack
    | false ↦ elim (invalidated next) [
      | true ↦ some (some next)
      | false ↦ search_root fuel (include next seen) (extend (edges deps next) stack)
    ]
  ]

  unfoldable pub an_invalidated_root : FactId → Option FactId
  an_invalidated_root fact =
      unwrap_or (search_root (enough_fuel deps fact) [] (extend (edges deps fact) [])) none

-- The fold of one stream, with the sources that its events name.
unfoldable pub fold_stream :
    Option FactState
    → List FactId
    → List FactEvent
    → Result ReplayError (Option FactState × List FactId)
fold_stream state sources [] = ok (state, sources)
fold_stream state sources (event ∷ events) = do
  next ← map_err transition (apply_event state event)
  fold_stream (some next) (sources ++ dependency_edges event) events

abbrev pub Lifecycles : Type 0
Lifecycles = Map FactId FactLifecycle

abbrev pub note_lifecycle : FactId → Option FactState → Lifecycles → Lifecycles
note_lifecycle fact none lifecycle = lifecycle
note_lifecycle fact (some state) lifecycle = insert fact state.lifecycle lifecycle

-- The loop over the streams.
unfoldable pub survey :
    Lifecycles → Deps → Map FactId (List FactEvent) → Result ReplayError (Lifecycles × Deps)
survey lifecycle deps [] = ok (lifecycle, deps)
survey lifecycle deps ((fact, stream) ∷ streams) = do
  (state, sources) ← fold_stream none [] stream
  survey (note_lifecycle fact state lifecycle) (insert fact sources deps) streams

abbrev pub is_invalid : FactLifecycle → Bool
is_invalid FactLifecycle.retracted = true
is_invalid FactLifecycle.expired = true
is_invalid _ = false

abbrev pub is_invalidated : Lifecycles → FactId → Bool
is_invalidated lifecycle fact = is_some_and (get fact lifecycle) is_invalid

pub record TaintedFact : Type 0 where
  pub fact : FactId
  pub root : FactId
  pub root_lifecycle : FactLifecycle

-- `lifecycle[&root]` panics where the key is missing.
pub data TaintFault : Type 0 where
  replay_error : ReplayError → TaintFault
  missing_key : FactId → TaintFault

-- What one fact adds to the report.
unfoldable pub taint_of :
    Lifecycles → Deps → FactId → FactLifecycle → Result TaintFault (List TaintedFact)
taint_of lifecycle deps fact life = elim (is_terminal life) [
  | true ↦ ok []
  | false ↦ elim (an_invalidated_root deps (is_invalidated lifecycle) fact) [
    | none ↦ ok []
    | some root ↦ elim (get root lifecycle) [
      | none ↦ err (missing_key root)
      | some root_lifecycle ↦
          ok (record { fact = fact; root = root; root_lifecycle = root_lifecycle } ∷ [])
    ]
  ]
]

-- The loop over the facts.
unfoldable pub report : Lifecycles → Deps → Lifecycles → Result TaintFault (List TaintedFact)
report lifecycle deps [] = ok []
report lifecycle deps ((fact, life) ∷ facts) = do
  here ← taint_of lifecycle deps fact life
  rest ← report lifecycle deps facts
  ok (here ++ rest)

unfoldable pub tainted_facts : List FactEvent → Result TaintFault (List TaintedFact)
tainted_facts events = do
  (lifecycle, deps) ← map_err replay_error (survey [] [] (group [] events))
  report lifecycle deps lifecycle
