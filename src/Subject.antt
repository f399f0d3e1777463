-- ===== src/Subject.antt =====
-- The projection of a subject of crates/dent8-store/src/lib.rs: each fact's state, and what is wrong between the facts.
pub mod Cycles
pub mod Chains
pub mod Members
pub mod Projection
use dent.Prelude.{
  ℕ, zero, suc, ◌+◌, Bool, true, false, not, ◌&&◌, Option, none, some, List, [], ◌∷◌, ◌++◌, map,
  ◌==◌, ltb, nat_eq, if◌then◌else◌, length, keep, any, is_none, is_some_and, unwrap_or, Result, ok,
  err, ◌>>=◌,
}
use dent.Prelude.Maps.{Map, Set, string_key, get, insert, keys, values, contains, include}
use dent.Model.{FactId, FactEvent, FactValue, value_eq, AuthorityLevel, level_lt, level_eq}
use dent.State.{
  FactState, FactLifecycle, is_terminal, lifecycle_eq, earned_entrenchment_at_or_above,
}
use dent.Policy.{EpistemicPolicy, identity}
use dent.Replay.{ReplayError, fold_fact}

-- `streams.entry(fact_id).or_default().push(event)` for each event.
unfoldable pub group : Map FactId (List FactEvent) → List FactEvent → Map FactId (List FactEvent)
group streams [] = streams
group streams (event ∷ events) =
    group (insert event.fact_id (unwrap_or (get event.fact_id streams) [] ++ event ∷ []) streams)
      events

pub record SubjectProjection : Type 0 where
  pub facts : Map FactId FactState

abbrev pub kept : FactId → Option FactState → Map FactId FactState → Map FactId FactState
kept fact none facts = facts
kept fact (some state) facts = insert fact state facts

-- The loop over the streams.
unfoldable pub fold_streams :
    EpistemicPolicy
    → Map FactId FactState
    → Map FactId (List FactEvent)
    → Result ReplayError (Map FactId FactState)
fold_streams policy facts [] = ok facts
fold_streams policy facts ((fact, stream) ∷ streams) = do
  state ← fold_fact stream policy
  fold_streams policy (kept fact state facts) streams

unfoldable pub replay_subject_with_policy :
    List FactEvent → EpistemicPolicy → Result ReplayError SubjectProjection
replay_subject_with_policy events policy = do
  facts ← fold_streams policy [] (group [] events)
  ok (record { facts = facts })

unfoldable pub replay_subject : List FactEvent → Result ReplayError SubjectProjection
replay_subject events = replay_subject_with_policy events identity

unfoldable pub believed : SubjectProjection → List FactState
believed p = keep (λ state. not (is_terminal state.lifecycle)) (values p.facts)

unfoldable pub contested : SubjectProjection → List FactState
contested p = keep (λ state. lifecycle_eq state.lifecycle FactLifecycle.contested) (values p.facts)

-- The fact that a fact's state names as its replacement, if it is in the subject.
abbrev pub successor : Map FactId FactState → FactId → Option FactId
successor facts node = elim (get node facts) [
  | none ↦ none
  | some state ↦ elim state.superseded_by [
    | none ↦ none
    | some next ↦ elim (get next facts) [ none ↦ none | some _ ↦ some next ]
  ]
]

abbrev pub include_all : List FactId → Set FactId → Set FactId
include_all [] on_cycle = on_cycle
include_all (fact ∷ members) on_cycle = include_all members (include fact on_cycle)

abbrev pub has : FactId → List FactId → Bool
has fact xs = any (λ x. x == fact) xs

-- `&path[first..]`
abbrev pub drop : ℕ → List FactId → List FactId
drop zero path = path
drop (suc n) [] = []
drop (suc n) (_ ∷ path) = drop n path

module _ (facts : Map FactId FactState) where
  -- The inner loop of `supersession_cycle_members`; `none` is out of fuel.
  unfoldable pub walk : ℕ → Set FactId → Map FactId ℕ → List FactId → FactId → Option (Set FactId)
  walk zero on_cycle index path node = none
  walk (suc fuel) on_cycle index path node = elim (get node index) [
    | some first ↦ some (include_all (drop first path) on_cycle)
    | none ↦ elim (contains node on_cycle) [
      | true ↦ some on_cycle
      | false ↦ elim (successor facts node) [
        | none ↦ some on_cycle
        | some next ↦ walk fuel on_cycle (insert node (length path) index) (path ++ node ∷ []) next
      ]
    ]
  ]

  -- A walk meets each fact of the subject once.
  abbrev pub walk_fuel : ℕ
  walk_fuel = suc (suc (length facts))

  unfoldable pub cycles_from : Set FactId → List FactId → Set FactId
  cycles_from on_cycle [] = on_cycle
  cycles_from on_cycle (start ∷ starts) =
      cycles_from
        (if contains start on_cycle
          then on_cycle
          else unwrap_or (walk walk_fuel on_cycle [] [] start) on_cycle)
        starts

  unfoldable pub supersession_cycle_members : Set FactId
  supersession_cycle_members = cycles_from [] (keys facts)

pub data LineageIssue : Type 0 where
  dangling_supersession : FactId → FactId → LineageIssue
  superseded_by_invalidated : FactId → FactId → FactLifecycle → LineageIssue
  supersession_cycle : FactId → LineageIssue

abbrev pub closed_off : FactLifecycle → Bool
closed_off FactLifecycle.retracted = true
closed_off FactLifecycle.expired = true
closed_off _ = false

-- The issues of one fact's state.
unfoldable pub lineage_of : Map FactId FactState → Set FactId → FactState → List LineageIssue
lineage_of facts on_cycle state =
    if contains state.fact_id on_cycle
    then supersession_cycle state.fact_id ∷ []
    else elim state.superseded_by [
      | none ↦ []
      | some target ↦ elim (get target facts) [
        | none ↦ dangling_supersession state.fact_id target ∷ []
        | some t ↦
            if closed_off t.lifecycle
            then superseded_by_invalidated state.fact_id target t.lifecycle ∷ []
            else []
      ]
    ]

abbrev pub gather {ℓ} : {A : Type ℓ} → (FactState → List A) → List FactState → List A
gather f [] = []
gather f (state ∷ states) = f state ++ gather f states

unfoldable pub lineage_issues : SubjectProjection → List LineageIssue
lineage_issues p = gather (lineage_of p.facts (supersession_cycle_members p.facts)) (values p.facts)

pub data UnearnedSupersession : Type 0 where
  -- the superseded fact, the fact that replaced it, and what each has
  authority_downgrade : FactId → FactId → AuthorityLevel → AuthorityLevel → UnearnedSupersession
  weaker_entrenchment : FactId → FactId → ℕ → ℕ → UnearnedSupersession

-- The two at one level of authority.
abbrev pub judge_equals : FactId → FactId → ℕ → ℕ → List UnearnedSupersession
judge_equals superseded by incumbent challenger =
    if ltb challenger incumbent
    then weaker_entrenchment superseded by incumbent challenger ∷ []
    else []

-- What is unearned in the replacement of `state` by the fact `target`, whose state is `by`.
unfoldable pub judge : FactState → FactId → FactState → List UnearnedSupersession
judge state target by =
    if level_lt by.authority.level state.authority.level
    then authority_downgrade state.fact_id target state.authority.level by.authority.level ∷ []
    else if level_eq by.authority.level state.authority.level
    then judge_equals state.fact_id target
        (earned_entrenchment_at_or_above state state.authority.level)
        (earned_entrenchment_at_or_above by state.authority.level)
    else []

unfoldable pub unearned_of :
    Map FactId FactState → Set FactId → FactState → List UnearnedSupersession
unearned_of facts on_cycle state =
    if contains state.fact_id on_cycle then [] else elim state.superseded_by [
      | none ↦ []
      | some target ↦ elim (get target facts) [ none ↦ [] | some by ↦ judge state target by ]
    ]

unfoldable pub unearned_supersessions : SubjectProjection → List UnearnedSupersession
unearned_supersessions p =
    gather (unearned_of p.facts (supersession_cycle_members p.facts)) (values p.facts)
