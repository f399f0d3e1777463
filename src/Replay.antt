-- ===== src/Replay.antt =====
-- The replay of crates/dent8-store/src/lib.rs: one fact's stream of events, folded under a policy.
pub mod Diff
pub mod Strict
pub mod Poison
pub mod Counterfactual
use dent.Prelude.{
  Bool, true, false, not, ◌&&◌, Option, none, some, List, [], ◌∷◌, any, is_none, if◌then◌else◌,
  Result, ok, err, map_err, ◌>>=◌,
}
use dent.Model.{FactEvent, is_asserted}
use dent.State.{FactState, TransitionError, apply_event}
use dent.Policy.{EpistemicPolicy, identity, admits}

pub data ReplayError : Type 0 where
  transition : TransitionError → ReplayError

-- The loop of `fold_fact`, from the state that it has reached. The flag says that the policy refuses an assertion
-- of the stream.
unfoldable pub fold_from :
    EpistemicPolicy
    → Bool
    → Option FactState
    → List FactEvent
    → Result ReplayError (Option FactState)
fold_from policy assertion_filtered state [] = ok state
fold_from policy assertion_filtered state (event ∷ events) =
    let skipped = fold_from policy assertion_filtered state events in
    if not (admits policy event)
    then skipped
    else if is_none state && assertion_filtered && not (is_asserted event.kind)
    then ok none
    else do
      next ← map_err transition (apply_event state event)
      fold_from policy assertion_filtered (some next) events

abbrev pub refuses_assertion : EpistemicPolicy → List FactEvent → Bool
refuses_assertion policy events =
    any (λ event. is_asserted event.kind && not (admits policy event)) events

unfoldable pub fold_fact : List FactEvent → EpistemicPolicy → Result ReplayError (Option FactState)
fold_fact events policy = fold_from policy (refuses_assertion policy events) none events

unfoldable pub replay_fact_with_policy :
    List FactEvent → EpistemicPolicy → Result ReplayError (Option FactState)
unfolding fold_fact
replay_fact_with_policy events policy = fold_fact events policy

unfoldable pub replay_fact : List FactEvent → Result ReplayError (Option FactState)
unfolding replay_fact_with_policy
replay_fact events = replay_fact_with_policy events identity
