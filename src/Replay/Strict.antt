-- ===== src/Replay/Strict.antt =====
-- The plain replay of crates/dent8-store/src/lib.rs is the fold of `apply_event`, and goes on where it stopped.
use dent.Prelude.{
  true, false, ◌≡◌, refl, Option, none, some, List, [], ◌∷◌, ◌++◌, arith, keep, Result, ok, err,
  map_err, ◌>>=◌, inl, inr, Result-cases, Bool-cases, ap, ◌∙◌,
}
use dent.Model.{FactEvent}
use dent.State.{FactState, TransitionError, apply_event}
use dent.Policy.{EpistemicPolicy, identity, admits, identity-admits}
use dent.Replay.{transition, fold_from, refuses_assertion, replay_fact_with_policy, replay_fact}

-- The fold with no policy and no early return.
unfoldable pub strict :
    Option FactState → List FactEvent → Result TransitionError (Option FactState)
strict state [] = ok state
strict state (event ∷ events) = do next ← apply_event state event; strict (some next) events

pub some_of_ok : (s t : FactState) → strict (some s) [] ≡ ok (some t) → s ≡ t
unfolding strict
some_of_ok s t h = ground arith

refuses_nothing :
    (p : EpistemicPolicy) (events : List FactEvent)
    → ((e : FactEvent) → admits p e ≡ true)
    → refuses_assertion p events ≡ false
refuses_nothing p [] all = refl
refuses_nothing p (e ∷ es) all = ground (arith, all e, refuses_nothing p es all)

-- With no assertion refused, the refused events might as well not be there.
pub fold_from-keep :
    (p : EpistemicPolicy) (state : Option FactState) (events : List FactEvent)
    → fold_from p false state events ≡ map_err transition (strict state (keep (admits p) events))
unfolding fold_from strict
fold_from-keep p state [] = refl
fold_from-keep p state (e ∷ es) = elim (Bool-cases (admits p e)) [
  | inl a ↦ elim (Result-cases (apply_event state e)) [
    | inl (s, h) ↦ ground (arith, a, h, fold_from-keep p (some s) es)
    | inr (x, h) ↦ ground (arith, a, h)
  ]
  | inr a ↦ ground (arith, a, fold_from-keep p state es)
]

keep_all :
    (p : EpistemicPolicy) (events : List FactEvent)
    → ((e : FactEvent) → admits p e ≡ true)
    → keep (admits p) events ≡ events
keep_all p [] all = refl
keep_all p (e ∷ es) all = ground (arith, all e, keep_all p es all)

-- Under a policy that refuses no assertion of the stream, the replay is the plain replay of the admitted events.
pub replay_with_policy-keep :
    (p : EpistemicPolicy) (events : List FactEvent)
    → refuses_assertion p events ≡ false
    → replay_fact_with_policy events p ≡ map_err transition (strict none (keep (admits p) events))
unfolding replay_fact_with_policy
replay_with_policy-keep p events h = rw h (fold_from-keep p none events)

-- The plain replay is the strict fold.
pub replay-eq-strict :
    (events : List FactEvent) → replay_fact events ≡ map_err transition (strict none events)
unfolding replay_fact
replay-eq-strict events =
    replay_with_policy-keep identity events (refuses_nothing identity events identity-admits)
    ∙ ap (λ es. map_err transition (strict none es)) (keep_all identity events identity-admits)

pub strict-append :
    (state : Option FactState) (xs ys : List FactEvent)
    → strict state (xs ++ ys) ≡ (strict state xs >>= λ s. strict s ys)
unfolding strict
strict-append state [] ys = refl
strict-append state (e ∷ xs) ys = elim (Result-cases (apply_event state e)) [
  | inl (s, h) ↦ rw h (strict-append (some s) xs ys)
  | inr (x, h) ↦ rw h
]

-- A stream that grew is replayed by replaying what was there and then what came.
pub replay-append :
    (xs ys : List FactEvent)
    → replay_fact (xs ++ ys) ≡ (replay_fact xs >>= λ s. map_err transition (strict s ys))
replay-append xs ys =
    rw (replay-eq-strict (xs ++ ys), replay-eq-strict xs, strict-append none xs ys)
      (push (strict none xs))
  where
    push :
        (r : Result TransitionError (Option FactState))
        → map_err transition (r >>= λ s. strict s ys)
          ≡ (map_err transition r >>= λ s. map_err transition (strict s ys))
    push (ok s) = refl
    push (err x) = refl
