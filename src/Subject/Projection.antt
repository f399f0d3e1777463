-- ===== src/Subject/Projection.antt =====
-- The projection of a subject of crates/dent8-store/src/lib.rs against the replay of each fact's stream.
use mathlib.Core.List.{append-nil, append_assoc}
use dent.Prelude.{
  Bool, true, false, not, ◌≡◌, refl, sym, ap, ◌∙◌, Option, none, some, List, [], ◌∷◌, ◌++◌, map,
  arith, any, keep, ◌==◌, eq_iff, unwrap_or, ok, ok_injective, bind_inverts, ◌&&◌, inl, inr,
  Option-cases, Bool-cases,
}
use dent.Prelude.Maps.{
  Map, string_key, get, insert, get-insert, IsDistinct, insert-IsDistinct, values,
}
use dent.Model.{FactId, FactEvent}
use dent.State.{FactState, is_terminal}
use dent.Policy.{EpistemicPolicy, identity}
use dent.Replay.{fold_fact, fold_from, replay_fact, replay_fact_with_policy}
use dent.Subject.{
  group, kept, fold_streams, SubjectProjection, replay_subject, replay_subject_with_policy,
  believed, has,
}

-- The part of a list of events that is about a fact.
abbrev pub about : FactId → List FactEvent → List FactEvent
about f es = keep (λ e. e.fact_id == f) es

group-get :
    (f : FactId) (m : Map FactId (List FactEvent)) (es : List FactEvent)
    → unwrap_or (get f (group m es)) [] ≡ unwrap_or (get f m) [] ++ about f es
unfolding group
group-get f m [] = sym (append-nil (unwrap_or (get f m) []))
group-get f m (e ∷ es) =
    let next = insert e.fact_id (unwrap_or (get e.fact_id m) [] ++ e ∷ []) m in
    group-get f next es ∙ step
  where
    step :
        unwrap_or (get f (insert e.fact_id (unwrap_or (get e.fact_id m) [] ++ e ∷ []) m)) []
          ++ about f es
        ≡ unwrap_or (get f m) [] ++ about f (e ∷ es)
    step = elim (Bool-cases (e.fact_id == f)) [
      | inl same ↦
          rw (get-insert e.fact_id f (unwrap_or (get e.fact_id m) [] ++ e ∷ []) m, same)
            (append_assoc (unwrap_or (get e.fact_id m) []) (e ∷ []) (about f es)
              ∙ ap (λ g. unwrap_or (get g m) [] ++ e ∷ about f es) ((eq_iff e.fact_id f).0 same))
      | inr other ↦
          rw (get-insert e.fact_id f (unwrap_or (get e.fact_id m) [] ++ e ∷ []) m, other) refl
    ]

group-IsDistinct :
    (m : Map FactId (List FactEvent)) (es : List FactEvent) → IsDistinct m → IsDistinct (group m es)
unfolding group
group-IsDistinct m [] d = d
group-IsDistinct m (e ∷ es) d =
    group-IsDistinct (insert e.fact_id (unwrap_or (get e.fact_id m) [] ++ e ∷ []) m) es
      (insert-IsDistinct e.fact_id (unwrap_or (get e.fact_id m) [] ++ e ∷ []) m d)

kept-get :
    (f g : FactId) (o : Option FactState) (facts : Map FactId FactState)
    → (g == f) ≡ false
    → get f (kept g o facts) ≡ get f facts
kept-get f g none facts h = refl
kept-get f g (some s) facts h = rw (get-insert g f s facts, h) refl

module _ (policy : EpistemicPolicy) where
  fold_streams-other :
      (f : FactId) (facts out : Map FactId FactState) (streams : Map FactId (List FactEvent))
      → fold_streams policy facts streams ≡ ok out
      → get f streams ≡ none
      → get f out ≡ get f facts
  unfolding fold_streams get
  fold_streams-other f facts out [] h n = ap (get f) (sym (ok_injective h))
  fold_streams-other f facts out ((g, stream) ∷ streams) h n =
      let (o, (folded, rest)) = bind_inverts (fold_fact stream policy) _ h in
      elim (Bool-cases (g == f)) [
        | inl same ↦ absurd (ground arith)
        | inr differs ↦
            fold_streams-other f (kept g o facts) out streams rest (ground arith)
            ∙ kept-get f g o facts differs
      ]

  -- A fact whose stream folds to a state is in the projection with that state.
  fold_streams-get :
      (f : FactId) (facts out : Map FactId FactState) (streams : Map FactId (List FactEvent))
      (stream : List FactEvent) (s : FactState)
      → IsDistinct streams
      → fold_streams policy facts streams ≡ ok out
      → get f streams ≡ some stream
      → fold_fact stream policy ≡ ok (some s)
      → get f out ≡ some s
  unfolding fold_streams get
  fold_streams-get f facts out [] stream s d h g r = cc
  fold_streams-get f facts out ((j, first) ∷ streams) stream s d h g r =
      let (o, (folded, rest)) = bind_inverts (fold_fact first policy) _ h in
      elim (Bool-cases (j == f)) [
        | inr differs ↦
            fold_streams-get f (kept j o facts) out streams stream s d.1 rest (ground arith) r
        | inl same ↦
            let is_f = (eq_iff j f).0 same in
            let it : first ≡ stream = ground arith in
            let state : o ≡ some s =
              ok_injective (sym folded ∙ (ap (λ x. fold_fact x policy) it ∙ r)) in
            fold_streams-other f (kept j o facts) out streams rest (rw is_f at d.0)
            ∙ (ap (λ x. get f (kept j x facts)) state ∙ rw (get-insert j f s facts, same) refl)
      ]

values-any :
    (p : FactState → Bool) (f : FactId) (s : FactState) (m : Map FactId FactState)
    → get f m ≡ some s
    → p s ≡ true
    → any p (values m) ≡ true
unfolding get
values-any p f s [] g h = cc
values-any p f s ((j, v) ∷ m) g h = ground (arith, values-any p f s m)

kept_has :
    (f : FactId) (ss : List FactState)
    → any (λ s. not (is_terminal s.lifecycle) && s.fact_id == f) ss ≡ true
    → has f (map (λ s. s.fact_id) (keep (λ s. not (is_terminal s.lifecycle)) ss)) ≡ true
kept_has f [] h = cc
kept_has f (s ∷ ss) h = ground (arith, kept_has f ss)

-- A fact whose stream replays to a state that has not ended is among those that the projection believes.
pub replay_subject-believed :
    (events : List FactEvent) (projection : SubjectProjection) (f : FactId) (s : FactState)
    → replay_subject events ≡ ok projection
    → replay_fact (about f events) ≡ ok (some s)
    → s.fact_id ≡ f
    → is_terminal s.lifecycle ≡ false
    → has f (map (λ x. x.fact_id) (believed projection)) ≡ true
unfolding replay_subject replay_subject_with_policy believed replay_fact replay_fact_with_policy get
    fold_fact fold_from
replay_subject-believed events projection f s h r is_f going =
    let (out, (folded, made)) = bind_inverts (fold_streams identity [] (group [] events)) _ h in
    let stream = group-get f [] events in
    elim (Option-cases (get f (group [] events))) [
      | inl missing ↦ absurd (
          let empty : replay_fact [] ≡ ok (some s) =
            ap replay_fact (sym (ap (λ o. unwrap_or o []) missing) ∙ stream) ∙ r in
          cc)
      | inr (found, there) ↦
          let it : found ≡ about f events = sym (ap (λ o. unwrap_or o []) there) ∙ stream in
          let state =
            fold_streams-get identity f [] out (group [] events) found s
              (group-IsDistinct [] events tt) folded there
              (ap (λ x. fold_fact x identity) it ∙ r) in
          kept_has f (values projection.facts) (
            values-any _ f s projection.facts
              (ap (λ p. get f p.facts) (sym (ok_injective made)) ∙ state)
              (rw (going, is_f, (eq_iff f f).1 refl) refl))
    ]
