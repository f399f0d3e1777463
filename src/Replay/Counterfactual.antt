-- ===== src/Replay/Counterfactual.antt =====
-- What a policy makes of a stream that replays (`fold_fact` of crates/dent8-store/src/lib.rs): the fact is gone, or
-- the admitted events replay.
use dent.Prelude.{
  true, false, ◌≡◌, refl, sym, ◌∙◌, none, some, List, [], ◌∷◌, any, keep, arith, ok, inl, inr,
  Result-cases, Bool-cases, value_of_ok, map_err-eq-ok,
}
use dent.Model.{FactEvent, FactEventKind, asserted, reinforced, is_asserted}
use dent.State.{FactState, is_terminal, stamp, apply_event, apply_kind}
use dent.State.Admission.{Accepts, Allows, Accepts-iff}
use dent.State.Inversion.{apply_Steps, opening_asserts}
use dent.State.Frame.{SameBelief, apply-SameBelief, ended_is_final}
use dent.Policy.{EpistemicPolicy, admits}
use dent.Replay.{transition, fold_from, refuses_assertion, replay_fact_with_policy, replay_fact}
use dent.Replay.Strict.{strict, some_of_ok, replay-eq-strict, replay_with_policy-keep}

-- `r` is the fact `s` after fewer events: the same belief, which has not ended unless `s` has.
pub record IsLaxer (r s : FactState) : Type 0 where
  pub belief : SameBelief s r
  pub ended : is_terminal r.lifecycle ≡ true → is_terminal s.lifecycle ≡ true

Allows-laxer :
    (r s : FactState) (e : FactEvent) (k : FactEventKind)
    → IsLaxer r s
    → Allows s e k
    → Allows r e k
Allows-laxer r s e asserted l a = a
Allows-laxer r s e (reinforced by) l a = ground (arith, l)
Allows-laxer r s e k l a = ground (arith, l)

Accepts-laxer : (r s : FactState) (e : FactEvent) → IsLaxer r s → Accepts s e → Accepts r e
Accepts-laxer r s e l a = record {
  valid = a.valid;
  same_fact = l.belief.fact_id ∙ a.same_fact;
  same_subject = l.belief.subject ∙ a.same_subject;
  same_predicate = l.belief.predicate ∙ a.same_predicate;
  allowed = Allows-laxer r s e e.kind l a.allowed;
}

kind-IsLaxer :
    (r s u v : FactState) (e : FactEvent) (k : FactEventKind)
    → IsLaxer r s
    → apply_kind r e k ≡ ok u
    → apply_kind s e k ≡ ok v
    → IsLaxer u v
unfolding apply_kind
kind-IsLaxer r s u v e asserted l a b = cc
kind-IsLaxer r s u v e k l a b = ground (arith, l)

step-IsLaxer :
    (r s v : FactState) (e : FactEvent)
    → IsLaxer r s
    → apply_event (some s) e ≡ ok v
    → (u : FactState) × (apply_event (some r) e ≡ ok u) × IsLaxer u v
step-IsLaxer r s v e l h =
    let takes = (Accepts-iff r e).1 (Accepts-laxer r s e l ((Accepts-iff s e).0 (rw h refl))) in
    let found = value_of_ok (apply_event (some r) e) takes in
    let new = apply_Steps r e found.1 in
    let old = apply_Steps s e h in
    let next = kind-IsLaxer r s new.next old.next e e.kind l new.by_kind old.by_kind in
    (found.0, found.1, rw (new.stamped, old.stamped) (stamped_laxer new.next old.next next))
  where
    stamped_laxer : (x y : FactState) → IsLaxer x y → IsLaxer (stamp e x) (stamp e y)
    stamped_laxer x y n = ground (arith, n)

skip-IsLaxer :
    (r s v : FactState) (e : FactEvent) → IsLaxer r s → apply_event (some s) e ≡ ok v → IsLaxer r v
skip-IsLaxer r s v e l h = record {
  belief = SameBelief-via (apply-SameBelief s v e h) l.belief;
  ended = λ x. let f = ended_is_final s v e (l.ended x) h in rw f.1 (l.ended x);
}
  where
    SameBelief-via : SameBelief s v → SameBelief s r → SameBelief v r
    SameBelief-via a b = ground arith

-- The admitted part of a stream replays where the whole did.
refold :
    (p : EpistemicPolicy) (r s v : FactState) (es : List FactEvent)
    → IsLaxer r s
    → strict (some s) es ≡ ok (some v)
    → (t : FactState) × (strict (some r) (keep (admits p) es) ≡ ok (some t)) × IsLaxer t v
unfolding strict
refold p r s v [] l h = (r, refl, rw (← some_of_ok s v h) l)
refold p r s v (e ∷ es) l h = elim (Result-cases (apply_event (some s) e)) [
  | inr (x, a) ↦ absurd (ground arith)
  | inl (w, a) ↦ elim (Bool-cases (admits p e)) [
    | inr refused ↦ rw refused (refold p r w v es (skip-IsLaxer r s w e l a) (rw a at h))
    | inl admitted ↦
        let (u, b, m) = step-IsLaxer r s w e l a in
        rw (admitted, b) (refold p u w v es m (rw a at h))
  ]
]

assertion_fails :
    (s : FactState) (e : FactEvent) (k : FactEventKind) (t : FactState)
    → apply_kind s e k ≡ ok t
    → is_asserted k ≡ false
unfolding apply_kind
assertion_fails s e asserted t h = cc
assertion_fails s e k t h = refl

no_assertion :
    (s v : FactState) (es : List FactEvent)
    → strict (some s) es ≡ ok (some v)
    → any (λ e. is_asserted e.kind) es ≡ false
unfolding strict
no_assertion s v [] h = refl
no_assertion s v (e ∷ es) h = elim (Result-cases (apply_event (some s) e)) [
  | inr (x, a) ↦ absurd (ground arith)
  | inl (w, a) ↦
      let steps = apply_Steps s e a in
      rw (assertion_fails s e e.kind steps.next steps.by_kind) (no_assertion w v es (rw a at h))
]

refuses_none :
    (p : EpistemicPolicy) (es : List FactEvent)
    → any (λ e. is_asserted e.kind) es ≡ false
    → refuses_assertion p es ≡ false
refuses_none p [] h = refl
refuses_none p (e ∷ es) h = ground (arith, refuses_none p es)

absent :
    (p : EpistemicPolicy) (es : List FactEvent)
    → any (λ e. is_asserted e.kind) es ≡ false
    → fold_from p true none es ≡ ok none
unfolding fold_from
absent p [] h = refl
absent p (e ∷ es) h = ground (arith, absent p es)

-- What a stream that replays is made of: an assertion, which opens the fact, and what comes after it.
opens :
    (a : FactEvent) (es : List FactEvent) (v : FactState)
    → strict none (a ∷ es) ≡ ok (some v)
    → (s : FactState) × (apply_event none a ≡ ok s)
      × (is_asserted a.kind ≡ true)
      × (strict (some s) es ≡ ok (some v))
unfolding strict
opens a es v h = elim (Result-cases (apply_event none a)) [
  | inr (x, e) ↦ absurd (ground arith)
  | inl (s, e) ↦ (s, e, opening_asserts a e, rw e at h)
]

IsLaxer-refl : (s : FactState) → IsLaxer s s
IsLaxer-refl s = ground arith

refused_is_absent :
    (p : EpistemicPolicy) (a : FactEvent) (es : List FactEvent) (v : FactState)
    → strict none (a ∷ es) ≡ ok (some v)
    → admits p a ≡ false
    → replay_fact_with_policy (a ∷ es) p ≡ ok none
unfolding replay_fact_with_policy fold_from
refused_is_absent p a es v h refused =
    let (s, start, first, rest) = opens a es v h in
    ground (arith, first, absent p es (no_assertion s v es rest))

admitted_replays :
    (p : EpistemicPolicy) (a : FactEvent) (es : List FactEvent) (v : FactState)
    → strict none (a ∷ es) ≡ ok (some v)
    → admits p a ≡ true
    → (t : FactState) × (replay_fact_with_policy (a ∷ es) p ≡ ok (some t)) × IsLaxer t v
unfolding strict
admitted_replays p a es v h admitted =
    let (s, start, first, rest) = opens a es v h in
    let (t, again, lax) = refold p s s v es (IsLaxer-refl s) rest in
    let none_refused : refuses_assertion p (a ∷ es) ≡ false =
      ground (arith, refuses_none p es (no_assertion s v es rest)) in
    (t, rw (replay_with_policy-keep p (a ∷ es) none_refused, admitted, start, again), lax)

-- On a stream that replays, a policy never makes the replay fail. The fact is gone if the policy refuses the event
-- that asserted it; if not, it has the belief that it had, and has ended only if it had ended with all the events.
pub policy_replays :
    (p : EpistemicPolicy) (a : FactEvent) (es : List FactEvent) (v : FactState)
    → replay_fact (a ∷ es) ≡ ok (some v)
    → (admits p a ≡ false → replay_fact_with_policy (a ∷ es) p ≡ ok none)
      × (admits p a ≡ true
          → (t : FactState) × (replay_fact_with_policy (a ∷ es) p ≡ ok (some t)) × IsLaxer t v)
policy_replays p a es v h =
    let plain =
      map_err-eq-ok transition (strict none (a ∷ es)) (sym (replay-eq-strict (a ∷ es)) ∙ h) in
    (refused_is_absent p a es v plain, admitted_replays p a es v plain)
