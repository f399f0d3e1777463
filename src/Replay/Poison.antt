-- ===== src/Replay/Poison.antt =====
-- What low-authority events can do to a fact that a higher authority asserted, over a whole stream
-- (`apply_event` of crates/dent8-core/src/state.rs under the replay of crates/dent8-store/src/lib.rs).
use dent.Prelude.{
  ◌≤◌, ◌<◌, false, ◌≡◌, some, List, [], ◌∷◌, ◌++◌, All, arith, ok, inl, inr, Result-cases,
  Bool-cases, map_err-eq-ok, sym, ◌∙◌,
}
use dent.Model.{FactEvent, AuthorityLevel, rank}
use dent.State.{FactState, is_terminal, apply_event, earned_entrenchment_at_or_above}
use dent.State.Frame.{SameBelief, apply-SameBelief, ending_is_ranked}
use dent.State.Entrenchment.{weak_sources_add_nothing}
use dent.Replay.{transition, replay_fact}
use dent.Replay.Strict.{strict, some_of_ok, replay-append}

-- A fact that stands after `s`, unmoved: it has not ended, it holds what `s` held, and it is as entrenched at `level`.
pub record Stands (level : AuthorityLevel) (s t : FactState) : Type 0 where
  pub open_still : is_terminal t.lifecycle ≡ false
  pub belief : SameBelief s t
  pub entrenched : earned_entrenchment_at_or_above t level ≡ earned_entrenchment_at_or_above s level

abbrev pub IsBelow : AuthorityLevel → FactEvent → Type 0
IsBelow level e = rank e.authority.level < rank level

SameBelief-trans : (s t u : FactState) → SameBelief s t → SameBelief t u → SameBelief s u
SameBelief-trans s t u a b = ground arith

pub Stands-trans :
    (level : AuthorityLevel) (s t u : FactState)
    → Stands level s t
    → Stands level t u
    → Stands level s u
Stands-trans level s t u a b = record {
  open_still = b.open_still;
  belief = SameBelief-trans s t u a.belief b.belief;
  entrenched = b.entrenched ∙ a.entrenched;
}

pub step_Stands :
    (level : AuthorityLevel) (s t : FactState) (e : FactEvent)
    → rank level ≤ rank s.authority.level
    → is_terminal s.lifecycle ≡ false
    → IsBelow level e
    → apply_event (some s) e ≡ ok t
    → Stands level s t
step_Stands level s t e strong live weak h = record {
  open_still = elim (Bool-cases (is_terminal t.lifecycle)) [
    | inl ended ↦ absurd (let r = ending_is_ranked s t e live ended h in omega (arith, r.1))
    | inr going ↦ going
  ];
  belief = apply-SameBelief s t e h;
  entrenched = weak_sources_add_nothing level s t e weak h;
}

pub Stands-refl :
    (level : AuthorityLevel) (s : FactState) → is_terminal s.lifecycle ≡ false → Stands level s s
Stands-refl level s live = ground arith

strict-Stands :
    (level : AuthorityLevel) (s t : FactState) (es : List FactEvent)
    → rank level ≤ rank s.authority.level
    → is_terminal s.lifecycle ≡ false
    → All (IsBelow level) es
    → strict (some s) es ≡ ok (some t)
    → Stands level s t
unfolding strict
strict-Stands level s t [] strong live weak h = rw (← some_of_ok s t h) (Stands-refl level s live)
strict-Stands level s t (e ∷ es) strong live weak h = elim (Result-cases (apply_event (some s) e)) [
  | inl (u, a) ↦
      let p = step_Stands level s u e strong live weak.0 a in
      Stands-trans level s u t p
        (strict-Stands level u t es (rw p.belief.authority strong) p.open_still weak.1 (rw a at h))
  | inr (x, a) ↦ absurd (ground arith)
]

-- However many events below a level follow, a fact at that level that had not ended still stands: open, with its
-- value, its authority and its window, and with the entrenchment at that level that it had.
pub weak_events_move_nothing :
    (level : AuthorityLevel) (xs ys : List FactEvent) (s t : FactState)
    → replay_fact xs ≡ ok (some s)
    → rank level ≤ rank s.authority.level
    → is_terminal s.lifecycle ≡ false
    → All (IsBelow level) ys
    → replay_fact (xs ++ ys) ≡ ok (some t)
    → Stands level s t
weak_events_move_nothing level xs ys s t before strong live weak after =
    strict-Stands level s t ys strong live weak
      (map_err-eq-ok transition (strict (some s) ys) (sym (cc (replay-append xs ys)) ∙ after))
