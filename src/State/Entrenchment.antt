-- ===== src/State/Entrenchment.antt =====
-- The entrenchment counts of crates/dent8-core/src/state.rs grow with the events of a fact, and weak sources
-- cannot raise them.
use dent.Prelude.{
  ℕ, ◌+◌, ◌≤◌, ◌<◌, ◌||◌, Bool, true, false, ◌≡◌, none, some, [], ◌∷◌, inl, inr, arith,
  Option-cases, Bool-cases, ◌==◌, length, keep, ok,
}
use dent.Prelude.Maps.{string_key, get, replace, place, insert-none, insert-some, values}
use dent.Model.{
  SourceId, AuthorityLevel, rank, level_ge, level_max, FactEvent, FactEventKind, asserted,
}
use dent.State.Defs.{
  FactState, Levels, raised, record_level, count_at_or_above, corroboration_at_or_above,
  survived_challenges_at_or_above, earned_entrenchment_at_or_above,
}
use dent.State.Apply.{stamp, apply_kind, apply_event}
use dent.State.Inversion.{apply_Steps}

abbrev one_if : Bool → ℕ
one_if true = 1
one_if false = 0

module _ (p : AuthorityLevel → Bool) (k : SourceId) (v : AuthorityLevel) where
  abbrev counted : Levels → ℕ
  counted m = length (keep p (values m))

  counted-place : (m : Levels) → counted (place k v m) ≡ one_if (p v) + counted m
  unfolding place
  counted-place [] = ground arith
  counted-place ((j, w) ∷ m) = ground (arith, counted-place m)

  counted-replace :
      (w : AuthorityLevel) (m : Levels)
      → get k m ≡ some w
      → counted (replace k v m) + one_if (p w) ≡ one_if (p v) + counted m
  unfolding replace get
  counted-replace w [] h = cc
  counted-replace w ((j, u) ∷ m) h = elim (Bool-cases (j == k)) [
    | inl e ↦ rw e (ground (arith, e))
    | inr e ↦ rw e (ground (arith, e, counted-replace w m))
  ]

max_counts :
    (old new : Bool) (before after : ℕ)
    → after + one_if old ≡ one_if (old || new) + before
    → (before ≤ after) × (after ≤ before + one_if new)
max_counts true true before after h = omega arith
max_counts true false before after h = omega arith
max_counts false true before after h = omega arith
max_counts false false before after h = omega arith

level_ge-max :
    (a b min : AuthorityLevel) → level_ge (level_max a b) min ≡ (level_ge a min || level_ge b min)
level_ge-max a b min = ground arith

record_level-none :
    (k : SourceId) (v : AuthorityLevel) (m : Levels)
    → get k m ≡ none
    → record_level k v m ≡ place k v m
unfolding record_level raised
record_level-none k v m e = rw (e, raised) (insert-none k v m e)

record_level-some :
    (k : SourceId) (v w : AuthorityLevel) (m : Levels)
    → get k m ≡ some w
    → record_level k v m ≡ replace k (level_max w v) m
unfolding record_level raised
record_level-some k v w m e = rw (e, raised) (insert-some k (level_max w v) w m e)

-- What one more record does to a count.
pub count-record_level :
    (min : AuthorityLevel) (k : SourceId) (v : AuthorityLevel) (m : Levels)
    → (count_at_or_above min m ≤ count_at_or_above min (record_level k v m))
      × (count_at_or_above min (record_level k v m)
          ≤ count_at_or_above min m + one_if (level_ge v min))
unfolding count_at_or_above
count-record_level min k v m = elim (Option-cases (get k m)) [
  | inl e ↦
      rw (record_level-none k v m e)
        (let c = counted-place (λ l. level_ge l min) k v m in (omega (arith, c), omega (arith, c)))
  | inr (w, e) ↦ rw (record_level-some k v w m e) (
      max_counts (level_ge w min) (level_ge v min) _ _ (
        rw (← level_ge-max w v min)
          (counted-replace (λ l. level_ge l min) k (level_max w v) w m e)))
]

-- The state after an event, at the level `min`: the counts did not fall, and what they gained is at most one in
-- all, and nothing where the event's own level is below `min`.
pub record Grows (min : AuthorityLevel) (s : FactState) (e : FactEvent) (t : FactState)
    : Type 0 where
  pub corroboration : corroboration_at_or_above s min ≤ corroboration_at_or_above t min
  pub challenges : survived_challenges_at_or_above s min ≤ survived_challenges_at_or_above t min
  pub by_one :
      earned_entrenchment_at_or_above t min
      ≤ earned_entrenchment_at_or_above s min + one_if (level_ge e.authority.level min)

kind_Grows :
    (min : AuthorityLevel) (s : FactState) (e : FactEvent) (k : FactEventKind) (t : FactState)
    → apply_kind s e k ≡ ok t
    → Grows min s e (stamp e t)
unfolding apply_kind earned_entrenchment_at_or_above
kind_Grows min s e asserted t h = cc
kind_Grows min s e k t h =
    let c = count-record_level min e.provenance.source e.authority.level s.corroborating_sources in
    let d = count-record_level min e.provenance.source e.authority.level s.survived_challenges in
    ground (arith, c, d)

-- Whatever event a fact takes, its entrenchment at a level does not fall, and rises by one at most.
pub apply-Grows :
    (min : AuthorityLevel) (s t : FactState) (e : FactEvent)
    → apply_event (some s) e ≡ ok t
    → Grows min s e t
apply-Grows min s t e h =
    let p = apply_Steps s e h in rw p.stamped (kind_Grows min s e e.kind p.next p.by_kind)

-- A source below a level, however many names it takes, leaves the earned entrenchment at that level as it is.
pub weak_sources_add_nothing :
    (min : AuthorityLevel) (s t : FactState) (e : FactEvent)
    → rank e.authority.level < rank min
    → apply_event (some s) e ≡ ok t
    → earned_entrenchment_at_or_above t min ≡ earned_entrenchment_at_or_above s min
unfolding earned_entrenchment_at_or_above
weak_sources_add_nothing min s t e weak h = let g = apply-Grows min s t e h in ground (arith, g)
