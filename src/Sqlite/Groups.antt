-- ===== src/Sqlite/Groups.antt =====
-- The groups of subject and predicate that a batch of crates/dent8-store-sqlite/src/lib.rs touches, each of which
-- `validate_touched_policies_in_tx` looks at.
use dent.Prelude.{
  Bool, true, ◌≡◌, sym, subst, All, Bool-cases, some, List, [], ◌∷◌, arith, eq_iff, eq_refl, keep,
  any, Option-cases, inl, inr, ok, Result-cases,
}
use dent.Model.{FactEvent, TimestampMillis}
use dent.Registry.{coding_agent, validate_unique_projection}
use dent.Sqlite.{
  Row, Engine, Group, group_of, group_eq, insert_group, touched_groups, latest_recorded, in_group,
  load_subject_predicate_in_tx, validate_groups, validate_touched_policies_in_tx,
}

abbrev has_group : Group → List Group → Bool
has_group g hs = any (group_eq g) hs

has_group-insert_self : (g : Group) (hs : List Group) → has_group g (insert_group g hs) ≡ true
unfolding insert_group
has_group-insert_self (a, b, c) [] = ground (arith, eq_refl a, eq_refl b, eq_refl c)
has_group-insert_self (a, b, c) ((x, y, z) ∷ hs) =
    ground (arith, eq_refl a, eq_refl b, eq_refl c, has_group-insert_self (a, b, c) hs)

has_group-insert :
    (f g : Group) (hs : List Group) → has_group f hs ≡ true → has_group f (insert_group g hs) ≡ true
unfolding insert_group
has_group-insert f g (h ∷ hs) p = ground (arith, has_group-insert f g hs)
has_group-insert f g [] p = ground arith

has_group-touched_old :
    (g : Group) (es : List FactEvent) (hs : List Group)
    → has_group g hs ≡ true
    → has_group g (touched_groups es hs) ≡ true
unfolding touched_groups
has_group-touched_old g [] hs p = p
has_group-touched_old g (e ∷ es) hs p =
    has_group-touched_old g es (insert_group (group_of e) hs) (has_group-insert g (group_of e) hs p)

group_eq-eq : (g h : Group) → group_eq g h ≡ true → g ≡ h
group_eq-eq (a, b, c) (x, y, z) p = ground (arith, eq_iff a x, eq_iff b y, eq_iff c z)

-- The projection of a group, as the table has it, has passed at the time of the last event of the batch in the group.
pub record Validated (k : Engine) (rows : List Row) (events : List FactEvent) (g : Group)
    : Type 0 where
  pub now : TimestampMillis
  pub subject_events : List FactEvent
  pub latest : latest_recorded (keep (in_group g) events) ≡ some now
  pub loaded : load_subject_predicate_in_tx k rows g ≡ ok subject_events
  pub valid : validate_unique_projection coding_agent subject_events now ≡ ok tt

module _ (k : Engine) (rows : List Row) (events : List FactEvent) where
  first_Validated :
      (h : Group) (hs : List Group)
      → validate_groups k rows events (h ∷ hs) ≡ ok tt
      → Validated k rows events h × (validate_groups k rows events hs ≡ ok tt)
  unfolding validate_groups
  first_Validated h hs p = elim (Option-cases (latest_recorded (keep (in_group h) events))) [
    | inl missing ↦ absurd (ground arith)
    | inr (now, latest) ↦ elim (Result-cases (load_subject_predicate_in_tx k rows h)) [
      | inr (x, q) ↦ absurd (ground arith)
      | inl (found, q) ↦ elim (Result-cases (validate_unique_projection coding_agent found now)) [
        | inr (x, bad) ↦ absurd (ground arith)
        | inl (tt, good) ↦ (
          record { now = now; subject_events = found; latest = latest; loaded = q; valid = good },
          ground arith,
        )
      ]
    ]
  ]

  groups-Validated :
      (g : Group) (hs : List Group)
      → has_group g hs ≡ true
      → validate_groups k rows events hs ≡ ok tt
      → Validated k rows events g
  groups-Validated g [] p q = absurd (ground arith)
  groups-Validated g (h ∷ hs) p q =
      let (first, others) = first_Validated h hs q in
      elim (Bool-cases (group_eq g h)) [
        | inl same ↦ subst (Validated k rows events) (sym (group_eq-eq g h same)) first
        | inr other ↦ groups-Validated g hs (ground arith) others
      ]

  each-Validated :
      (es : List FactEvent) (hs : List Group)
      → ((g : Group) → has_group g (touched_groups es hs) ≡ true → Validated k rows events g)
      → All (λ e. Validated k rows events (group_of e)) es
  unfolding touched_groups
  each-Validated [] hs f = tt
  each-Validated (e ∷ es) hs f = (
    f (group_of e) (
        has_group-touched_old (group_of e) es (insert_group (group_of e) hs)
          (has_group-insert_self (group_of e) hs)),
    each-Validated es (insert_group (group_of e) hs) f,
  )

-- A batch that passes the policies has passed them at the group of each of its events.
pub touched_policies-Validated :
    (k : Engine) (rows : List Row) (events : List FactEvent)
    → validate_touched_policies_in_tx k rows events ≡ ok tt
    → All (λ e. Validated k rows events (group_of e)) events
unfolding validate_touched_policies_in_tx
touched_policies-Validated k rows events p =
    each-Validated k rows events events []
      (λ g q. groups-Validated k rows events g (touched_groups events []) q p)
