-- ===== src/Policy.antt =====
-- crates/dent8-core/src/policy.rs: which events a replay admits.
use dent.Prelude.{◌≤◌, Bool, true, false, ◌&&◌, ◌||◌, ◌≡◌, arith, ltb, nat_eq, if◌then◌else◌, []}
use dent.Prelude.Maps.{Set, string_key, contains}
use dent.Model.{
  SourceId, AuthorityLevel, unknown, rank, level_lt, level_eq, Confidence, confidence_zero,
  FactEvent, FactEventKind, asserted, reinforced, contradicted, superseded, is_empty,
}

pub record EpistemicPolicy : Type 0 where
  pub distrusted_sources : Set SourceId
  pub authority_floor : AuthorityLevel
  pub confidence_floor : Confidence

abbrev pub identity : EpistemicPolicy
identity = record {
  distrusted_sources = [];
  authority_floor = unknown;
  confidence_floor = confidence_zero;
}

unfoldable pub is_identity : EpistemicPolicy → Bool
is_identity p =
    is_empty p.distrusted_sources
    && level_eq p.authority_floor unknown
    && nat_eq p.confidence_floor confidence_zero

abbrev pub affects_belief : FactEventKind → Bool
affects_belief asserted = true
affects_belief (reinforced _) = true
affects_belief (contradicted _ _) = true
affects_belief (superseded _ _) = true
affects_belief _ = false

unfoldable pub admits : EpistemicPolicy → FactEvent → Bool
admits p event =
    if contains event.provenance.source p.distrusted_sources
    then false
    else if affects_belief event.kind
        && (level_lt event.authority.level p.authority_floor
            || ltb event.confidence p.confidence_floor)
    then false
    else true

-- A policy that passes for the identity admits every event.
pub is_identity-admits :
    (p : EpistemicPolicy) (event : FactEvent) → is_identity p ≡ true → admits p event ≡ true
unfolding is_identity admits contains
is_identity-admits p event h = ground arith

pub identity-admits : (event : FactEvent) → admits identity event ≡ true
unfolding is_identity
identity-admits event = is_identity-admits identity event (ground arith)

-- `q` trusts no source that `p` distrusts, and its floors are not lower.
pub record IsStricter (q p : EpistemicPolicy) : Type 0 where
  pub sources :
      (s : SourceId)
      → contains s p.distrusted_sources ≡ true
      → contains s q.distrusted_sources ≡ true
  pub authority : rank p.authority_floor ≤ rank q.authority_floor
  pub confidence : p.confidence_floor ≤ q.confidence_floor

-- A stricter policy admits no event that a laxer one refuses.
pub admits_mono :
    (p q : EpistemicPolicy) (event : FactEvent)
    → IsStricter q p
    → admits q event ≡ true
    → admits p event ≡ true
unfolding admits
admits_mono p q event h a = ground (arith, h.sources event.provenance.source)
