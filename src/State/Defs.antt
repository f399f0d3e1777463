-- ===== src/State/Defs.antt =====
-- The `FactState` of crates/dent8-core/src/state.rs, and what its methods read from it.
use dent.Prelude.{ℕ, ◌+◌, Bool, ◌&&◌, not, Option, none, some, List, is_some_and, or, length, keep}
use dent.Prelude.Int.{leb_ℤ, ltb_ℤ, min_ℤ}
use dent.Prelude.Maps.{Map, string_key, get, insert, values}
use dent.Model.{
  FactId, FactEventId, SourceId, TimestampMillis, Subject, Predicate, FactValue, Authority,
  AuthorityLevel, level_ge, level_max, Ttl, ttl_expires_at,
}
use dent.State.Lifecycle.{FactLifecycle}

-- The highest level at which each source was seen.
abbrev pub Levels : Type 0
Levels = Map SourceId AuthorityLevel

pub record FactState : Type 0 where
  pub fact_id : FactId
  pub subject : Subject
  pub predicate : Predicate
  pub value : FactValue
  pub authority : Authority
  pub ttl : Ttl
  pub freshness_anchor : TimestampMillis
  pub valid_from : Option TimestampMillis
  pub valid_to : Option TimestampMillis
  pub lifecycle : FactLifecycle
  pub created_at : TimestampMillis
  pub updated_at : TimestampMillis
  pub last_event_id : FactEventId
  pub superseded_by : Option FactId
  pub contradicted_by : List FactId
  pub evidence_count : ℕ
  pub corroborating_sources : Levels
  pub survived_challenges : Levels

unfoldable pub raised : Option AuthorityLevel → AuthorityLevel → AuthorityLevel
raised none level = level
raised (some old) level = level_max old level

-- `entry(source).and_modify(|level| *level = (*level).max(new)).or_insert(new)`
unfoldable pub record_level : SourceId → AuthorityLevel → Levels → Levels
record_level source level m = insert source (raised (get source m) level) m

unfoldable pub count_at_or_above : AuthorityLevel → Levels → ℕ
count_at_or_above min m = length (keep (λ level. level_ge level min) (values m))

unfoldable pub corroboration : FactState → ℕ
corroboration s = length s.corroborating_sources

unfoldable pub corroboration_at_or_above : FactState → AuthorityLevel → ℕ
corroboration_at_or_above s min = count_at_or_above min s.corroborating_sources

unfoldable pub survived_challenge_count : FactState → ℕ
survived_challenge_count s = length s.survived_challenges

unfoldable pub survived_challenges_at_or_above : FactState → AuthorityLevel → ℕ
survived_challenges_at_or_above s min = count_at_or_above min s.survived_challenges

unfoldable pub earned_entrenchment_at_or_above : FactState → AuthorityLevel → ℕ
unfolding corroboration_at_or_above survived_challenges_at_or_above
earned_entrenchment_at_or_above s min =
    corroboration_at_or_above s min + survived_challenges_at_or_above s min

-- The earlier of two bounds, where there are two.
abbrev pub earliest : Option TimestampMillis → Option TimestampMillis → Option TimestampMillis
earliest (some ttl) (some valid_to) = some (min_ℤ ttl valid_to)
earliest ttl valid_to = or ttl valid_to

unfoldable pub state_expires_at : FactState → Option TimestampMillis
state_expires_at s = earliest (ttl_expires_at s.ttl s.freshness_anchor) s.valid_to

unfoldable pub is_not_yet_valid_at : FactState → TimestampMillis → Bool
is_not_yet_valid_at s now = is_some_and s.valid_from (λ from. ltb_ℤ now from)

unfoldable pub is_expired_at : FactState → TimestampMillis → Bool
unfolding state_expires_at
is_expired_at s now = is_some_and (state_expires_at s) (λ at. leb_ℤ at now)

unfoldable pub is_fresh_at : FactState → TimestampMillis → Bool
unfolding is_not_yet_valid_at is_expired_at
is_fresh_at s now = not (is_not_yet_valid_at s now) && not (is_expired_at s now)
