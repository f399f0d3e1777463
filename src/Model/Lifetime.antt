-- ===== src/Model/Lifetime.antt =====
-- The `Ttl` of crates/dent8-core/src/model.rs.
use dent.Prelude.{ℕ, Bool, Option, none, some, is_some_and}
use dent.Prelude.Int.{leb_ℤ, i64_try_from, checked_add}
use dent.Model.Ids.{TimestampMillis}

pub data Ttl : Type 0 where
  never : Ttl
  expires_at : TimestampMillis → Ttl
  duration_millis : ℕ → Ttl

-- The instant at which the lifetime elapses. A sum that no `i64` holds is no expiry.
unfoldable pub ttl_expires_at : Ttl → TimestampMillis → Option TimestampMillis
ttl_expires_at never anchor = none
ttl_expires_at (expires_at at) anchor = some at
ttl_expires_at (duration_millis duration) anchor = elim (i64_try_from duration) [
  | none ↦ none
  | some d ↦ checked_add anchor d
]

unfoldable pub ttl_is_expired_at : Ttl → TimestampMillis → TimestampMillis → Bool
unfolding ttl_expires_at
ttl_is_expired_at ttl anchor now = is_some_and (ttl_expires_at ttl anchor) (λ at. leb_ℤ at now)
