-- ===== src/State/Freshness.antt =====
-- The validity window of a fact, read at a time (crates/dent8-core/src/state.rs, and `Ttl` of model.rs).
use dent.Prelude.{
  true, false, ◌≡◌, ◌↔◌, ◌⊎◌, inl, inr, refl, Option, none, some, arith, is_some_and, Bool-cases,
}
use dent.Prelude.Int.{◌≤ℤ◌, leb_ℤ, ltb_ℤ, IsI64}
use dent.Model.{TimestampMillis, Ttl, never, expires_at, duration_millis, ttl_expires_at}
use dent.State.Defs.{
  FactState, state_expires_at, is_not_yet_valid_at, is_expired_at, is_fresh_at, earliest,
}

-- The bound is given and has come at `now`.
abbrev pub Reached : Option TimestampMillis → TimestampMillis → Type 0
Reached none now = ⊥
Reached (some at) now = at ≤ℤ now

Reached-iff :
    (o : Option TimestampMillis) (now : TimestampMillis)
    → (is_some_and o (λ at. leb_ℤ at now) ≡ true) ↔ Reached o now
Reached-iff none now = (ground arith, ground arith)
Reached-iff (some at) now = (ground arith, ground arith)

earliest_iff :
    (a b : Option TimestampMillis) (now : TimestampMillis)
    → Reached (earliest a b) now ↔ (Reached a now ⊎ Reached b now)
earliest_iff none none now = (λ h. inl h, ground arith)
earliest_iff none (some b) now = (λ h. inr h, ground arith)
earliest_iff (some a) none now = (λ h. inl h, ground arith)
earliest_iff (some a) (some b) now = (ground arith, ground arith)

-- A fact is expired from the first instant on at which its lifetime has run out or its validity has ended.
pub expired_iff :
    (s : FactState) (now : TimestampMillis)
    → (is_expired_at s now ≡ true)
      ↔ (Reached (ttl_expires_at s.ttl s.freshness_anchor) now ⊎ Reached s.valid_to now)
unfolding is_expired_at
expired_iff s now =
    let at = Reached-iff (state_expires_at s) now in
    let both = earliest_iff (ttl_expires_at s.ttl s.freshness_anchor) s.valid_to now in
    (λ h. both.0 (at.0 h), λ h. at.1 (both.1 h))

Reached-mono :
    (o : Option TimestampMillis) (now later : TimestampMillis)
    → now ≤ℤ later
    → Reached o now
    → Reached o later
Reached-mono none now later le r = r
Reached-mono (some at) now later le r = omega arith

-- What has expired stays expired.
pub expired_later :
    (s : FactState) (now later : TimestampMillis)
    → now ≤ℤ later
    → is_expired_at s now ≡ true
    → is_expired_at s later ≡ true
expired_later s now later le h = (expired_iff s later).1 (carry ((expired_iff s now).0 h))
  where
    carry :
        Reached (ttl_expires_at s.ttl s.freshness_anchor) now ⊎ Reached s.valid_to now
        → Reached (ttl_expires_at s.ttl s.freshness_anchor) later ⊎ Reached s.valid_to later
    carry (inl r) = inl (Reached-mono _ now later le r)
    carry (inr r) = inr (Reached-mono _ now later le r)

started_iff :
    (o : Option TimestampMillis) (now : TimestampMillis)
    → (is_some_and o (λ from. ltb_ℤ now from) ≡ false)
      ↔ ((from : TimestampMillis) → o ≡ some from → from ≤ℤ now)
started_iff none now = (λ h from e. cc, λ h. refl)
started_iff (some f) now = (λ h from e. ground arith, λ h. let g = h f refl in ground arith)

-- A fact is fresh exactly between its two bounds: from `valid_from` on, and before it expires.
pub fresh_iff :
    (s : FactState) (now : TimestampMillis)
    → (is_fresh_at s now ≡ true) ↔ (
        ((from : TimestampMillis) → s.valid_from ≡ some from → from ≤ℤ now)
        × ¬ Reached (ttl_expires_at s.ttl s.freshness_anchor) now
        × ¬ Reached s.valid_to now)
unfolding is_fresh_at is_not_yet_valid_at
fresh_iff s now =
    let start = started_iff s.valid_from now in
    let ended = expired_iff s now in
    (
      λ h. (
        start.0 (ground arith),
        λ r. let x = ended.1 (inl r) in ground arith,
        λ r. let x = ended.1 (inr r) in ground arith,
      ),
      λ h. unexpired (start.1 h.0) λ x. elim (ended.0 x) [ inl r ↦ h.1 r | inr r ↦ h.2 r ],
    )
  where
    unexpired :
        is_some_and s.valid_from (λ from. ltb_ℤ now from) ≡ false
        → ¬ (is_expired_at s now ≡ true)
        → is_fresh_at s now ≡ true
    unexpired a b = elim (Bool-cases (is_expired_at s now)) [
      | inl x ↦ absurd (b x)
      | inr x ↦ ground arith
    ]

-- The instant of expiry is an `i64`, where the times of the fact are.
pub expiry_fits :
    (ttl : Ttl) (anchor at : TimestampMillis)
    → ttl_expires_at ttl anchor ≡ some at
    → ((t : TimestampMillis) → ttl ≡ expires_at t → IsI64 t)
    → IsI64 at
unfolding ttl_expires_at
expiry_fits never anchor at e h = cc
expiry_fits (expires_at t) anchor at e h = ground (arith, h t)
expiry_fits (duration_millis d) anchor at e h = ground arith
