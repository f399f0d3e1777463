-- ===== src/Identity/Entitle.antt =====
-- When `entitlement_at` of crates/dent8-cli/src/identity/records.rs answers that a write was entitled.
use dent.Prelude.{
  String, Bool, true, false, ◌≡◌, ◌≢◌, ◌↔◌, ◌⊎◌, refl, sym, ap, subst, ◌∙◌, ◌&&◌, ◌||◌, none, some,
  List, [], ◌∷◌, arith, ◌==◌, any, inl, inr, Bool-cases, Option-cases,
}
use dent.Model.{AuthorityLevel, level_lt, TimestampMillis}
use dent.Identity.{
  is_issued, GrantRecord, History, concerns, revoke, note, history_of, scope_covers, has_expired,
  judge_grant, resolve, entitled, entitlement_at,
}

module _ (source public_key : String) (at_ms : TimestampMillis) where
  -- A record of the same source and key, no later than the write, that issues anew or revokes the grant.
  abbrev pub ends : GrantRecord → GrantRecord → Bool
  ends g r =
      concerns source public_key at_ms r
      && (is_issued r.action || g.grant_signature == r.grant_signature)

  -- A record in the list issues the grant to the source and the key no later than the write, and none behind it ends
  -- the grant.
  abbrev pub StandsIn : GrantRecord → List GrantRecord → Type 0
  StandsIn g [] = ⊥
  StandsIn g (r ∷ records) =
      ((r ≡ g)
        × (concerns source public_key at_ms r ≡ true)
        × (is_issued r.action ≡ true)
        × (any (ends g) records ≡ false))
      ⊎ StandsIn g records

  abbrev Held : GrantRecord → History → List GrantRecord → Type 0
  Held g h records = (h.0 ≡ some g) × (any (ends g) records ≡ false)

  -- What a record makes the active grant.
  noted :
      (g r : GrantRecord) (h : History)
      → (note source public_key at_ms r h).0 ≡ some g
      → ((r ≡ g) × (concerns source public_key at_ms r ≡ true) × (is_issued r.action ≡ true))
        ⊎ ((h.0 ≡ some g) × (ends g r ≡ false))
  unfolding note revoke
  noted g r (active, ended) e = elim (Bool-cases (concerns source public_key at_ms r)) [
    | inr elsewhere ↦ inr (ground arith, ground arith)
    | inl here ↦ elim (Bool-cases (is_issued r.action)) [
      | inl issue ↦ inl (ground arith, here, issue)
      | inr revocation ↦ elim (Option-cases active) [
        | inl nothing ↦ absurd (ground arith)
        | inr (current, there) ↦ elim (Bool-cases (current.grant_signature == r.grant_signature)) [
          | inl same ↦ absurd (ground arith)
          | inr other ↦
              let kept : current ≡ g = ground arith in
              inr (ground arith, subst (λ x. ends x r ≡ false) kept (ground arith))
        ]
      ]
    ]
  ]

  notes_issue :
      (g r : GrantRecord) (h : History)
      → r ≡ g
      → concerns source public_key at_ms r ≡ true
      → is_issued r.action ≡ true
      → (note source public_key at_ms r h).0 ≡ some g
  unfolding note
  notes_issue g r h e here issue = ground arith

  notes_others :
      (g r : GrantRecord) (h : History)
      → h.0 ≡ some g
      → ends g r ≡ false
      → (note source public_key at_ms r h).0 ≡ some g
  unfolding note revoke
  notes_others g r (active, ended) e keeps =
      elim (Bool-cases (concerns source public_key at_ms r)) [
        | inr elsewhere ↦ ground arith
        | inl here ↦ ground arith
      ]

  history_of_iff :
      (g : GrantRecord) (records : List GrantRecord) (h : History)
      → ((history_of source public_key at_ms records h).0 ≡ some g)
        ↔ (Held g h records ⊎ StandsIn g records)
  unfolding history_of
  history_of_iff g [] h = (λ e. inl (e, refl), λ w. ended w)
    where
      ended : (Held g h [] ⊎ StandsIn g []) → h.0 ≡ some g
      ended (inl (e, r)) = e
      ended (inr w) = absurd w
  history_of_iff g (r ∷ records) h =
      let ih = history_of_iff g records (note source public_key at_ms r h) in
      (λ e. forth (ih.0 e), λ w. ih.1 (back w))
    where
      forth :
          (Held g (note source public_key at_ms r h) records ⊎ StandsIn g records)
          → Held g h (r ∷ records) ⊎ StandsIn g (r ∷ records)
      forth (inr w) = inr (inr w)
      forth (inl (e, undisturbed)) = elim (noted g r h e) [
        | inl (same, here, issue) ↦ inr (inl (same, here, issue, undisturbed))
        | inr (held, keeps) ↦ inl (held, ground (arith, keeps, undisturbed))
      ]

      back :
          (Held g h (r ∷ records) ⊎ StandsIn g (r ∷ records))
          → Held g (note source public_key at_ms r h) records ⊎ StandsIn g records
      back (inr (inr w)) = inr w
      back (inr (inl (same, here, issue, undisturbed))) =
          inl (notes_issue g r h same here issue, undisturbed)
      back (inl (e, undisturbed)) =
          inl (notes_others g r h e (ground (arith, undisturbed)), ground (arith, undisturbed))

-- A grant that lasts to the write, and covers its authority and its subject.
pub record Covers (grant : GrantRecord) (authority : AuthorityLevel) (subject : String)
    (at_ms : TimestampMillis) : Type 0 where
  pub lasts : has_expired grant.expires_at_ms at_ms ≡ false
  pub outranks : level_lt grant.max_authority authority ≡ false
  pub reaches : scope_covers grant.scope subject ≡ true

judge_grant_iff :
    (grant : GrantRecord) (authority : AuthorityLevel) (subject : String) (at_ms : TimestampMillis)
    → (judge_grant grant authority subject at_ms ≡ entitled) ↔ Covers grant authority subject at_ms
unfolding judge_grant
judge_grant_iff grant authority subject at_ms = (
  λ h. record { lasts = ground arith; outranks = ground arith; reaches = ground arith },
  λ h. ground (arith, h.lasts, h.outranks, h.reaches),
)

resolve-some :
    (h : History) (grant : GrantRecord) (authority : AuthorityLevel) (subject : String)
    (at_ms : TimestampMillis)
    → h.0 ≡ some grant
    → resolve h authority subject at_ms ≡ judge_grant grant authority subject at_ms
unfolding resolve
resolve-some (none, ended) grant authority subject at_ms e = cc
resolve-some (some x, ended) grant authority subject at_ms e =
    ap (λ g. judge_grant g authority subject at_ms) (ground arith)

ended_grant :
    (authority : AuthorityLevel) (subject : String) (at_ms : TimestampMillis)
    → resolve (none, true) authority subject at_ms ≢ entitled
unfolding resolve
ended_grant authority subject at_ms q = cc

no_grant :
    (authority : AuthorityLevel) (subject : String) (at_ms : TimestampMillis)
    → resolve (none, false) authority subject at_ms ≢ entitled
unfolding resolve
no_grant authority subject at_ms q = cc

stands_in :
    (source public_key : String) (at_ms : TimestampMillis) (grant : GrantRecord)
    (records : List GrantRecord)
    → (Held source public_key at_ms grant (none, false) records
        ⊎ StandsIn source public_key at_ms grant records)
    → StandsIn source public_key at_ms grant records
stands_in source public_key at_ms grant records (inl (e, u)) = cc
stands_in source public_key at_ms grant records (inr w) = w

-- A write was entitled exactly when the grant log has a grant that was issued to its source and key by then and
-- neither revoked nor replaced since, which had not expired and covers the write's authority and subject.
pub entitlement_at_iff :
    (records : List GrantRecord) (source public_key : String) (authority : AuthorityLevel)
    (subject : String) (at_ms : TimestampMillis)
    → (entitlement_at records source public_key authority subject at_ms ≡ entitled) ↔ (
        (grant : GrantRecord) × StandsIn source public_key at_ms grant records
        × Covers grant authority subject at_ms)
unfolding entitlement_at
entitlement_at_iff records source public_key authority subject at_ms = (forth _ refl, back)
  where
    forth :
        (h : History)
        → history_of source public_key at_ms records (none, false) ≡ h
        → resolve h authority subject at_ms ≡ entitled
        → (grant : GrantRecord) × StandsIn source public_key at_ms grant records
          × Covers grant authority subject at_ms
    forth (none, true) e q = absurd (ended_grant authority subject at_ms q)
    forth (none, false) e q = absurd (no_grant authority subject at_ms q)
    forth (some grant, ended) e q =
        let found =
          (history_of_iff source public_key at_ms grant records (none, false)).0
            (ap (λ x. x.0) e) in
        (
          grant,
          stands_in source public_key at_ms grant records found,
          (judge_grant_iff grant authority subject at_ms).0
              (sym (resolve-some (some grant, ended) grant authority subject at_ms refl) ∙ q),
        )

    back :
        ((grant : GrantRecord) × StandsIn source public_key at_ms grant records
          × Covers grant authority subject at_ms)
        → resolve (history_of source public_key at_ms records (none, false)) authority subject at_ms
          ≡ entitled
    back (grant, w, covers) =
        let active =
          (history_of_iff source public_key at_ms grant records (none, false)).1 (inr w) in
        resolve-some (history_of source public_key at_ms records (none, false)) grant authority
          subject at_ms active
        ∙ (judge_grant_iff grant authority subject at_ms).1 covers
