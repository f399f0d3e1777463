-- ===== src/Witness/Publish.antt =====
-- The publication of heads by crates/dent8-cli/src/witness.rs.
use dent.Prelude.{
  String, ◌≡◌, refl, ap, ◌⊎◌, inl, inr, Bool, true, false, some, List, [], ◌∷◌, ◌++◌, arith, last,
  last-append, ok, Result-cases, Option-cases,
}
use dent.Model.{FactEvent}
use dent.Hash.{Bytes, bytes_eq_iff, Codec}
use dent.Anchor.History.{head_eq_self, head_eq_sound}
use dent.Anchor.Signed.{Ed25519, SignedTreeHead}
use dent.Witness.{
  signed_head_eq, state_after, publication_state, verify_heads, verify_heads_for_publish,
  publish_latest, publish_outcome, with_latest, action_of,
}

signed_head_eq_self : (h : SignedTreeHead) → signed_head_eq h h ≡ true
signed_head_eq_self h =
    ground (arith, head_eq_self h.head, (bytes_eq_iff h.signature h.signature).1 refl)

signed_head_eq_sound : (a b : SignedTreeHead) → signed_head_eq a b ≡ true → a ≡ b
signed_head_eq_sound a b h =
    let heads : a.head ≡ b.head = head_eq_sound a.head b.head (ground arith) in
    let signatures : a.signature ≡ b.signature =
      (bytes_eq_iff a.signature b.signature).0 (ground arith) in
    ground (arith, heads, signatures)

-- A head that is published already is the last of the published heads.
published_last :
    (published : List SignedTreeHead) (latest : SignedTreeHead)
    → publication_state published latest ≡ ok true
    → last published ≡ some latest
unfolding publication_state state_after
published_last published latest h = elim (Option-cases (last published)) [
  | inl nothing ↦ absurd (ground arith)
  | inr (previous, there) ↦
      rw there (ap (λ x. some x) (signed_head_eq_sound previous latest (ground arith)))
]

pub last_published :
    (published : List SignedTreeHead) (latest : SignedTreeHead)
    → last published ≡ some latest
    → publication_state published latest ≡ ok true
unfolding publication_state state_after
last_published published latest h =
    rw (h, publication_state) (ground (arith, signed_head_eq_self latest))

last-with_latest :
    (already : Bool) (published : List SignedTreeHead) (latest : SignedTreeHead)
    → publication_state published latest ≡ ok already
    → last (with_latest already published latest) ≡ some latest
last-with_latest true published latest h = published_last published latest h
last-with_latest false published latest h = last-append published latest

module _ (c : Codec) (d : Ed25519) (events : List FactEvent) (verifying : Bytes)
    (local published : List SignedTreeHead) where
  -- What a publication that succeeded has done.
  pub record Published (next : List SignedTreeHead) (action : String) : Type 0 where
    pub latest : SignedTreeHead
    pub is_last : last local ≡ some latest
    pub verified_local : verify_heads c d events local verifying ≡ ok tt
    pub verified : verify_heads c d events next verifying ≡ ok tt
    pub published_last : last next ≡ some latest
    pub kept :
        ((next ≡ published) × (action ≡ "already_published"))
        ⊎ ((next ≡ published ++ latest ∷ []) × (action ≡ "appended"))

  kept_by :
      (already : Bool) (latest : SignedTreeHead)
      → ((with_latest already published latest ≡ published) × (action_of already ≡ action_of true))
        ⊎ ((with_latest already published latest ≡ published ++ latest ∷ [])
            × (action_of already ≡ action_of false))
  kept_by true latest = inl (refl, refl)
  kept_by false latest = inr (refl, refl)

  latest_Published :
      (latest : SignedTreeHead) (next : List SignedTreeHead) (action : String)
      → last local ≡ some latest
      → publish_latest c d events verifying local published latest ≡ ok (next, action)
      → Published next action
  unfolding publish_latest verify_heads_for_publish
  latest_Published latest next action l h =
      elim (Result-cases (verify_heads c d events local verifying)) [
        | inr (x, k) ↦ absurd (ground arith)
        | inl (tt, first) ↦ elim (Result-cases (publication_state published latest)) [
          | inr (x, k) ↦ absurd (ground arith)
          | inl (already, state) ↦
              elim (Result-cases
                (verify_heads c d events (with_latest already published latest) verifying)) [
                  | inr (x, k) ↦ absurd (ground arith)
                  | inl (tt, second) ↦
                      let made : with_latest already published latest ≡ next = ground arith in
                      let acted : action_of already ≡ action = ground arith in
                      record {
                        latest = latest;
                        is_last = l;
                        verified_local = first;
                        verified = rw (← made) second;
                        published_last =
                            rw (← made) (last-with_latest already published latest state);
                        kept = rw (← made, ← acted) (kept_by already latest);
                      }
                ]
        ]
      ]

  -- A publication that succeeds leaves the published heads or puts the last local head behind them; either way the
  -- published heads end in it, and they and the local heads pass against the log.
  pub publish_outcome-Published :
      (next : List SignedTreeHead) (action : String)
      → publish_outcome c d events verifying local published ≡ ok (next, action)
      → Published next action
  unfolding publish_outcome
  publish_outcome-Published next action h = elim (Option-cases (last local)) [
    | inl nothing ↦ absurd (ground arith)
    | inr (latest, there) ↦ latest_Published latest next action there (ground arith)
  ]

-- Publishing the same local heads again, with the same log, succeeds and leaves what is published as it is.
pub publish_outcome-publish_outcome :
    (c : Codec) (d : Ed25519) (events : List FactEvent) (verifying : Bytes)
    (local published next : List SignedTreeHead) (action : String)
    → publish_outcome c d events verifying local published ≡ ok (next, action)
    → publish_outcome c d events verifying local next ≡ ok (next, "already_published")
unfolding publish_outcome publish_latest verify_heads_for_publish
publish_outcome-publish_outcome c d events verifying local published next action h =
    let p = publish_outcome-Published c d events verifying local published next action h in
    rw (
      p.is_last,
      publish_outcome,
      p.verified_local,
      last_published next p.latest p.published_last,
      p.verified,
    )
