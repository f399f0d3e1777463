-- ===== src/Anchor/History.antt =====
-- What an anchor of crates/dent8-core/src/anchor.rs says of a log.
use dent.Prelude.{
  ◌≡◌, refl, ap, sym, ◌⊎◌, inl, inr, true, Option, none, some, List, map, arith, length, last, ok,
  Result-cases,
}
use dent.Model.{FactEvent}
use dent.Hash.{Bytes, bytes_eq_iff, Codec, IsLawful, hash_chain}
use dent.Hash.Tamper.{Collision, hash_chain_shows_change}
use dent.Anchor.{ChainAnchor, head_eq, mac_of, anchor_head, verify_anchor}
use dent.Anchor.Compare.{constant_time_eq_lem}

pub head_eq_self : (head : Option Bytes) → head_eq head head ≡ true
head_eq_self none = refl
head_eq_self (some h) = (bytes_eq_iff h h).1 refl

pub head_eq_sound : (a b : Option Bytes) → head_eq a b ≡ true → a ≡ b
head_eq_sound none none h = refl
head_eq_sound none (some b) h = cc
head_eq_sound (some a) none h = cc
head_eq_sound (some a) (some b) h = ap some ((bytes_eq_iff a b).0 h)

module _ (c : Codec) where
  -- An anchor of a log verifies against that log under the key that it was made with.
  pub anchor_verifies :
      (events : List FactEvent) (key : Bytes) (anchor : ChainAnchor)
      → anchor_head c events key ≡ ok anchor
      → verify_anchor c events anchor key ≡ ok true
  unfolding anchor_head verify_anchor
  anchor_verifies events key anchor h = elim (Result-cases (hash_chain c events)) [
    | inr (x, k) ↦ absurd (ground (arith, k))
    | inl (hashes, k) ↦
        let m = mac_of c (length events) (last hashes) key in
        ground (arith, k, head_eq_self (last hashes), (constant_time_eq_lem m m).1 refl)
  ]

  -- A log that an anchor verifies against, under any key, has the canonical events of the log that was anchored, in
  -- the same order, unless the chains of the two logs hash two different messages of one digest at
  -- one position.
  pub verified_anchor_shows_change :
      IsLawful c
      → (xs ys : List FactEvent) (key other : Bytes) (anchor : ChainAnchor)
      → anchor_head c xs key ≡ ok anchor
      → verify_anchor c ys anchor other ≡ ok true
      → (map c.to_canonical xs ≡ map c.to_canonical ys) ⊎ Collision c xs ys
  unfolding anchor_head verify_anchor
  verified_anchor_shows_change lawful xs ys key other anchor made verified =
      elim (Result-cases (hash_chain c xs)) [
        | inr (x, k) ↦ absurd (ground (arith, k))
        | inl (hs, a) ↦ elim (Result-cases (hash_chain c ys)) [
          | inr (x, k) ↦ absurd (ground (arith, k))
          | inl (ks, b) ↦
              hash_chain_shows_change c lawful xs ys hs ks (ground (arith, a, b)) a b
                (sym (head_eq_sound (last ks) (last hs) (ground (arith, a, b))))
        ]
      ]
