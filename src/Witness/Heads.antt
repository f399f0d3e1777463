-- ===== src/Witness/Heads.antt =====
-- `verify_heads` of crates/dent8-cli/src/witness.rs: when it accepts, and what that says of logs that grow or change.
use dent.Prelude.{
  subst, sym, ◌∙◌, Bool, Result, ℕ, zero, suc, ◌≤◌, ◌≡◌, ◌↔◌, ◌⊎◌, inl, inr, refl, true, false, ap,
  List, [], ◌∷◌, ◌++◌, map, arith, length, length-append, take, All, All-weaken, All-append, ok,
  err, Result-cases,
}
use dent.Model.{FactEvent}
use dent.Hash.{Bytes, Codec, IsLawful, CanonError, hash_chain}
use dent.Hash.Tamper.{Collision}
use dent.Anchor.Signed.{
  Ed25519, IsSigning, SignedTreeHead, sign_head, verify_signed_head, signed_head_verifies,
  verify_signed_head-Verified, Verified-alike,
}
use dent.Witness.Ascending.{IsAscending, IsAscending-append}
use dent.Witness.{verify_heads, verify_heads_from, head_verdict}

abbrev pub count_of : SignedTreeHead → ℕ
count_of sth = sth.event_count

-- A head within a log that verifies against the log's events up to its count.
abbrev pub Stands : Codec → Ed25519 → List FactEvent → Bytes → SignedTreeHead → Type 0
Stands c d events key sth =
    (sth.event_count ≤ length events)
    × (verify_signed_head c d (take sth.event_count events) sth key ≡ ok true)

head_verdict-ok : (r : Result CanonError Bool) → head_verdict r ≡ ok tt → r ≡ ok true
head_verdict-ok (ok true) h = refl
head_verdict-ok (ok false) h = cc
head_verdict-ok (err e) h = cc

module _ (c : Codec) (d : Ed25519) (events : List FactEvent) (key : Bytes) where
  first-Stands :
      (n : ℕ) (sth : SignedTreeHead) (heads : List SignedTreeHead)
      → verify_heads_from c d events key n (sth ∷ heads) ≡ ok tt
      → (n ≤ sth.event_count)
        × Stands c d events key sth
        × (verify_heads_from c d events key sth.event_count heads ≡ ok tt)
  unfolding verify_heads_from
  first-Stands n sth heads h =
      let r = verify_signed_head c d (take sth.event_count events) sth key in
      elim (Result-cases (head_verdict r)) [
        | inl (tt, k) ↦ (ground arith, (ground arith, head_verdict-ok r k), ground arith)
        | inr (x, k) ↦ absurd (ground arith)
      ]

  pub verify_heads_from_iff :
      (n : ℕ) (heads : List SignedTreeHead)
      → (verify_heads_from c d events key n heads ≡ ok tt)
        ↔ (IsAscending count_of n heads × All (Stands c d events key) heads)
  unfolding verify_heads_from
  verify_heads_from_iff n [] = (λ h. (tt, tt), λ h. refl)
  verify_heads_from_iff n (sth ∷ heads) =
      let ih = verify_heads_from_iff sth.event_count heads in
      (
        λ h.
            let (le, stands, rest) = first-Stands n sth heads h in
            let (up, all) = ih.0 rest in ((le, up), (stands, all)),
        λ h. ground (arith, h.0.0, h.1.0.0, h.1.0.1, ih.1 (h.0.1, h.1.1)),
      )

  -- The log of heads passes exactly when their counts do not fall, no count is beyond the log of events, and each head
  -- verifies against the events up to its count.
  pub verify_heads_iff :
      (heads : List SignedTreeHead)
      → (verify_heads c d events heads key ≡ ok tt)
        ↔ (IsAscending count_of 0 heads × All (Stands c d events key) heads)
  unfolding verify_heads
  verify_heads_iff heads = verify_heads_from_iff 0 heads

take-append : (n : ℕ) (xs ys : List FactEvent) → n ≤ length xs → take n (xs ++ ys) ≡ take n xs
take-append zero xs ys h = refl
take-append (suc n) [] ys h = absurd (omega arith)
take-append (suc n) (x ∷ xs) ys h = ap (λ l. x ∷ l) (take-append n xs ys (omega arith))

take_all : (xs : List FactEvent) → take (length xs) xs ≡ xs
take_all [] = refl
take_all (x ∷ xs) = ap (λ l. x ∷ l) (take_all xs)

module _ (c : Codec) (d : Ed25519) where
  Stands-grows :
      (xs ys : List FactEvent) (key : Bytes) (sth : SignedTreeHead)
      → Stands c d xs key sth
      → Stands c d (xs ++ ys) key sth
  Stands-grows xs ys key sth h =
      (omega (arith, length-append xs ys, h.0), rw (take-append sth.event_count xs ys h.0) h.1)

  signed_Stands :
      (xs : List FactEvent) (key : Bytes) (sth : SignedTreeHead)
      → IsLawful c
      → IsSigning d
      → sign_head c d xs key ≡ ok sth
      → (sth.event_count ≡ length xs) × Stands c d xs (d.verifying_key key) sth
  unfolding sign_head
  signed_Stands xs key sth lawful signing h = elim (Result-cases (hash_chain c xs)) [
    | inr (x, k) ↦ absurd (ground (arith, k))
    | inl (hashes, k) ↦
        let counted : sth.event_count ≡ length xs = ground (arith, k) in
        (
          counted,
          (
            omega (arith, counted),
            subst (λ l. verify_signed_head c d l sth (d.verifying_key key) ≡ ok true)
                (sym (ap (λ n. take n xs) counted ∙ take_all xs))
                (signed_head_verifies c d xs key sth lawful signing h),
          ),
        )
  ]

  -- Heads that pass against a log pass against the log grown by any events, with a head that the same witness signs
  -- over the grown log behind them.
  pub verify_heads-sign_head :
      (xs ys : List FactEvent) (key : Bytes) (heads : List SignedTreeHead) (sth : SignedTreeHead)
      → IsLawful c
      → IsSigning d
      → verify_heads c d xs heads (d.verifying_key key) ≡ ok tt
      → sign_head c d (xs ++ ys) key ≡ ok sth
      → verify_heads c d (xs ++ ys) (heads ++ sth ∷ []) (d.verifying_key key) ≡ ok tt
  verify_heads-sign_head xs ys key heads sth lawful signing h signed =
      let (up, all) = (verify_heads_iff c d xs (d.verifying_key key) heads).0 h in
      let (counted, stands) = signed_Stands (xs ++ ys) key sth lawful signing signed in
      let grown = All-weaken _ _ heads (λ x. Stands-grows xs ys (d.verifying_key key) x) all in
      (verify_heads_iff c d (xs ++ ys) (d.verifying_key key) (heads ++ sth ∷ [])).1 (
        IsAscending-append count_of 0 (length (xs ++ ys)) heads sth (omega arith)
            (All-weaken _ _ heads (λ x s. s.0) grown) (omega (arith, counted)) up,
        All-append _ heads (sth ∷ []) grown (stands, tt),
      )

  -- Where one log of heads passes against two logs of events, under any keys, the logs have the same canonical events
  -- up to the count of each head, or their chains up to it hash two different messages of one digest at one position.
  pub witnessed_prefixes_agree :
      IsLawful c
      → (xs ys : List FactEvent) (heads : List SignedTreeHead) (key other : Bytes)
      → verify_heads c d xs heads key ≡ ok tt
      → verify_heads c d ys heads other ≡ ok tt
      → All
          (λ sth.
            (map c.to_canonical (take sth.event_count xs)
              ≡ map c.to_canonical (take sth.event_count ys))
            ⊎ Collision c (take sth.event_count xs) (take sth.event_count ys))
          heads
  witnessed_prefixes_agree lawful xs ys heads key other a b =
      agree heads ((verify_heads_iff c d xs key heads).0 a).1
        ((verify_heads_iff c d ys other heads).0 b).1
    where
      agree :
          (hs : List SignedTreeHead)
          → All (Stands c d xs key) hs
          → All (Stands c d ys other) hs
          → All
              (λ sth.
                (map c.to_canonical (take sth.event_count xs)
                  ≡ map c.to_canonical (take sth.event_count ys))
                ⊎ Collision c (take sth.event_count xs) (take sth.event_count ys))
              hs
      agree [] p q = tt
      agree (sth ∷ hs) p q = (
        Verified-alike c d lawful (take sth.event_count xs) (take sth.event_count ys) sth
            (verify_signed_head-Verified c d (take sth.event_count xs) sth key p.0.1)
            (verify_signed_head-Verified c d (take sth.event_count ys) sth other q.0.1),
        agree hs p.1 q.1,
      )
