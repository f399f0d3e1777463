-- ===== src/Anchor/Signed.antt =====
-- The signed tree head of crates/dent8-core/src/anchor.rs, over any Ed25519.
use dent.Prelude.{
  ℕ, ◌≡◌, sym, ◌∙◌, ◌⊎◌, inl, inr, Bool, true, false, ◌&&◌, Option, none, some, List, map, arith,
  nat_eq, length, last, Result, ok, ◌>>=◌, Result-cases,
}
use dent.Model.{FactEvent}
use dent.Hash.{Bytes, IsBytes, Codec, IsLawful, CanonError, hash_chain}
use dent.Hash.Tamper.{Collision, hash_chain_shows_change}
use dent.Anchor.{head_eq, anchor_message}
use dent.Anchor.History.{head_eq_self, head_eq_sound}

-- The crate ed25519_dalek: keys, messages and signatures are bytes.
pub record Ed25519 : Type 0 where
  pub sign : Bytes → Bytes → Bytes
  pub verifying_key : Bytes → Bytes
  -- the key, the message, the signature
  pub verify_strict : Bytes → Bytes → Bytes → Bool
  pub verify : Bytes → Bytes → Bytes → Bool

-- What the crate documents: a signature is 64 bytes, and verifies under the key of its signer.
pub record IsSigning (d : Ed25519) : Type 0 where
  pub signature_length : (key m : Bytes) → length (d.sign key m) ≡ 64
  pub signature_bytes : (key m : Bytes) → IsBytes (d.sign key m)
  pub verify_strict-sign :
      (key m : Bytes) → d.verify_strict (d.verifying_key key) m (d.sign key m) ≡ true
  pub verify-sign : (key m : Bytes) → d.verify (d.verifying_key key) m (d.sign key m) ≡ true

pub record SignedTreeHead : Type 0 where
  pub event_count : ℕ
  pub head : Option Bytes
  pub signature : Bytes

module _ (c : Codec) (d : Ed25519) where
  unfoldable pub sign_head : List FactEvent → Bytes → Result CanonError SignedTreeHead
  sign_head events signing_key = do
    hashes ← hash_chain c events
    ok (record {
      event_count = length events;
      head = last hashes;
      signature = c.hex_encode (d.sign signing_key (anchor_message (length events) (last hashes)));
    })

  -- The signature as 64 bytes, and its check.
  unfoldable pub signature_verifies : Bytes → Bytes → Bytes → Bool
  signature_verifies verifying_key message signature = elim (c.hex_decode signature) [
    | none ↦ false
    | some bytes ↦ nat_eq (length bytes) 64 && d.verify_strict verifying_key message bytes
  ]

  unfoldable pub verify_signed_head :
      List FactEvent → SignedTreeHead → Bytes → Result CanonError Bool
  verify_signed_head events head verifying_key = do
    recomputed ← hash_chain c events
    ok (
        nat_eq (length events) head.event_count
        && head_eq (last recomputed) head.head
        && signature_verifies verifying_key (anchor_message (length events) (last recomputed))
            head.signature)

  signature_verifies-sign :
      (key m : Bytes)
      → IsLawful c
      → IsSigning d
      → signature_verifies (d.verifying_key key) m (c.hex_encode (d.sign key m)) ≡ true
  unfolding signature_verifies
  signature_verifies-sign key m lawful signing = rw (
    lawful.decode-encode (d.sign key m) (signing.signature_bytes key m),
    signature_verifies,
    signing.signature_length key m,
    signing.verify_strict-sign key m,
  )

  -- A head that was signed over a log verifies against that log under the key of the signer.
  pub signed_head_verifies :
      (events : List FactEvent) (key : Bytes) (head : SignedTreeHead)
      → IsLawful c
      → IsSigning d
      → sign_head events key ≡ ok head
      → verify_signed_head events head (d.verifying_key key) ≡ ok true
  unfolding sign_head verify_signed_head
  signed_head_verifies events key head lawful signing h =
      elim (Result-cases (hash_chain c events)) [
        | inr (x, k) ↦ absurd (ground (arith, k))
        | inl (hashes, k) ↦ ground (
          arith,
          k,
          head_eq_self (last hashes),
          signature_verifies-sign key (anchor_message (length events) (last hashes)) lawful signing,
        )
      ]

  -- What a head says of a log that it verifies against.
  pub record Verified (events : List FactEvent) (head : SignedTreeHead) : Type 0 where
    pub hashes : List Bytes
    pub chained : hash_chain c events ≡ ok hashes
    pub counted : length events ≡ head.event_count
    pub headed : last hashes ≡ head.head

  pub verify_signed_head-Verified :
      (events : List FactEvent) (head : SignedTreeHead) (key : Bytes)
      → verify_signed_head events head key ≡ ok true
      → Verified events head
  unfolding verify_signed_head
  verify_signed_head-Verified events head key h = elim (Result-cases (hash_chain c events)) [
    | inr (x, k) ↦ absurd (ground (arith, k))
    | inl (hashes, k) ↦ record {
      hashes = hashes;
      chained = k;
      counted = ground (arith, k);
      headed = head_eq_sound (last hashes) head.head (ground (arith, k));
    }
  ]

  -- Two logs that one head verifies against have the same canonical events, or their chains hash two different
  -- messages of one digest at one position.
  pub Verified-alike :
      IsLawful c
      → (xs ys : List FactEvent) (head : SignedTreeHead) → Verified xs head
      → Verified ys head
      → (map c.to_canonical xs ≡ map c.to_canonical ys) ⊎ Collision c xs ys
  Verified-alike lawful xs ys head a b =
      hash_chain_shows_change c lawful xs ys a.hashes b.hashes (omega (arith, a.counted, b.counted))
        a.chained b.chained (a.headed ∙ sym b.headed)
