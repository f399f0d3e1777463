-- ===== src/Hash/Tamper.antt =====
-- The hash chain of crates/dent8-core/src/hash.rs shows a change of history, but for a collision of the digest.
use dent.Prelude.{
  ◌<◌, ◌≡◌, ◌≢◌, refl, sym, ap, ◌∙◌, ◌⊎◌, inl, inr, Option, none, some, List, [], ◌∷◌, map, arith,
  length, last, ok, Result-cases, ok_injective,
}
use dent.Model.{FactEvent}
use dent.Hash.Words.{Bytes, u64_modulus, bytes_discrete}
use dent.Hash.Crates.{Codec, IsLawful}
use dent.Hash.Chain.{
  leaf_message, decode_digest, decode_previous, hash_leaf, event_hash, chain_from, hash_chain,
  canonical_bytes,
}
use dent.Hash.Framing.{leaf_message-injective}

last_tail : {hs t t' : List Bytes} {h h' : Bytes} → hs ≡ h ∷ t → t ≡ h' ∷ t' → last hs ≡ last t
last_tail a b = ap last a ∙ rw b refl

last_one : {hs t : List Bytes} {h : Bytes} → hs ≡ h ∷ t → t ≡ [] → last hs ≡ some h
last_one a b = ap last a ∙ rw b refl

some_injective {ℓ} : {A : Type ℓ} {a b : A} → some a ≡ some b → a ≡ b
some_injective h = cc

module _ (c : Codec) where
  -- What a computed hash is the hash of.
  pub record HashOf (e : FactEvent) (previous : Option Bytes) (h : Bytes) : Type 0 where
    pub body : Bytes
    pub digest : Option Bytes
    pub canonical : c.to_canonical e ≡ ok body
    pub before : decode_previous c previous ≡ ok digest
    pub hash : h ≡ hash_leaf c body digest

  -- At one position of two streams, whose chains go on from two hashes, the messages that are hashed differ and have one
  -- digest.
  pub data CollisionFrom
      : Option Bytes → Option Bytes → List FactEvent → List FactEvent → Type 0 where
    here :
        {p q : Option Bytes} {e f : FactEvent} {es fs : List FactEvent} {h k : Bytes}
        (a : HashOf e p h) (b : HashOf f q k)
        → leaf_message a.body a.digest ≢ leaf_message b.body b.digest
        → c.sha256 (leaf_message a.body a.digest) ≡ c.sha256 (leaf_message b.body b.digest)
        → CollisionFrom p q (e ∷ es) (f ∷ fs)
    later :
        {p q : Option Bytes} {e f : FactEvent} {es fs : List FactEvent} {h k : Bytes}
        → HashOf e p h
        → HashOf f q k
        → CollisionFrom (some h) (some k) es fs
        → CollisionFrom p q (e ∷ es) (f ∷ fs)

  -- Two different messages of one digest that the chains of the two streams hash at one position.
  abbrev pub Collision : List FactEvent → List FactEvent → Type 0
  Collision xs ys = CollisionFrom none none xs ys

module _ (c : Codec) (lawful : IsLawful c) where
  pub event_hash-HashOf :
      (e : FactEvent) (previous : Option Bytes) {h : Bytes}
      → event_hash c e previous ≡ ok h
      → HashOf c e previous h
  unfolding event_hash canonical_bytes
  event_hash-HashOf e previous {h} eq = elim (Result-cases (c.to_canonical e)) [
    | inr (x, k) ↦ absurd (ground arith)
    | inl (body, k) ↦ elim (Result-cases (decode_previous c previous)) [
      | inr (x, d) ↦ absurd (ground arith)
      | inl (digest, d) ↦ record {
        body = body;
        digest = digest;
        canonical = k;
        before = d;
        hash = ground arith;
      }
    ]
  ]

  -- The digest comes back from its text.
  pub decode-hash :
      (body : Bytes) (digest : Option Bytes)
      → decode_digest c (hash_leaf c body digest) ≡ ok (c.sha256 (leaf_message body digest))
  unfolding decode_digest hash_leaf
  decode-hash body digest =
      rw
        (
          lawful.decode-encode (c.sha256 (leaf_message body digest)) (lawful.digest_bytes _),
          decode_digest,
        )
        (ground (arith, lawful.digest_length (leaf_message body digest)))

  pub event_hash-ok :
      (e : FactEvent) (previous : Option Bytes) (body : Bytes) (digest : Option Bytes)
      → c.to_canonical e ≡ ok body
      → decode_previous c previous ≡ ok digest
      → event_hash c e previous ≡ ok (hash_leaf c body digest)
  unfolding event_hash canonical_bytes
  event_hash-ok e previous body digest k d = ground arith

  digest_of : Bytes → Option Bytes → Bytes
  digest_of body digest = c.sha256 (leaf_message body digest)

  same_digest :
      (b d : Bytes) (p q : Option Bytes)
      → hash_leaf c b p ≡ hash_leaf c d q
      → c.sha256 (leaf_message b p) ≡ c.sha256 (leaf_message d q)
  same_digest b d p q h =
      ok_injective (sym (decode-hash b p) ∙ (ap (decode_digest c) h ∙ decode-hash d q))

  same_leaf :
      (b d : Bytes) (p q : Option Bytes)
      → length b < u64_modulus
      → length d < u64_modulus
      → c.sha256 (leaf_message b p) ≡ c.sha256 (leaf_message d q)
      → ((b ≡ d) × (p ≡ q)) ⊎ (leaf_message b p ≢ leaf_message d q)
  same_leaf b d p q lb ld h = elim (bytes_discrete (leaf_message b p) (leaf_message d q)) [
    | yes e ↦ inl (leaf_message-injective b d p q lb ld e)
    | no n ↦ inr n
  ]

  same_step :
      (e f : FactEvent) (es fs : List FactEvent) (p q : Option Bytes) (h k : Bytes)
      → HashOf c e p h
      → HashOf c f q k
      → h ≡ k
      → ((c.to_canonical e ≡ c.to_canonical f) × (decode_previous c p ≡ decode_previous c q))
        ⊎ CollisionFrom c p q (e ∷ es) (f ∷ fs)
  same_step e f es fs p q h k a b eq =
      let one = same_digest a.body b.body a.digest b.digest (sym a.hash ∙ (eq ∙ b.hash)) in
      elim (same_leaf a.body b.body a.digest b.digest (lawful.canonical_fits e a.body a.canonical)
        (lawful.canonical_fits f b.body b.canonical) one) [
          | inl same ↦ inl (cc (a.canonical, b.canonical, same.0), cc (a.before, b.before, same.1))
          | inr differ ↦ inr (CollisionFrom.here a b differ one)
        ]

  pub decode_previous-hash :
      (body : Bytes) (digest : Option Bytes)
      → decode_previous c (some (hash_leaf c body digest))
        ≡ ok (some (c.sha256 (leaf_message body digest)))
  unfolding decode_previous
  decode_previous-hash body digest = rw (decode-hash body digest)

  same_text :
      (e f : FactEvent) (p q : Option Bytes) (h k : Bytes)
      → HashOf c e p h
      → HashOf c f q k
      → decode_previous c (some h) ≡ decode_previous c (some k)
      → h ≡ k
  unfolding hash_leaf
  same_text e f p q h k a b eq =
      let known = decode_previous-hash a.body a.digest in
      let other = decode_previous-hash b.body b.digest in
      let digests : ok (some (c.sha256 (leaf_message a.body a.digest)))
          ≡ ok (some (c.sha256 (leaf_message b.body b.digest))) =
        sym known
        ∙ (ap (λ t. decode_previous c (some t)) (sym a.hash)
            ∙ (eq ∙ (ap (λ t. decode_previous c (some t)) b.hash ∙ other))) in
      a.hash ∙ (ap c.hex_encode (some_injective (ok_injective digests)) ∙ sym b.hash)

  chain_parts :
      (p : Option Bytes) (e : FactEvent) (es : List FactEvent) {hs : List Bytes}
      → chain_from c p (e ∷ es) ≡ ok hs
      → (h : Bytes) × (t : List Bytes) × HashOf c e p h
        × (chain_from c (some h) es ≡ ok t)
        × (hs ≡ h ∷ t)
  unfolding chain_from
  chain_parts p e es eq = elim (Result-cases (event_hash c e p)) [
    | inr (x, k) ↦ absurd (ground arith)
    | inl (h, k) ↦ elim (Result-cases (chain_from c (some h) es)) [
      | inr (x, d) ↦ absurd (ground arith)
      | inl (t, d) ↦ (h, t, event_hash-HashOf e p k, d, ground arith)
    ]
  ]

  chain_nil : (p : Option Bytes) {t : List Bytes} → chain_from c p [] ≡ ok t → t ≡ []
  unfolding chain_from
  chain_nil p h = sym (ok_injective h)

  -- Two chains as long, with one head, are of one history, or show a collision.
  chains_agree :
      (p q : Option Bytes) (x y : FactEvent) (xs ys : List FactEvent) (hs ks : List Bytes)
      → length xs ≡ length ys
      → chain_from c p (x ∷ xs) ≡ ok hs
      → chain_from c q (y ∷ ys) ≡ ok ks
      → last hs ≡ last ks
      → ((map c.to_canonical (x ∷ xs) ≡ map c.to_canonical (y ∷ ys))
          × (decode_previous c p ≡ decode_previous c q))
        ⊎ CollisionFrom c p q (x ∷ xs) (y ∷ ys)
  chains_agree p q x y [] (y' ∷ ys) hs ks l a b e = absurd (omega arith)
  chains_agree p q x y (x' ∷ xs) [] hs ks l a b e = absurd (omega arith)
  chains_agree p q x y [] [] hs ks l a b e =
      let (h, t, hh, ht, eh) = chain_parts p x [] a in
      let (k, u, hk, hu, ek) = chain_parts q y [] b in
      elim (same_step x y [] [] p q h k hh hk (
        some_injective (
          sym (last_one eh (chain_nil (some h) ht)) ∙ (e ∙ last_one ek (chain_nil (some k) hu))))) [
            | inr found ↦ inr found
            | inl (first, before) ↦ inl (cc first, before)
          ]
  chains_agree p q x y (x' ∷ xs) (y' ∷ ys) hs ks l a b e =
      let (h, t, hh, ht, eh) = chain_parts p x (x' ∷ xs) a in
      let (k, u, hk, hu, ek) = chain_parts q y (y' ∷ ys) b in
      let (h', t', hh', ht', eh') = chain_parts (some h) x' xs ht in
      let (k', u', hk', hu', ek') = chain_parts (some k) y' ys hu in
      elim (chains_agree (some h) (some k) x' y' xs ys t u (omega arith) ht hu
        (sym (last_tail eh eh') ∙ (e ∙ last_tail ek ek'))) [
          | inr found ↦ inr (CollisionFrom.later hh hk found)
          | inl (rest, digests) ↦
              elim (same_step x y (x' ∷ xs) (y' ∷ ys) p q h k hh hk
                (same_text x y p q h k hh hk digests)) [
                  | inr found ↦ inr found
                  | inl (first, before) ↦ inl (cc (first, rest), before)
                ]
        ]

  -- Two streams as long whose chains end in one hash have the same canonical events in the same order, unless
  -- the chains hash two different messages of one digest at one position.
  pub hash_chain_shows_change :
      (xs ys : List FactEvent) (hs ks : List Bytes)
      → length xs ≡ length ys
      → hash_chain c xs ≡ ok hs
      → hash_chain c ys ≡ ok ks
      → last hs ≡ last ks
      → (map c.to_canonical xs ≡ map c.to_canonical ys) ⊎ Collision c xs ys
  unfolding hash_chain
  hash_chain_shows_change [] [] hs ks l a b e = inl refl
  hash_chain_shows_change [] (y ∷ ys) hs ks l a b e = absurd (omega arith)
  hash_chain_shows_change (x ∷ xs) [] hs ks l a b e = absurd (omega arith)
  hash_chain_shows_change (x ∷ xs) (y ∷ ys) hs ks l a b e =
      elim (chains_agree none none x y xs ys hs ks (omega arith) a b e) [
        | inl same ↦ inl same.0
        | inr found ↦ inr found
      ]
