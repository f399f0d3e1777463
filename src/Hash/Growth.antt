-- ===== src/Hash/Growth.antt =====
-- The hash chain of crates/dent8-core/src/hash.rs grows at its end, and is there for every stream that has
-- canonical bytes.
use dent.Prelude.{
  suc, ◌≡◌, refl, ap, inl, inr, Option, none, some, List, [], ◌∷◌, ◌++◌, arith, length, last, All,
  true, ok, Result-cases, is_ok, value_of_ok,
}
use dent.Model.{FactEvent}
use dent.Hash.Words.{Bytes}
use dent.Hash.Crates.{Codec, IsLawful}
use dent.Hash.Chain.{event_hash, chain_from, hash_chain, decode_previous, hash_leaf}
use dent.Hash.Tamper.{event_hash-ok, decode_previous-hash}

-- The hash that the next event is chained to.
abbrev pub head_of : Option Bytes → List Bytes → Option Bytes
head_of previous [] = previous
head_of previous (h ∷ hs) = head_of (some h) hs

head_of-some : (h : Bytes) (hs : List Bytes) → head_of (some h) hs ≡ last (h ∷ hs)
head_of-some h [] = refl
head_of-some h (k ∷ hs) = head_of-some k hs

pub head_of-none : (hs : List Bytes) → head_of none hs ≡ last hs
head_of-none [] = refl
head_of-none (h ∷ hs) = head_of-some h hs

module _ (c : Codec) where
  chain_from-append :
      (p : Option Bytes) (xs : List FactEvent) (e : FactEvent) (hs : List Bytes) (h : Bytes)
      → chain_from c p xs ≡ ok hs
      → event_hash c e (head_of p hs) ≡ ok h
      → chain_from c p (xs ++ e ∷ []) ≡ ok (hs ++ h ∷ [])
  unfolding chain_from
  chain_from-append p [] e [] h a b = rw b
  chain_from-append p [] e (k ∷ hs) h a b = cc
  chain_from-append p (x ∷ xs) e hs h a b = elim (Result-cases (event_hash c x p)) [
    | inr (err_x, k) ↦ absurd (ground arith)
    | inl (k, hk) ↦ elim (Result-cases (chain_from c (some k) xs)) [
      | inr (err_t, d) ↦ absurd (ground arith)
      | inl (t, ht) ↦
          let shape : hs ≡ k ∷ t = ground arith in
          rw (shape, hk, chain_from-append (some k) xs e t h ht (rw shape at b))
    ]
  ]

  -- One event more is one hash more, chained to the last.
  pub hash_chain-append :
      (xs : List FactEvent) (e : FactEvent) (hs : List Bytes) (h : Bytes)
      → hash_chain c xs ≡ ok hs
      → event_hash c e (last hs) ≡ ok h
      → hash_chain c (xs ++ e ∷ []) ≡ ok (hs ++ h ∷ [])
  unfolding hash_chain
  hash_chain-append xs e hs h a b = chain_from-append none xs e hs h a (rw head_of-none b)

module _ (c : Codec) (lawful : IsLawful c) where
  chain_from-total :
      (p digest : Option Bytes) (xs : List FactEvent)
      → decode_previous c p ≡ ok digest
      → All (λ e. is_ok (c.to_canonical e) ≡ true) xs
      → (hs : List Bytes) × (chain_from c p xs ≡ ok hs) × (length hs ≡ length xs)
  unfolding chain_from
  chain_from-total p digest [] d all = ([], refl, refl)
  chain_from-total p digest (x ∷ xs) d all =
      let (body, k) = value_of_ok (c.to_canonical x) all.0 in
      let h = hash_leaf c body digest in
      let here = event_hash-ok c lawful x p body digest k d in
      let (t, rest, l) =
        chain_from-total (some h) _ xs (decode_previous-hash c lawful body digest) all.1 in
      (h ∷ t, rw (here, rest), ap suc l)

  -- A stream of events that all have canonical bytes has a chain, of one hash for each event: no hash that the chain
  -- computes is refused as the previous one.
  pub hash_chain-total :
      (xs : List FactEvent)
      → All (λ e. is_ok (c.to_canonical e) ≡ true) xs
      → (hs : List Bytes) × (hash_chain c xs ≡ ok hs) × (length hs ≡ length xs)
  unfolding hash_chain decode_previous
  hash_chain-total xs all = chain_from-total none none xs refl all
