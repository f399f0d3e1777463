-- ===== src/Tests/Witnesses.antt =====
-- A witness over a signature scheme that accepts anything, which has the laws.
use dent.Prelude.{
  ℕ, ◌≡◌, ◌⊎◌, refl, true, List, [], ◌∷◌, map, take, All, arith, ok, String, Option, Result,
}
use dent.Model.{FactEvent, low}
use dent.Hash.{
  Bytes, hash_chain, chain_from, event_hash, canonical_bytes, decode_previous, decode_digest,
  hash_leaf, leaf_message, be_bytes,
}
use dent.Hash.Tamper.{Collision}
use dent.Anchor.{zeros}
use dent.Anchor.Signed.{Ed25519, IsSigning, SignedTreeHead, sign_head}
use dent.Witness.{
  verify_heads, verify_heads_from, publish_outcome, publish_latest, verify_heads_for_publish,
  publication_state, state_after,
}
use dent.Witness.Heads.{verify_heads-sign_head, witnessed_prefixes_agree}
use dent.Witness.Publish.{Published, publish_outcome-Published, publish_outcome-publish_outcome}
use dent.Witness.Grants.{GrantLogHead, sign_grant_log_head, grant_log_head_message}
use dent.Tests.Anchors.{log}
use dent.Tests.Fixtures.{assertion, checksum, checksum-IsLawful}

abbrev pub scheme : Ed25519
scheme = record {
  sign = λ key m. zeros 64;
  verifying_key = λ key. key;
  verify_strict = λ key m s. true;
  verify = λ key m s. true;
}

scheme-IsSigning : IsSigning scheme
scheme-IsSigning = record {
  signature_length = λ key m. refl;
  signature_bytes = λ key m. omega arith;
  verify_strict-sign = λ key m. refl;
  verify-sign = λ key m. refl;
}

abbrev short : List FactEvent
short = take 1 log

first : (sth : SignedTreeHead) × (sign_head checksum scheme short [] ≡ ok sth)
unfolding sign_head hash_chain chain_from event_hash canonical_bytes checksum decode_previous
    decode_digest hash_leaf leaf_message be_bytes
first = (_, refl)

second : (sth : SignedTreeHead) × (sign_head checksum scheme log [] ≡ ok sth)
unfolding sign_head hash_chain chain_from event_hash canonical_bytes checksum decode_previous
    decode_digest hash_leaf leaf_message be_bytes
second = (_, refl)

abbrev rest : List FactEvent
rest = assertion "e2" "fact:B" "source:web" low ∷ []

first_passes : verify_heads checksum scheme short (first.0 ∷ []) [] ≡ ok tt
unfolding verify_heads verify_heads_from
first_passes =
    verify_heads-sign_head checksum scheme [] short [] [] first.0 checksum-IsLawful scheme-IsSigning
      refl first.1

verify_heads-sign_head_example :
    verify_heads checksum scheme log (first.0 ∷ second.0 ∷ []) [] ≡ ok tt
verify_heads-sign_head_example =
    verify_heads-sign_head checksum scheme short rest [] (first.0 ∷ []) second.0 checksum-IsLawful
      scheme-IsSigning first_passes second.1

witnessed_prefixes_agree_example :
    All
      (λ sth.
        (map checksum.to_canonical (take sth.event_count log)
          ≡ map checksum.to_canonical (take sth.event_count log))
        ⊎ Collision checksum (take sth.event_count log) (take sth.event_count log))
      (first.0 ∷ second.0 ∷ [])
witnessed_prefixes_agree_example =
    witnessed_prefixes_agree checksum scheme checksum-IsLawful log log (first.0 ∷ second.0 ∷ []) []
      []
      (verify_heads-sign_head checksum scheme short rest [] (first.0 ∷ []) second.0
        checksum-IsLawful scheme-IsSigning first_passes second.1)
      (verify_heads-sign_head checksum scheme short rest [] (first.0 ∷ []) second.0
        checksum-IsLawful scheme-IsSigning first_passes second.1)

published :
    publish_outcome checksum scheme log [] (first.0 ∷ second.0 ∷ []) (first.0 ∷ [])
    ≡ ok (first.0 ∷ second.0 ∷ [], "appended")
unfolding publish_outcome publish_latest verify_heads_for_publish publication_state state_after
    first second
published = ground (
  arith,
  verify_heads-sign_head checksum scheme short rest [] (first.0 ∷ []) second.0 checksum-IsLawful
      scheme-IsSigning first_passes second.1,
)

publish_outcome-Published_example :
    Published checksum scheme log []
      (first.0 ∷ second.0 ∷ [])
      (first.0 ∷ [])
      (first.0 ∷ second.0 ∷ [])
      "appended"
publish_outcome-Published_example =
    publish_outcome-Published checksum scheme log [] (first.0 ∷ second.0 ∷ []) (first.0 ∷ [])
      (first.0 ∷ second.0 ∷ []) "appended" published

publish_outcome-publish_outcome_example :
    publish_outcome checksum scheme log [] (first.0 ∷ second.0 ∷ []) (first.0 ∷ second.0 ∷ [])
    ≡ ok (first.0 ∷ second.0 ∷ [], "already_published")
publish_outcome-publish_outcome_example =
    publish_outcome-publish_outcome checksum scheme log [] (first.0 ∷ second.0 ∷ []) (first.0 ∷ [])
      (first.0 ∷ second.0 ∷ []) "appended" published

-- A payload that names the count.
abbrev payload : ℕ → Option Bytes → Result String Bytes
payload n head = ok (n ∷ [])

abbrev lines : List Bytes
lines = (1 ∷ []) ∷ (2 ∷ []) ∷ []

granted : (head : GrantLogHead) × (sign_grant_log_head payload checksum scheme lines [] ≡ ok head)
unfolding sign_grant_log_head grant_log_head_message
granted = (_, refl)
