-- ===== src/Hash/Chain.antt =====
-- The functions of crates/dent8-core/src/hash.rs.
use dent.Prelude.{
  ℕ, String, Option, none, some, List, [], ◌∷◌, ◌++◌, nat_eq, if◌then◌else◌, length, Result, ok,
  err, map_err, ◌>>=◌,
}
use dent.Model.{FactEvent}
use dent.Hash.Words.{Bytes, u64_be}
use dent.Hash.Crates.{Codec}

pub data CanonError : Type 0 where
  serialize : String → CanonError
  invalid_previous_hash : Bytes → CanonError

abbrev pub canon_version : ℕ
canon_version = 2

abbrev pub leaf_prefix : ℕ
leaf_prefix = 0

-- `b"dent8.event-attestation.v1\0"`
abbrev pub attestation_domain : Bytes
attestation_domain =
    100 ∷ 101 ∷ 110 ∷ 116 ∷ 56 ∷ 46 ∷ 101 ∷ 118 ∷ 101 ∷ 110 ∷ 116 ∷ 45 ∷ 97 ∷ 116 ∷ 116 ∷ 101 ∷ 115
    ∷ 116 ∷ 97 ∷ 116 ∷ 105 ∷ 111 ∷ 110 ∷ 46 ∷ 118 ∷ 49 ∷ 0 ∷ []

-- The event with `provenance.attestation` taken out.
abbrev pub unattested : FactEvent → FactEvent
unattested event = record event { provenance = record (event.provenance) { attestation = none } }

-- The tag of a genesis leaf, or the tag of a chained one with the digest before it.
abbrev pub previous_part : Option Bytes → Bytes
previous_part none = 0 ∷ []
previous_part (some digest) = 1 ∷ digest

-- What `hash_leaf` feeds to the hasher.
unfoldable pub leaf_message : Bytes → Option Bytes → Bytes
leaf_message canonical previous =
    leaf_prefix
    ∷ canon_version
    ∷ (u64_be (length canonical) ++ (canonical ++ previous_part previous))

module _ (c : Codec) where
  unfoldable pub canonical_bytes : FactEvent → Result CanonError Bytes
  canonical_bytes event = map_err serialize (c.to_canonical event)

  unfoldable pub attestation_message : FactEvent → Result CanonError Bytes
  unfolding canonical_bytes
  attestation_message event = do
    body ← canonical_bytes (unattested event)
    ok (attestation_domain ++ (u64_be (length body) ++ body))

  unfoldable pub decode_digest : Bytes → Result CanonError Bytes
  decode_digest hex_str = elim (c.hex_decode hex_str) [
    | none ↦ err (invalid_previous_hash hex_str)
    | some digest ↦
        if nat_eq (length digest) 32 then ok digest else err (invalid_previous_hash hex_str)
  ]

  -- `previous.map(decode_digest).transpose()`
  unfoldable pub decode_previous : Option Bytes → Result CanonError (Option Bytes)
  decode_previous none = ok none
  decode_previous (some hex_str) = do digest ← decode_digest hex_str; ok (some digest)

  unfoldable pub hash_leaf : Bytes → Option Bytes → Bytes
  hash_leaf canonical previous = c.hex_encode (c.sha256 (leaf_message canonical previous))

  unfoldable pub event_hash : FactEvent → Option Bytes → Result CanonError Bytes
  event_hash event previous = do
    canonical ← canonical_bytes event
    digest ← decode_previous previous
    ok (hash_leaf canonical digest)

  -- The loop of `hash_chain`, from the hash before its first event.
  unfoldable pub chain_from : Option Bytes → List FactEvent → Result CanonError (List Bytes)
  chain_from previous [] = ok []
  chain_from previous (event ∷ events) = do
    hash ← event_hash event previous
    hashes ← chain_from (some hash) events
    ok (hash ∷ hashes)

  unfoldable pub hash_chain : List FactEvent → Result CanonError (List Bytes)
  hash_chain events = chain_from none events
