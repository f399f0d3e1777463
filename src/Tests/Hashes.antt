-- ===== src/Tests/Hashes.antt =====
-- Chains of hashes.
use dent.Prelude.{◌≡◌, refl, ◌∙◌, Option, none, List, [], ◌∷◌, arith, length, map, ◌⊎◌, ok}
use dent.Model.{FactEvent, high, low}
use dent.Hash.{Bytes, hash_chain, chain_from, event_hash, canonical_bytes}
use dent.Hash.Framing.{leaf_message-injective}
use dent.Hash.Tamper.{Collision, hash_chain_shows_change}
use dent.Hash.Growth.{hash_chain-total}
use dent.Tests.Fixtures.{assertion, checksum, checksum-IsLawful}

abbrev history : List FactEvent
history =
    assertion "e1" "fact:A" "source:owner" high ∷ assertion "e2" "fact:B" "source:web" low ∷ []

abbrev renamed : List FactEvent
renamed =
    assertion "e7" "fact:A" "source:owner" high ∷ assertion "e8" "fact:C" "source:web" low ∷ []

history_chain :
    (hs : List Bytes) × (hash_chain checksum history ≡ ok hs) × (length hs ≡ length history)
unfolding checksum
history_chain = hash_chain-total checksum checksum-IsLawful history (refl, (refl, tt))

renamed_chain : hash_chain checksum renamed ≡ hash_chain checksum history
unfolding hash_chain chain_from event_hash canonical_bytes checksum
renamed_chain = refl

hash_chain-total_example :
    (hs : List Bytes) × (hash_chain checksum history ≡ ok hs) × (length hs ≡ length history)
unfolding checksum
hash_chain-total_example = hash_chain-total checksum checksum-IsLawful history (refl, (refl, tt))

hash_chain_shows_change_example :
    (map checksum.to_canonical history ≡ map checksum.to_canonical renamed)
    ⊎ Collision checksum history renamed
hash_chain_shows_change_example =
    hash_chain_shows_change checksum checksum-IsLawful history renamed history_chain.0
      history_chain.0 refl history_chain.1 (renamed_chain ∙ history_chain.1) refl

leaf_message-injective_example :
    (◌≡◌ {A = Bytes} (3 ∷ []) (3 ∷ [])) × (◌≡◌ {A = Option Bytes} none none)
leaf_message-injective_example =
    leaf_message-injective (3 ∷ []) (3 ∷ []) none none (omega arith) (omega arith) refl
