-- ===== src/Tests/Anchors.antt =====
-- An anchor of a short log.
use dent.Prelude.{◌≡◌, refl, ◌⊎◌, ◌↔◌, true, List, [], ◌∷◌, map, ok}
use dent.Model.{FactEvent, high, low}
use dent.Hash.{
  Bytes, hash_chain, chain_from, event_hash, canonical_bytes, decode_previous, decode_digest,
  hash_leaf, leaf_message, be_bytes,
}
use dent.Hash.Tamper.{Collision}
use dent.Anchor.{ChainAnchor, anchor_head, constant_time_eq}
use dent.Anchor.Compare.{constant_time_eq_lem}
use dent.Anchor.History.{anchor_verifies, verified_anchor_shows_change}
use dent.Tests.Fixtures.{assertion, checksum, checksum-IsLawful}

abbrev pub log : List FactEvent
log = assertion "e1" "fact:A" "source:owner" high ∷ assertion "e2" "fact:B" "source:web" low ∷ []

abbrev pub witness_key : Bytes
witness_key = 7 ∷ 11 ∷ []

anchored : (anchor : ChainAnchor) × (anchor_head checksum log witness_key ≡ ok anchor)
unfolding anchor_head hash_chain chain_from event_hash canonical_bytes checksum decode_previous
    decode_digest hash_leaf leaf_message be_bytes
anchored = (_, refl)

verified_anchor_shows_change_example :
    (map checksum.to_canonical log ≡ map checksum.to_canonical log) ⊎ Collision checksum log log
verified_anchor_shows_change_example =
    verified_anchor_shows_change checksum checksum-IsLawful log log witness_key witness_key
      anchored.0 anchored.1 (anchor_verifies checksum log witness_key anchored.0 anchored.1)

constant_time_eq_lem_example :
    (constant_time_eq (1 ∷ 2 ∷ []) (1 ∷ 3 ∷ []) ≡ true)
    ↔ (◌≡◌ {A = Bytes} (1 ∷ 2 ∷ []) (1 ∷ 3 ∷ []))
constant_time_eq_lem_example = constant_time_eq_lem (1 ∷ 2 ∷ []) (1 ∷ 3 ∷ [])
