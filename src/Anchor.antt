-- ===== src/Anchor.antt =====
-- The keyed anchor of crates/dent8-core/src/anchor.rs: a commitment to a log's length and the head of its chain.
pub mod Compare
pub mod History
pub mod Signed
use Prim.Native.Nat.{bit_xor, bit_or}
use dent.Prelude.{
  ℕ, ◌-◌, zero, suc, Bool, true, false, ◌&&◌, Option, none, some, List, [], ◌∷◌, ◌++◌, map, ltb,
  nat_eq, if◌then◌else◌, length, last, Result, ok, err, ◌>>=◌,
}
use dent.Model.{FactEvent}
use dent.Hash.{Bytes, bytes_eq, u64_be, Codec, CanonError, canon_version, hash_chain}

abbrev pub anchor_prefix : ℕ
anchor_prefix = 2

abbrev pub block_len : ℕ
block_len = 64

pub record ChainAnchor : Type 0 where
  pub event_count : ℕ
  pub head : Option Bytes
  pub mac : Bytes

-- The tag of an empty log, or the tag of a head with its length and its text.
abbrev pub head_part : Option Bytes → Bytes
head_part none = 0 ∷ []
head_part (some head) = 1 ∷ (u64_be (length head) ++ head)

unfoldable pub anchor_message : ℕ → Option Bytes → Bytes
anchor_message count head = anchor_prefix ∷ canon_version ∷ (u64_be count ++ head_part head)

abbrev pub zeros : ℕ → Bytes
zeros zero = []
zeros (suc n) = 0 ∷ zeros n

-- The zip of the two, folded by `diff |= x ^ y`.
unfoldable pub difference : ℕ → Bytes → Bytes → ℕ
difference diff [] ys = diff
difference diff (a ∷ xs) [] = diff
difference diff (a ∷ xs) (b ∷ ys) = difference (bit_or diff (bit_xor a b)) xs ys

unfoldable pub constant_time_eq : Bytes → Bytes → Bool
constant_time_eq a b = if nat_eq (length a) (length b) then nat_eq (difference 0 a b) 0 else false

abbrev pub head_eq : Option Bytes → Option Bytes → Bool
head_eq none none = true
head_eq (some a) (some b) = bytes_eq a b
head_eq _ _ = false

module _ (c : Codec) where
  -- The key in a block of its own, hashed first if it is longer.
  unfoldable pub key_block : Bytes → Bytes
  key_block key =
      if ltb block_len (length key)
      then c.sha256 key ++ zeros 32
      else key ++ zeros (block_len - length key)

  unfoldable pub hmac_sha256 : Bytes → Bytes → Bytes
  hmac_sha256 key message =
      let block = key_block key in
      c.sha256 (map (bit_xor 0x5c) block ++ c.sha256 (map (bit_xor 0x36) block ++ message))

  unfoldable pub mac_of : ℕ → Option Bytes → Bytes → Bytes
  mac_of count head key = c.hex_encode (hmac_sha256 key (anchor_message count head))

  unfoldable pub anchor_head : List FactEvent → Bytes → Result CanonError ChainAnchor
  anchor_head events witness_key = do
    hashes ← hash_chain c events
    ok (record {
      event_count = length events;
      head = last hashes;
      mac = mac_of (length events) (last hashes) witness_key;
    })

  unfoldable pub verify_anchor : List FactEvent → ChainAnchor → Bytes → Result CanonError Bool
  verify_anchor events anchor witness_key = do
    hashes ← hash_chain c events
    ok (
        nat_eq (length events) anchor.event_count
        && head_eq (last hashes) anchor.head
        && constant_time_eq (mac_of (length events) (last hashes) witness_key) anchor.mac)
