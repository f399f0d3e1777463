-- ===== src/Hash/Crates.antt =====
-- The crates that crates/dent8-core/src/hash.rs calls: serde_json, sha2 and hex.
use dent.Prelude.{◌<◌, String, ◌≡◌, Option, some, Result, ok, length}
use dent.Model.{FactEvent}
use dent.Hash.Words.{Bytes, IsBytes, u64_modulus}

pub record Codec : Type 0 where
  -- `serde_json::to_value`, then `serde_json::to_vec`: the bytes, or an error's text
  pub to_canonical : FactEvent → Result String Bytes
  -- `Sha256::digest`
  pub sha256 : Bytes → Bytes
  pub hex_encode : Bytes → Bytes
  -- `hex::decode`, which refuses an odd length and what is no hex digit
  pub hex_decode : Bytes → Option Bytes

-- What the crates document: a digest is 32 bytes, decoding undoes encoding, and a vector is shorter than 2 ^ 64.
pub record IsLawful (c : Codec) : Type 0 where
  pub digest_length : (m : Bytes) → length (c.sha256 m) ≡ 32
  pub digest_bytes : (m : Bytes) → IsBytes (c.sha256 m)
  pub decode-encode : (bs : Bytes) → IsBytes bs → c.hex_decode (c.hex_encode bs) ≡ some bs
  pub canonical_fits :
      (e : FactEvent) (bs : Bytes) → c.to_canonical e ≡ ok bs → length bs < u64_modulus
