-- ===== src/Witness/Grants.antt =====
-- The grant-log lane of crates/dent8-cli/src/witness.rs: signed heads over the hashes of the grant log's lines.
use dent.Prelude.{
  ℕ, suc, ◌-◌, ◌≤◌, ◌<◌, String, Bool, true, false, not, ◌&&◌, ◌≡◌, Option, none, some, List, [],
  ◌∷◌, ◌++◌, ltb, nat_eq, if◌then◌else◌, length, get_elem?, last, Result, ok, err, map_err, ◌>>=◌,
  ◌>>◌,
}
use dent.Hash.{Bytes, u64_be, Codec}
use dent.Anchor.{head_eq}
use dent.Anchor.Signed.{Ed25519}
use dent.Witness.{WitnessFault, detected, cannot_verify, tamper, rollback}

pub record GrantLogHead : Type 0 where
  pub record_count : ℕ
  pub head : Option Bytes
  pub signature : Bytes

-- `b"dent8.grant-log-head.v1\0"`
abbrev pub grant_log_head_domain : Bytes
grant_log_head_domain =
    100 ∷ 101 ∷ 110 ∷ 116 ∷ 56 ∷ 46 ∷ 103 ∷ 114 ∷ 97 ∷ 110 ∷ 116 ∷ 45 ∷ 108 ∷ 111 ∷ 103 ∷ 45 ∷ 104
    ∷ 101 ∷ 97 ∷ 100 ∷ 46 ∷ 118 ∷ 49 ∷ 0 ∷ []

-- `count > 0 && head != Some(current[count - 1])`, where the count is in range.
abbrev pub head_differs : List Bytes → GrantLogHead → Bool
head_differs current head =
    ltb 0 head.record_count && not (head_eq head.head (get_elem? current (head.record_count - 1)))

-- The checks of a head against the count before it and the log.
unfoldable pub check_position : List Bytes → ℕ → GrantLogHead → Result WitnessFault (Unit {0})
check_position current previous_count head =
    if ltb head.record_count previous_count
    then err (detected rollback)
    else if ltb (length current) head.record_count
    then err (detected rollback)
    else if head_differs current head
    then err (detected tamper)
    else ok tt

-- `serde_json::to_vec` of a count and a head is the first argument.
module _ (payload : ℕ → Option Bytes → Result String Bytes) (c : Codec) (d : Ed25519) where
  unfoldable pub grant_log_head_message : ℕ → Option Bytes → Result String Bytes
  grant_log_head_message record_count head = do
    body ← payload record_count head
    ok (grant_log_head_domain ++ (u64_be (length body) ++ body))

  unfoldable pub check_signature : Bytes → Bytes → Bytes → Result WitnessFault (Unit {0})
  check_signature verifying message signature = elim (c.hex_decode signature) [
    | none ↦ err cannot_verify
    | some bytes ↦
        if nat_eq (length bytes) 64
        then if d.verify verifying message bytes then ok tt else err (detected tamper)
        else err cannot_verify
  ]

  unfoldable pub check_grant_head :
      List Bytes → Bytes → ℕ → GrantLogHead → Result WitnessFault (Unit {0})
  check_grant_head current verifying previous_count head = do
    message ← map_err (λ e. cannot_verify) (grant_log_head_message head.record_count head.head)
    check_signature verifying message head.signature
    check_position current previous_count head

  unfoldable pub verify_grant_heads_from :
      List Bytes → Bytes → ℕ → List GrantLogHead → Result WitnessFault ℕ
  verify_grant_heads_from current verifying previous_count [] = ok 0
  verify_grant_heads_from current verifying previous_count (head ∷ heads) = do
    check_grant_head current verifying previous_count head
    rest ← verify_grant_heads_from current verifying head.record_count heads
    ok (suc rest)

  -- The number of heads, where all pass.
  unfoldable pub verify_grant_heads : List GrantLogHead → List Bytes → Bytes → Result WitnessFault ℕ
  verify_grant_heads heads current verifying = verify_grant_heads_from current verifying 0 heads

  -- `sign_grant_log_head`, where there is a grant log with these line hashes.
  unfoldable pub sign_grant_log_head : List Bytes → Bytes → Result String GrantLogHead
  sign_grant_log_head hashes signing = do
    message ← grant_log_head_message (length hashes) (last hashes)
    ok (record {
      record_count = length hashes;
      head = last hashes;
      signature = c.hex_encode (d.sign signing message);
    })

  abbrev pub state_eq : Option (ℕ × Option Bytes) → ℕ × Option Bytes → Bool
  state_eq none state = false
  state_eq (some (m, g)) (n, h) = nat_eq m n && head_eq g h

  -- The head that it signs, if any, and the state that it remembers. No grant log is `none`.
  unfoldable pub sign_grant_log_head_if_changed :
      Option (List Bytes)
      → Bytes
      → Option (ℕ × Option Bytes)
      → Result String (Option GrantLogHead × Option (ℕ × Option Bytes))
  sign_grant_log_head_if_changed none signing remembered = ok (none, remembered)
  sign_grant_log_head_if_changed (some hashes) signing remembered =
      if state_eq remembered (length hashes, last hashes) then ok (none, remembered) else do
        signed ← sign_grant_log_head hashes signing
        ok (some signed, some (length hashes, last hashes))

  -- A head that was signed by the key, at a count that the log reaches, with the hash of the line at that count.
  pub record Attests (current : List Bytes) (verifying : Bytes) (head : GrantLogHead) : Type 0 where
    pub message : Bytes
    pub signed : Bytes
    pub framed : grant_log_head_message head.record_count head.head ≡ ok message
    pub decoded : c.hex_decode head.signature ≡ some signed
    pub sized : length signed ≡ 64
    pub verifies : d.verify verifying message signed ≡ true
    pub within : head.record_count ≤ length current
    pub matches : 0 < head.record_count → head.head ≡ get_elem? current (head.record_count - 1)
