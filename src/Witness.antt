-- ===== src/Witness.antt =====
-- The witness of crates/dent8-cli/src/witness.rs: the check of its log of signed heads against a log of events, and the
-- publication of its latest head. The two logs of heads and the log of events are arguments, as the files hold them.
mod Ascending
pub mod Heads
pub mod Publish
pub mod Grants
pub mod Lane
use dent.Prelude.{
  ℕ, ◌-◌, String, Bool, true, false, ◌&&◌, Option, none, some, List, [], ◌∷◌, ◌++◌, ltb, nat_eq,
  if◌then◌else◌, length, take, last, Result, ok, err, map_err, ◌>>=◌, ◌>>◌,
}
use dent.Model.{FactEvent}
use dent.Hash.{Bytes, bytes_eq, Codec, CanonError}
use dent.Anchor.{head_eq}
use dent.Anchor.Signed.{Ed25519, SignedTreeHead, verify_signed_head}

pub data WitnessVerdict : Type 0 where
  tamper rollback : WitnessVerdict

abbrev pub verdict_status : WitnessVerdict → String
verdict_status tamper = "tamper"
verdict_status rollback = "rollback"

-- Without the texts of its messages.
pub data WitnessFault : Type 0 where
  detected : WitnessVerdict → WitnessFault
  cannot_verify : WitnessFault

abbrev pub unwitnessed_events : ℕ → ℕ → ℕ
unwitnessed_events witnessed current = current - witnessed

abbrev pub coverage_level : ℕ → ℕ → String
coverage_level witnessed current = if nat_eq witnessed current then "ok" else "warn"

abbrev pub coverage_status : ℕ → ℕ → String
coverage_status witnessed current = if nat_eq witnessed current then "complete" else "trailing"

-- The three arms of the match on `verify_signed_head`.
abbrev pub head_verdict : Result CanonError Bool → Result WitnessFault (Unit {0})
head_verdict (ok true) = ok tt
head_verdict (ok false) = err (detected tamper)
head_verdict (err e) = err cannot_verify

-- The status and the exit code of a failure.
abbrev pub WitnessFailure : Type 0
WitnessFailure = String × ℕ

abbrev pub failure_of : WitnessFault → WitnessFailure
failure_of cannot_verify = ("cannot_verify", 2)
failure_of (detected verdict) = (verdict_status verdict, 1)

abbrev pub signed_head_eq : SignedTreeHead → SignedTreeHead → Bool
signed_head_eq a b =
    nat_eq a.event_count b.event_count && head_eq a.head b.head && bytes_eq a.signature b.signature

-- Whether the latest head is published already.
unfoldable pub state_after : SignedTreeHead → SignedTreeHead → Result WitnessFailure Bool
state_after previous latest =
    if ltb latest.event_count previous.event_count
    then err ("rollback", 1)
    else if nat_eq previous.event_count latest.event_count
    then if signed_head_eq previous latest then ok true else err ("conflict", 1)
    else ok false

unfoldable pub publication_state : List SignedTreeHead → SignedTreeHead → Result WitnessFailure Bool
publication_state published latest = elim (last published) [
  | none ↦ ok false
  | some previous ↦ state_after previous latest
]

abbrev pub action_of : Bool → String
action_of already_published = if already_published then "already_published" else "appended"

-- The published heads with the latest one behind them, unless it is there.
abbrev pub with_latest : Bool → List SignedTreeHead → SignedTreeHead → List SignedTreeHead
with_latest already_published published latest =
    if already_published then published else published ++ latest ∷ []

module _ (c : Codec) (d : Ed25519) where
  -- The loop of `verify_heads`, from the count of the head before.
  unfoldable pub verify_heads_from :
      List FactEvent → Bytes → ℕ → List SignedTreeHead → Result WitnessFault (Unit {0})
  verify_heads_from events verifying previous_count [] = ok tt
  verify_heads_from events verifying previous_count (sth ∷ heads) =
      let rest = verify_heads_from events verifying sth.event_count heads in
      if ltb sth.event_count previous_count
      then err (detected rollback)
      else if ltb (length events) sth.event_count
      then err (detected rollback)
      else head_verdict (verify_signed_head c d (take sth.event_count events) sth verifying) >> rest

  unfoldable pub verify_heads :
      List FactEvent → List SignedTreeHead → Bytes → Result WitnessFault (Unit {0})
  verify_heads events heads verifying = verify_heads_from events verifying 0 heads

  unfoldable pub verify_heads_for_publish :
      List FactEvent → List SignedTreeHead → Bytes → Result WitnessFailure (Unit {0})
  verify_heads_for_publish events heads verifying =
      map_err failure_of (verify_heads events heads verifying)

  -- `publish_outcome` behind the reading of its files: the published heads that it leaves, and its action.
  unfoldable pub publish_latest :
      List FactEvent
      → Bytes
      → List SignedTreeHead
      → List SignedTreeHead
      → SignedTreeHead
      → Result WitnessFailure (List SignedTreeHead × String)
  publish_latest events verifying local_heads published latest = do
    verify_heads_for_publish events local_heads verifying
    already_published ← publication_state published latest
    verify_heads_for_publish events (with_latest already_published published latest) verifying
    ok (
      with_latest already_published published latest,
      if already_published then "already_published" else "appended",
    )

  unfoldable pub publish_outcome :
      List FactEvent
      → Bytes
      → List SignedTreeHead
      → List SignedTreeHead
      → Result WitnessFailure (List SignedTreeHead × String)
  publish_outcome events verifying local_heads published = elim (last local_heads) [
    | none ↦ err ("failed", 1)
    | some latest ↦ publish_latest events verifying local_heads published latest
  ]
