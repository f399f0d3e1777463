-- ===== src/Tests/Operations.antt =====
-- The operations, over the stores of these tests.
use dent.Prelude.{ℕ, zero, suc, ◌<◌, String, ◌≡◌, refl, none, some, [], ◌∷◌, arith, Result, ok, err}
use dent.Model.{FactEvent, low, high, superseded, user_correction, validate}
use dent.Store.{fails, rejected}
use dent.State.{
  insufficient_authority, apply_event, apply_valid_event, apply_initial_event, initial_by_kind,
  initial_state, apply_next_event, apply_kind,
}
use dent.Prelude.Maps.{contains}
use dent.Policy.{admits}
use dent.Replay.{replay_fact, fold_from}
use dent.Firewall.{arbitrate_events}
use dent.Ops.{
  classify_kind, lost_supersession, OpError, contended, with_write_retry, Challenge,
  classify_challenge,
}
use dent.Ops.Retry.{with_write_retry_settles, settled}
use dent.Ops.Challenges.{classify_challenge-Lost, Lost}
use dent.Ops.Revise.{Validity}
use dent.ContentCheck.{ContentCheckConfig, ScanError, WireVerdict}
use dent.Tests.Fixtures.{event}
use dent.Tests.Stores.{owned}

-- The first attempt runs into another writer.
abbrev free : ℕ → Result String (Unit {0})
free n = ok tt

abbrev second_time : ℕ → Result OpError String
second_time zero = err (contended "busy")
second_time (suc n) = ok "written"

before_second : (m : ℕ) → m < 1 → settled free second_time m ≡ none
before_second zero h = refl
before_second (suc m) h = absurd (omega arith)

with_write_retry_settles_example : with_write_retry free second_time ≡ ok "written"
with_write_retry_settles_example =
    with_write_retry_settles free second_time 1 (ok "written") (omega arith) refl before_second

abbrev attack : FactEvent
attack = event "e2" "fact:A" (superseded "fact:B" user_correction) none "source:web" low

lost :
    arbitrate_events attack (owned ∷ []) none
    ≡ err (fails (rejected (insufficient_authority high low)))
unfolding arbitrate_events replay_fact fold_from admits apply_event apply_valid_event
    apply_initial_event initial_by_kind initial_state apply_next_event apply_kind validate contains
lost = refl

recorded :
    (x : Challenge) × (classify_challenge attack (rejected (insufficient_authority high low))
      ≡ some x)
unfolding classify_challenge classify_kind lost_supersession
recorded = (_, refl)

classify_challenge-Lost_example : Lost attack (owned ∷ []) recorded.0
classify_challenge-Lost_example =
    classify_challenge-Lost attack (owned ∷ []) none (rejected (insufficient_authority high low))
      recorded.0 lost recorded.1

abbrev from_seven : ℕ → Result OpError ℕ
from_seven count = ok 7

abbrev silent : ContentCheckConfig → FactEvent → Result ScanError String
silent config e = ok ""

abbrev unread : String → Result String WireVerdict
unread output = err "not a verdict"

abbrev always : Validity
always = record { from = none; to = none; ttl = none }
