-- ===== src/Tests/Diffs.antt =====
-- A fact and the fact after its supersession, compared.
use dent.Prelude.{◌≡◌, ◌↔◌, some}
use dent.Model.{high, text}
use dent.State.{FactState, FactLifecycle, initial_state}
use dent.Replay.Diff.{diff_states, unchanged, Agrees, diff_states_iff}
use dent.Tests.Fixtures.{assertion}

abbrev before : FactState
unfolding initial_state
before = initial_state (assertion "e1" "fact:A" "source:owner" high) (text "postgres")

abbrev after : FactState
unfolding before
after = record before { lifecycle = FactLifecycle.superseded; superseded_by = some "fact:B" }

diff_states_iff_example : (diff_states (some before) (some after) ≡ unchanged) ↔ Agrees before after
diff_states_iff_example = diff_states_iff before after
