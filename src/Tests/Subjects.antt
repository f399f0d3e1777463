-- ===== src/Tests/Subjects.antt =====
-- A subject whose facts supersede each other in a ring.
use dent.Prelude.{◌≡◌, ◌↔◌, true, some, [], ◌∷◌}
use dent.Prelude.Maps.{Map, string_key, contains}
use dent.Model.{FactId, high, text}
use dent.State.{FactState, FactLifecycle, initial_state}
use dent.Subject.{supersession_cycle_members}
use dent.Subject.Chains.{Leads}
use dent.Subject.Members.{supersession_cycle_members_lem}
use dent.Tests.Fixtures.{assertion}

-- A fact that names its replacement.
abbrev replaced : FactId → FactId → FactState
unfolding initial_state
replaced id by = record (initial_state (assertion "e1" id "source:owner" high) (text "postgres")) {
  lifecycle = FactLifecycle.superseded;
  superseded_by = some by;
}

abbrev ring : Map FactId FactState
unfolding replaced
ring =
    ("fact:A", replaced "fact:A" "fact:B")
    ∷ ("fact:B", replaced "fact:B" "fact:A")
    ∷ ("fact:C", replaced "fact:C" "fact:A")
    ∷ []

supersession_cycle_members_lem_example :
    (contains "fact:B" (supersession_cycle_members ring) ≡ true) ↔ Leads ring "fact:B" "fact:B"
supersession_cycle_members_lem_example = supersession_cycle_members_lem ring "fact:B"
