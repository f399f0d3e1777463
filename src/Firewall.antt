-- ===== src/Firewall.antt =====
-- crates/dent8-store/src/firewall.rs: whether a candidate event may be written.
pub mod Backing
use dent.Prelude.{Option, none, some, List, if◌then◌else◌, Result, ok, err, map_err, ◌>>=◌, ◌>>◌}
use dent.Model.{FactEvent, FactEventKind, superseded, AuthorityLevel, level_lt}
use dent.State.{FactState, apply_event}
use dent.Replay.{replay_fact}
use dent.Store.{Fault, fails, panics, rejected, laundered_authority, unbacked_supersession, replay}

abbrev pub replayed : List FactEvent → Result Fault (Option FactState)
replayed events = map_err (λ e. fails (replay e)) (replay_fact events)

abbrev pub authority_of : Option FactState → Option AuthorityLevel
authority_of none = none
authority_of (some state) = some state.authority.level

unfoldable pub replacing_state : Option (List FactEvent) → Result Fault (Option FactState)
replacing_state none = ok none
replacing_state (some events) = replayed events

-- The check on a supersession: the fact that it names is there, and is not weaker than the incumbent.
unfoldable pub check_backing :
    FactEventKind → Option AuthorityLevel → Option (List FactEvent) → Result Fault (Unit {0})
check_backing (superseded by reason) none replacing = err (panics "a supersession has an incumbent")
check_backing (superseded by reason) (some incumbent) replacing = do
  target ← replacing_state replacing
  elim target [
    | none ↦ err (fails (unbacked_supersession by))
    | some state ↦
        if level_lt state.authority.level incumbent
        then err (fails (laundered_authority incumbent state.authority.level))
        else ok tt
  ]
check_backing kind incumbent replacing = ok tt

unfoldable pub arbitrate_events :
    FactEvent → List FactEvent → Option (List FactEvent) → Result Fault (Unit {0})
arbitrate_events candidate existing replacing = do
  current ← replayed existing
  map_err (λ e. fails (rejected e)) (apply_event current candidate)
  check_backing candidate.kind (authority_of current) replacing
