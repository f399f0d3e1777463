-- ===== src/Tests/Contents.antt =====
-- A scanner of content that taints what it does not know.
use dent.Prelude.{◌≡◌, refl, String, none, some, List, [], ◌∷◌, Result, ok, ◌==◌, if◌then◌else◌}
use dent.Model.{FactEvent, retracted, user_deleted, high, low, is_white_space, is_blank}
use dent.ContentCheck.{
  ContentCheckConfig, fail_closed, ScanError, WireVerdict, enforce, enforce_event, settle,
  scan_event, parse_verdict, verdict_of, trim_start, trim_end, truncate_chars, flagged,
}
use dent.ContentCheck.Enforce.{Outcome, enforce-Outcome}
use dent.Tests.Fixtures.{event, assertion}

abbrev scanner : ContentCheckConfig
scanner = record { program = "scan"; arguments = []; timeout = 5000; failure_policy = fail_closed }

abbrev run : ContentCheckConfig → FactEvent → Result ScanError String
run config e = ok (if e.event_id == "e1" then " taint " else "allow")

abbrev read : String → Result String WireVerdict
read text = ok (record { verdict = text; reason = some "looks odd" })

abbrev batch : List FactEvent
batch =
    assertion "e1" "fact:A" "source:owner" high
    ∷ assertion "e2" "fact:B" "source:web" low
    ∷ event "e3" "fact:C" (retracted user_deleted) none "source:web" low
    ∷ []

enforced :
    enforce run read scanner batch
    ≡ ok (
        flagged scanner (assertion "e1" "fact:A" "source:owner" high) "looks odd"
        ∷ assertion "e2" "fact:B" "source:web" low
        ∷ event "e3" "fact:C" (retracted user_deleted) none "source:web" low
        ∷ [])
unfolding enforce enforce_event settle scan_event parse_verdict verdict_of trim_start trim_end
    truncate_chars is_white_space is_blank
enforced = refl

enforce-Outcome_example : Outcome run read scanner batch (enforce run read scanner batch)
enforce-Outcome_example = enforce-Outcome run read scanner batch
