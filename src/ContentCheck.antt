-- ===== src/ContentCheck.antt =====
-- crates/dent8-core/src/content_check.rs: the scan of new content by a program of the operator's, and the flag on what
-- is admitted all the same. What the program answers and how JSON is read are arguments.
pub mod Flags
pub mod Enforce
use Prim.Native.Char.{Char, code}
use Prim.Native.String.{◌++◌ as concat, count}
use dent.Prelude.{
  ℕ, zero, suc, String, Bool, ◌==◌, leb, nat_eq, Option, none, some, List, [], ◌∷◌, ◌++◌,
  if◌then◌else◌, unwrap_or, Result, ok, err, map_err, ◌>>=◌,
}
use dent.Prelude.Decimal.{to_decimal}
use dent.Model.{FactEvent, Evidence, tool_output, is_white_space, is_blank, Predicate}

abbrev pub content_flag_locator_prefix : String
content_flag_locator_prefix = "content-check:"

abbrev pub max_reason_len : ℕ
max_reason_len = 256

pub data FailurePolicy : Type 0 where
  fail_closed fail_open : FailurePolicy

-- The program and its arguments, and the budget in milliseconds.
pub record ContentCheckConfig : Type 0 where
  pub program : String
  pub arguments : List String
  pub timeout : ℕ
  pub failure_policy : FailurePolicy

unfoldable pub new_config : List String → Result String ContentCheckConfig
new_config [] = err "content check command cannot be empty"
new_config (program ∷ arguments) =
    if is_blank program
    then err "content check command cannot be empty"
    else ok (record {
      program = program;
      arguments = arguments;
      timeout = 5000;
      failure_policy = fail_closed;
    })

abbrev pub scanner_name : ContentCheckConfig → String
scanner_name config = config.program

pub data Verdict : Type 0 where
  allow : Verdict
  reject : Option String → Verdict
  taint : Option String → Verdict

pub data ScanError : Type 0 where
  spawn : String → ScanError
  io : String → ScanError
  timed_out : ℕ → ScanError
  non_zero_exit : String → ScanError
  malformed_verdict : String → ScanError

unfoldable pub scan_error_text : ScanError → String
scan_error_text (spawn error) = concat "could not spawn the scanner: " error
scan_error_text (io error) = concat "scanner I/O failed: " error
scan_error_text (timed_out timeout) =
    concat "the scanner did not answer within " (concat (to_decimal timeout) " ms and was killed")
scan_error_text (non_zero_exit detail) = concat "the scanner exited non-zero (" (concat detail ")")
scan_error_text (malformed_verdict detail) =
    concat "the scanner returned a malformed verdict: " detail

pub data ContentCheckRefusal : Type 0 where
  -- the subject, the predicate, the reason
  rejected : String → Predicate → Option String → ContentCheckRefusal
  scanner_unavailable : ScanError → ContentCheckRefusal

pub record ContentFlag : Type 0 where
  pub scanner : String
  pub reason : String

-- `str::strip_prefix`
unfoldable pub strip_prefix : String → String → Option String
strip_prefix String.[] text = some text
strip_prefix (String.◌∷◌ c prefix) String.[] = none
strip_prefix (String.◌∷◌ c prefix) (String.◌∷◌ d text) =
    let rest = strip_prefix prefix text in if nat_eq (code c) (code d) then rest else none

abbrev pub flag_of : Evidence → Option ContentFlag
flag_of item = elim (strip_prefix content_flag_locator_prefix item.locator) [
  | none ↦ none
  | some scanner ↦ some (record { scanner = scanner; reason = unwrap_or item.summary "" })
]

-- `Iterator::find_map`
unfoldable pub first_flag : List Evidence → Option ContentFlag
first_flag [] = none
first_flag (item ∷ items) =
    let rest = first_flag items in elim (flag_of item) [ none ↦ rest | some flag ↦ some flag ]

unfoldable pub content_flag : FactEvent → Option ContentFlag
content_flag event = first_flag event.evidence

-- `.chars().take(max)`
unfoldable pub take_chars : ℕ → String → String
take_chars zero text = String.[]
take_chars (suc n) String.[] = String.[]
take_chars (suc n) (String.◌∷◌ c text) = String.◌∷◌ c (take_chars n text)

unfoldable pub truncate_chars : String → ℕ → String
truncate_chars text max = if leb (count text) max then text else concat (take_chars max text) "…"

unfoldable pub trim_start : String → String
trim_start String.[] = String.[]
trim_start (String.◌∷◌ c text) =
    let rest = trim_start text in if is_white_space (code c) then rest else String.◌∷◌ c text

unfoldable pub trim_end : String → String
trim_end String.[] = String.[]
trim_end (String.◌∷◌ c text) =
    if is_blank (String.◌∷◌ c text) then String.[] else String.◌∷◌ c (trim_end text)

abbrev pub trim : String → String
trim text = trim_end (trim_start text)

pub record WireVerdict : Type 0 where
  pub verdict : String
  pub reason : Option String

abbrev pub short_reason : Option String → Option String
short_reason none = none
short_reason (some reason) = some (truncate_chars reason max_reason_len)

-- With quotes for the escapes of `{:?}`.
abbrev pub unknown_verdict : String → ScanError
unknown_verdict other =
    malformed_verdict (concat "unknown verdict \"" (concat other "\" (allow|reject|taint)"))

unfoldable pub verdict_of : WireVerdict → Result ScanError Verdict
verdict_of wire =
    if wire.verdict == "allow"
    then ok allow
    else if wire.verdict == "reject"
    then ok (reject (short_reason wire.reason))
    else if wire.verdict == "taint"
    then ok (taint (short_reason wire.reason))
    else err (unknown_verdict wire.verdict)

abbrev pub flag_evidence : FactEvent → String → String → Evidence
flag_evidence event scanner reason = record {
  id = concat "evidence:content-check:" event.event_id;
  kind = tool_output;
  locator = concat content_flag_locator_prefix scanner;
  digest = none;
  summary = some reason;
}

abbrev pub flagged : ContentCheckConfig → FactEvent → String → FactEvent
flagged config event reason = record event {
  evidence = event.evidence ++ flag_evidence event (scanner_name config) reason ∷ [];
}

abbrev pub refusal_of : FactEvent → Option String → ContentCheckRefusal
refusal_of event reason =
    rejected (concat event.subject.kind (concat ":" event.subject.key)) event.predicate reason

-- `run_scanner` on the event's payload answers with the program's output, and `from_str` reads a verdict from a text.
module _ (run_scanner : ContentCheckConfig → FactEvent → Result ScanError String)
    (from_str : String → Result String WireVerdict) where
  unfoldable pub parse_verdict : String → Result ScanError Verdict
  parse_verdict stdout = do
    wire ←
        map_err
          (λ error.
            malformed_verdict
              (concat error (concat " (stdout: " (concat (truncate_chars (trim stdout) 120) ")"))))
          (from_str (trim stdout))
    verdict_of wire

  unfoldable pub scan_event : ContentCheckConfig → FactEvent → Result ScanError Verdict
  scan_event config event = do stdout ← run_scanner config event; parse_verdict stdout

  -- A failure of the scanner, by the policy.
  unfoldable pub on_failure :
      FailurePolicy
      → ContentCheckConfig
      → FactEvent
      → ScanError
      → Result ContentCheckRefusal FactEvent
  on_failure fail_closed config event error = err (scanner_unavailable error)
  on_failure fail_open config event error = ok (
      flagged config event (
        truncate_chars (concat "content check unavailable (fail-open): " (scan_error_text error))
          max_reason_len))

  unfoldable pub settle :
      ContentCheckConfig
      → FactEvent
      → Result ScanError Verdict
      → Result ContentCheckRefusal FactEvent
  settle config event (ok allow) = ok event
  settle config event (ok (reject reason)) = err (refusal_of event reason)
  settle config event (ok (taint reason)) =
      ok (flagged config event (unwrap_or reason "flagged by the content check"))
  settle config event (err error) = on_failure config.failure_policy config event error

  unfoldable pub enforce_event :
      ContentCheckConfig → FactEvent → Result ContentCheckRefusal FactEvent
  enforce_event config event = elim event.value [
    | none ↦ ok event
    | some value ↦ settle config event (scan_event config event)
  ]

  -- The events as they are to be written, or the first refusal.
  unfoldable pub enforce :
      ContentCheckConfig → List FactEvent → Result ContentCheckRefusal (List FactEvent)
  enforce config [] = ok []
  enforce config (event ∷ events) = do
    checked ← enforce_event config event
    rest ← enforce config events
    ok (checked ∷ rest)
