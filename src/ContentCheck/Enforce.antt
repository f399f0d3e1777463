-- ===== src/ContentCheck/Enforce.antt =====
-- What `enforce` of crates/dent8-core/src/content_check.rs lets through, and what it refuses.
use dent.Prelude.{
  All, subst, sym, ◌>>=◌, String, ◌≡◌, ◌≢◌, refl, ◌⊎◌, inl, inr, Option, none, some, List, [], ◌∷◌,
  arith, Result, ok, err, Option-cases,
}
use dent.Model.{FactEvent}
use dent.ContentCheck.{
  ContentCheckConfig, FailurePolicy, fail_closed, fail_open, Verdict, allow, reject, taint,
  ScanError, ContentCheckRefusal, scanner_unavailable, refusal_of, ContentFlag, content_flag,
  flagged, WireVerdict, scan_event, on_failure, settle, enforce_event, enforce,
}
use dent.ContentCheck.Flags.{content_flag-flagged}

-- An event as it was, with nothing to scan or with the scanner's word for it, or an event with a flag on it.
pub data Admitted (config : ContentCheckConfig) (scanned : Result ScanError Verdict)
    (before after : FactEvent) : Type 0 where
  empty : before.value ≡ none → after ≡ before → Admitted config scanned before after
  allowed :
      before.value ≢ none
      → scanned ≡ ok allow
      → after ≡ before
      → Admitted config scanned before after
  tainted :
      (reason : Option String) (text : String) (flag : ContentFlag)
      → before.value ≢ none
      → scanned ≡ ok (taint reason)
      → after ≡ flagged config before text
      → content_flag after ≡ some flag
      → Admitted config scanned before after
  unscanned :
      (error : ScanError) (text : String) (flag : ContentFlag)
      → before.value ≢ none
      → scanned ≡ err error
      → config.failure_policy ≡ fail_open
      → after ≡ flagged config before text
      → content_flag after ≡ some flag
      → Admitted config scanned before after

-- The scanner's rejection of an event with a value, or its failure where the policy is to refuse then.
pub data Refused (config : ContentCheckConfig) (scanned : Result ScanError Verdict)
    (event : FactEvent) (refusal : ContentCheckRefusal) : Type 0 where
  rejects :
      (reason : Option String)
      → event.value ≢ none
      → scanned ≡ ok (reject reason)
      → refusal ≡ refusal_of event reason
      → Refused config scanned event refusal
  fails :
      (error : ScanError)
      → event.value ≢ none
      → scanned ≡ err error
      → config.failure_policy ≡ fail_closed
      → refusal ≡ scanner_unavailable error
      → Refused config scanned event refusal

module _ (run_scanner : ContentCheckConfig → FactEvent → Result ScanError String)
    (from_str : String → Result String WireVerdict) (config : ContentCheckConfig) where
  abbrev pub scan : FactEvent → Result ScanError Verdict
  scan event = scan_event run_scanner from_str config event

  abbrev pub EventOutcome : FactEvent → Result ContentCheckRefusal FactEvent → Type 0
  EventOutcome event (ok after) = Admitted config (scan event) event after
  EventOutcome event (err refusal) = Refused config (scan event) event refusal

  failure_outcome :
      (event : FactEvent) (error : ScanError) (policy : FailurePolicy)
      → event.value ≢ none
      → scan event ≡ err error
      → config.failure_policy ≡ policy
      → EventOutcome event (on_failure run_scanner from_str policy config event error)
  unfolding on_failure
  failure_outcome event error fail_closed v s p = fails error v s p refl
  failure_outcome event error fail_open v s p =
      let (flag, found) = content_flag-flagged config event _ in
      unscanned error _ flag v s p refl found

  settle_outcome :
      (event : FactEvent) (scanned : Result ScanError Verdict)
      → event.value ≢ none
      → scan event ≡ scanned
      → EventOutcome event (settle run_scanner from_str config event scanned)
  unfolding settle
  settle_outcome event (ok allow) v s = allowed v s refl
  settle_outcome event (ok (reject reason)) v s = rejects reason v s refl
  settle_outcome event (ok (taint reason)) v s =
      let (flag, found) = content_flag-flagged config event _ in
      tainted reason _ flag v s refl found
  settle_outcome event (err error) v s = failure_outcome event error config.failure_policy v s refl

  event_outcome :
      (event : FactEvent) → EventOutcome event (enforce_event run_scanner from_str config event)
  unfolding enforce_event
  event_outcome event = elim (Option-cases event.value) [
    | inl nothing ↦
        let same : enforce_event run_scanner from_str config event ≡ ok event = ground arith in
        subst (EventOutcome event) (sym same) (empty nothing refl)
    | inr (value, there) ↦
        let settled : enforce_event run_scanner from_str config event
            ≡ settle run_scanner from_str config event (scan event) =
          ground arith in
        subst (EventOutcome event) (sym settled)
          (settle_outcome event (scan event) (λ nothing. ground arith) refl)
  ]

  -- Two lists of events, each beside what it became.
  abbrev pub AllAdmitted : List FactEvent → List FactEvent → Type 0
  AllAdmitted [] [] = Unit
  AllAdmitted (before ∷ events) (after ∷ checked) =
      Admitted config (scan before) before after × AllAdmitted events checked
  AllAdmitted _ _ = ⊥

  -- A first event that is refused, behind events that are not.
  abbrev pub FirstRefused : ContentCheckRefusal → List FactEvent → Type 0
  FirstRefused refusal [] = ⊥
  FirstRefused refusal (event ∷ events) =
      Refused config (scan event) event refusal
      ⊎ (((after : FactEvent) × Admitted config (scan event) event after)
          × FirstRefused refusal events)

  abbrev pub Outcome : List FactEvent → Result ContentCheckRefusal (List FactEvent) → Type 0
  Outcome events (ok checked) = AllAdmitted events checked
  Outcome events (err refusal) = FirstRefused refusal events

  further :
      (event : FactEvent) (events : List FactEvent) (first : Result ContentCheckRefusal FactEvent)
      (rest : Result ContentCheckRefusal (List FactEvent))
      → EventOutcome event first
      → Outcome events rest
      → Outcome (event ∷ events) (first >>= λ checked. rest >>= λ others. ok (checked ∷ others))
  further event events (ok after) (ok others) h k = (h, k)
  further event events (ok after) (err refusal) h k = inr ((after, h), k)
  further event events (err refusal) rest h k = inl h

  -- A batch that the check lets through has each event as it was, with nothing to scan or with the scanner's word for
  -- it, or with a flag that is found on it: where the scanner taints it, and where the scanner fails and the policy is
  -- to admit. A batch that it refuses has a first event with a value that the scanner rejects, or on which it fails and
  -- the policy is to refuse.
  pub enforce-Outcome :
      (events : List FactEvent) → Outcome events (enforce run_scanner from_str config events)
  unfolding enforce
  enforce-Outcome [] = tt
  enforce-Outcome (event ∷ events) =
      further event events (enforce_event run_scanner from_str config event)
        (enforce run_scanner from_str config events) (event_outcome event) (enforce-Outcome events)

  -- A batch with nothing to scan is let through as it is.
  pub enforce_empty :
      (events : List FactEvent)
      → All (λ e. e.value ≡ none) events
      → enforce run_scanner from_str config events ≡ ok events
  unfolding enforce enforce_event
  enforce_empty [] h = refl
  enforce_empty (event ∷ events) h = ground (arith, h.0, enforce_empty events h.1)
