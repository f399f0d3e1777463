-- ===== src/Ops/Supersede.antt =====
-- What `op_supersede` of crates/dent8-cli/src/ops.rs leaves of the facts that it supersedes.
use dent.Prelude.{
  ℕ, String, Bool, false, ◌≡◌, sym, ap, ◌∙◌, Option, List, [], ◌∷◌, arith, Result, ok, map_err,
  ok_injective, bind_inverts, map_err-eq-ok,
}
use dent.Model.{
  FactId, FactEvent, FactEventKind, FactValue, AuthorityLevel, TimestampMillis, new_id, new_subject,
  new_predicate,
}
use dent.Hash.{Codec}
use dent.Memory.{InMemoryEventStore}
use dent.Memory.Safety.{IsHealthy}
use dent.Ops.{OpError}
use dent.Ops.Revise.{build_event, named}
use dent.Prelude.{◌≢◌, length, ◌+◌}
use dent.Model.{Subject, Predicate}
use dent.Receipts.{believed_fact_ids}
use dent.Subject.{has}
use dent.Prelude.{true}
use dent.Registry.{policy_for, coding_agent}
use dent.Ops.Revise.{below_floor, replacement_id, some_incumbents}
use dent.Ops.Superseded.{GivesWay}
use dent.Ops.Gate.{MayYield}
use dent.State.{FactState}

-- What `build_event` has put together.
pub record Built (event_id fact_id : String) (kind : FactEventKind) (value : Option FactValue)
    (e : FactEvent) : Type 0 where
  pub id : e.fact_id ≡ fact_id
  pub acts : e.kind ≡ kind
  pub carries : e.value ≡ value

new_id_same : (kind value : String) (id : String) → new_id kind value ≡ ok id → id ≡ value
unfolding new_id
new_id_same kind value id h = ground arith

pub build_event-Built :
    (event_id fact_id subject_kind subject_key predicate : String) (kind : FactEventKind)
    (value : Option FactValue) (source : String) (authority : AuthorityLevel)
    (now : TimestampMillis) (e : FactEvent)
    → build_event event_id fact_id subject_kind subject_key predicate kind value source authority
        now
      ≡ ok e
    → Built event_id fact_id kind value e
unfolding build_event
build_event-Built event_id fact_id subject_kind subject_key predicate kind value source authority
      now e h =
    let (a, (ha, h1)) = bind_inverts (named "event id" event_id) _ h in
    let (b, (hb, h2)) = bind_inverts (named "fact id" fact_id) _ h1 in
    let (k, (hk, h3)) =
      bind_inverts (map_err (λ _. "subject") (new_subject subject_kind subject_key)) _ h2 in
    let (p, (hp, h4)) = bind_inverts (map_err (λ _. "predicate") (new_predicate predicate)) _ h3 in
    let (o, (ho, h5)) = bind_inverts (named "source" source) _ h4 in
    let same = ok_injective h5 in
    record {
      id =
          sym (ap (λ x. x.fact_id) same)
          ∙ new_id_same "fact id" fact_id b
              (map_err-eq-ok (λ _. "fact id") (new_id "fact id" fact_id) hb);
      acts = sym (ap (λ x. x.kind) same);
      carries = sym (ap (λ x. x.value) same);
    }

abbrev pub subject_of : String → String → Subject
subject_of kind key = record { kind = kind; key = key }

pub new_subject_lem :
    (kind key : String) (subject : Subject)
    → new_subject kind key ≡ ok subject
    → subject ≡ subject_of kind key
unfolding new_subject
new_subject_lem kind key subject h = ground arith

pub new_predicate_lem :
    (text : String) (predicate : Predicate) → new_predicate text ≡ ok predicate → predicate ≡ text
unfolding new_predicate
new_predicate_lem text predicate h = ground arith

-- What was listed was asked for by the texts of the operation.
pub listing :
    (s : InMemoryEventStore) (kind key text : String) (subject : Subject) (predicate : Predicate)
    (fs : List FactId)
    → new_subject kind key ≡ ok subject
    → new_predicate text ≡ ok predicate
    → believed_fact_ids s subject predicate ≡ ok fs
    → believed_fact_ids s (subject_of kind key) text ≡ ok fs
listing s kind key text subject predicate fs a b h =
    ap (λ x. believed_fact_ids s x text) (sym (new_subject_lem kind key subject a))
    ∙ (ap (believed_fact_ids s subject) (sym (new_predicate_lem text predicate b)) ∙ h)

-- A supersession that went through, for one of the facts that stood: the fact has given way to the fact that is named
-- after the number reserved, the authority is not below the floor of the predicate, the gate lets the fact yield, and the
-- store is healthy.
pub record Superseding (c : Codec) (subject_kind subject_key predicate : String)
    (authority : AuthorityLevel) (gate : Bool) (reserve : ℕ → Result OpError ℕ) (f : FactId)
    (state : FactState) (t : InMemoryEventStore) : Type 0 where
  pub incumbents : List FactId
  pub seq : ℕ
  pub listed : has f incumbents ≡ true
  pub at_floor :
      below_floor
        (policy_for coding_agent (subject_of subject_kind subject_key) predicate)
        authority
      ≡ false
  pub may_yield : MayYield gate authority state
  pub reserved : reserve (1 + length incumbents) ≡ ok seq
  pub gives_way : GivesWay (replacement_id subject_kind subject_key predicate seq) f t
  pub healthy : IsHealthy c t

pub some_incumbents_lem : (fs gs : List FactId) → some_incumbents fs ≡ ok gs → (fs ≡ gs) × (gs ≢ [])
some_incumbents_lem [] gs h = absurd cc
some_incumbents_lem (f ∷ fs) gs h = (ok_injective h, λ e. cc)
