-- ===== src/Ops/Close.antt =====
-- What `op_retract` and `op_expire` of crates/dent8-cli/src/ops.rs leave of the facts that they close.
use dent.Prelude.{
  ℕ, suc, String, true, ◌≡◌, refl, ap, ◌∙◌, subst, Option, none, some, List, [], ◌∷◌, length, arith,
  Result, ok, ok_injective, bind_inverts, map_err, map_err-eq-ok,
}
use dent.Model.{
  FactId, FactEvent, FactEventKind, expired, retracted, user_deleted, AuthorityLevel,
  TimestampMillis, new_subject, new_predicate,
}
use dent.State.{FactState, FactLifecycle, is_terminal, apply_event, apply_kind}
use dent.State.Inversion.{apply_Steps, opening_asserts}
use dent.Hash.{Codec}
use dent.Memory.{InMemoryEventStore}
use dent.Memory.Safety.{IsHealthy}
use dent.Receipts.{believed_fact_ids}
use dent.Receipts.Believed.{IsBelieved, believed_fact_ids-IsBelieved, has_all}
use dent.Subject.{has}
use dent.Ops.{OpError}
use dent.Ops.Revise.{build_event, event_name, append_all, some_incumbents}
use dent.Ops.Ended.{Ended, AllEnd, all_end, append_all-IsHealthy}
use dent.Ops.Supersede.{build_event-Built, some_incumbents_lem, subject_of, listing}
use dent.Ops.Incumbents.{build_each, write_each, retract, build_per_incumbent}

-- The lifecycle in which a retraction or an expiration puts a fact.
abbrev pub closing : FactEventKind → Option FactLifecycle
closing (retracted reason) = some FactLifecycle.retracted
closing (expired reason) = some FactLifecycle.expired
closing kind = none

abbrev pub HasLifecycle : FactLifecycle → FactState → Type 0
HasLifecycle l x = x.lifecycle ≡ l

kind_closes :
    (s t : FactState) (e : FactEvent) (k : FactEventKind) (l : FactLifecycle)
    → closing k ≡ some l
    → apply_kind s e k ≡ ok t
    → (is_terminal t.lifecycle ≡ true) × HasLifecycle l t
unfolding apply_kind
kind_closes s t e (retracted reason) l i h = ground arith
kind_closes s t e (expired reason) l i h = ground arith
kind_closes s t e k l i h = cc

step_closes :
    (e : FactEvent) (l : FactLifecycle)
    → closing e.kind ≡ some l
    → (o : Option FactState) (u : FactState) → apply_event o e ≡ ok u
    → (is_terminal u.lifecycle ≡ true) × HasLifecycle l u
step_closes e l k none u h = absurd (ground (arith, opening_asserts e h))
step_closes e l k (some s) u h =
    let p = apply_Steps s e h in
    let (ended, is) = kind_closes s p.next e e.kind l k p.by_kind in
    (ap (λ x. is_terminal x.lifecycle) p.stamped ∙ ended, ap (λ x. x.lifecycle) p.stamped ∙ is)

-- A closure that went through, for one of the facts that stood: the fact has the lifecycle, and the store is healthy.
pub record Closing (c : Codec) (l : FactLifecycle) (reserve : ℕ → Result OpError ℕ) (f : FactId)
    (t : InMemoryEventStore) : Type 0 where
  pub incumbents : List FactId
  pub seq : ℕ
  pub listed : has f incumbents ≡ true
  pub reserved : reserve (length incumbents) ≡ ok seq
  pub closed : Ended (HasLifecycle l) f t
  pub healthy : IsHealthy c t

module _ (c : Codec) (l : FactLifecycle) (reserve : ℕ → Result OpError ℕ) (s t : InMemoryEventStore)
    (kind key predicate source : String) (authority : AuthorityLevel) (now : TimestampMillis)
    (events : List FactEvent) where
  build_each-AllEnd :
      (kind_for : FactId → FactEventKind) (seq : ℕ) (fs : List FactId) (es : List FactEvent)
      → ((f : FactId) → closing (kind_for f) ≡ some l)
      → build_each kind key predicate source authority now kind_for seq fs ≡ ok es
      → AllEnd (HasLifecycle l) fs es
  unfolding build_each
  build_each-AllEnd kind_for seq [] es k h = subst (AllEnd (HasLifecycle l) []) (ok_injective h) tt
  build_each-AllEnd kind_for seq (f ∷ fs) es k h =
      let (e, (he, h1)) =
        bind_inverts
          (build_event (event_name seq) f kind key predicate (kind_for f) none source authority now)
          _ h in
      let (rest, (hr, h2)) =
        bind_inverts (build_each kind key predicate source authority now kind_for (suc seq) fs) _
          h1 in
      let built =
        build_event-Built (event_name seq) f kind key predicate (kind_for f) none source authority
          now e he in
      subst (AllEnd (HasLifecycle l) (f ∷ fs)) (ok_injective h2) (
        record { about = built.id; step = step_closes e l (ap closing built.acts ∙ k f) },
        build_each-AllEnd kind_for (suc seq) fs rest k hr,
      )

  pub build_per_incumbent-Closing :
      (kind_for : FactId → FactEventKind) (f : FactId)
      → ((g : FactId) → closing (kind_for g) ≡ some l)
      → IsHealthy c s
      → IsBelieved (subject_of kind key) predicate s f
      → build_per_incumbent c reserve s kind key predicate authority source now kind_for
        ≡ ok (t, events)
      → Closing c l reserve f t
  unfolding build_per_incumbent write_each
  build_per_incumbent-Closing kind_for f k v stood h =
      let (subject, (hs, h1)) = bind_inverts (map_err _ (new_subject kind key)) _ h in
      let (relation, (hp, h2)) = bind_inverts (map_err _ (new_predicate predicate)) _ h1 in
      let (believed, (hb, h3)) =
        bind_inverts (map_err _ (believed_fact_ids s subject relation)) _ h2 in
      let (fs, (hf, h4)) = bind_inverts (some_incumbents believed) _ h3 in
      let (seq, (hr, h5)) = bind_inverts (reserve (length fs)) _ h4 in
      let (es, (he, h6)) =
        bind_inverts
          (map_err _ (build_each kind key predicate source authority now kind_for seq fs)) _ h5 in
      let (w, (hw, h7)) = bind_inverts (append_all c s es) _ h6 in
      let run = hw ∙ ap ok (ap (λ x. x.0) (ok_injective h7)) in
      let same = (some_incumbents_lem believed fs hf).0 in
      let asked =
        listing s kind key predicate subject relation fs (map_err-eq-ok _ (new_subject kind key) hs)
          (map_err-eq-ok _ (new_predicate predicate) hp)
          (map_err-eq-ok _ (believed_fact_ids s subject relation) hb ∙ ap ok same) in
      let listed =
        believed_fact_ids-IsBelieved (subject_of kind key) predicate s f fs stood asked in
      let all =
        build_each-AllEnd kind_for seq fs es k (
          map_err-eq-ok _ (build_each kind key predicate source authority now kind_for seq fs)
            he) in
      record {
        incumbents = fs;
        seq = seq;
        listed = listed;
        reserved = hr;
        closed =
            has_all _ f fs listed (all_end c (HasLifecycle l) (λ x at id p. p) s t fs es v all run);
        healthy = append_all-IsHealthy c s t es v run;
      }

-- What a retraction that goes through leaves of a fact that stood.
pub retract-Closing :
    (c : Codec) (reserve : ℕ → Result OpError ℕ) (s t : InMemoryEventStore)
    (kind key predicate source : String) (authority : AuthorityLevel) (now : TimestampMillis)
    (events : List FactEvent) (f : FactId)
    → IsHealthy c s
    → IsBelieved (subject_of kind key) predicate s f
    → retract c reserve s kind key predicate authority source now ≡ ok (t, events)
    → Closing c FactLifecycle.retracted reserve f t
unfolding retract build_per_incumbent
retract-Closing c reserve s t kind key predicate source authority now events f v stood h =
    build_per_incumbent-Closing c FactLifecycle.retracted reserve s t kind key predicate source
      authority now events (λ _. retracted user_deleted) f (λ g. refl) v stood h
