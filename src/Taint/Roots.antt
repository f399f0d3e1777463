-- ===== src/Taint/Roots.antt =====
-- What the search of `tainted_facts` of crates/dent8-store/src/lib.rs answers, and the report that is made of it.
use mathlib.Core.List.{Mem, mem-cons_self, mem-cons_of_mem, mem-append_left}
use dent.Prelude.{
  ◌≡◌, refl, ap, All, All-append, All-weaken, any-append, ◌==◌, eq_refl, ◌∙◌, sym, Bool, true,
  false, none, some, List, [], ◌∷◌, ◌++◌, arith, ok, any, inl, inr, Bool-cases, Option-cases,
}
use dent.Prelude.Maps.{string_key, get, contains}
use dent.Model.{FactId, FactEvent}
use dent.State.{FactLifecycle, is_terminal}
use dent.Subject.{group, has}
use dent.Taint.{
  Deps, edges, extend, enough_fuel, an_invalidated_root, Derives, Lifecycles, is_invalid,
  is_invalidated, TaintedFact, taint_of, report, survey, tainted_facts,
}
use dent.Taint.Search.{
  search_root-Derives, search_root-IsClosed, Derives-inside, an_invalidated_root-ends, has-extend,
}

module _ (deps : Deps) (invalidated : FactId → Bool) where
  on_stack : (fact v : FactId) → has v (extend (edges deps fact) []) ≡ has v (edges deps fact)
  on_stack fact v = ground (arith, has-extend v (edges deps fact) [])

  -- The search from a fact finds an invalidated fact that it derives from, over any number of edges and through any
  -- cycle, and finds none only where there is none.
  pub an_invalidated_root_lem :
      (fact : FactId)
      → ((root : FactId)
          → an_invalidated_root deps invalidated fact ≡ some root
          → Derives deps fact root × (invalidated root ≡ true))
        × (an_invalidated_root deps invalidated fact ≡ none
            → (v : FactId) → Derives deps fact v
            → invalidated v ≡ false)
  unfolding contains get
  an_invalidated_root_lem fact =
      let (r, ended, is_answer) = an_invalidated_root-ends deps invalidated fact in
      (
        λ root h.
            search_root-Derives deps invalidated fact (enough_fuel deps fact) [] _ root
              (ended ∙ ap some (sym is_answer ∙ h))
              (λ v m. Derives.direct (sym (on_stack fact v) ∙ m)),
        λ h v derived.
            let (final, closed, all) =
              search_root-IsClosed deps invalidated (enough_fuel deps fact) [] _
                (ended ∙ ap some (sym is_answer ∙ h)) (λ u a. absurd (ground arith))
                (λ u w a b. absurd (ground arith)) in
            closed.valid v (
              Derives-inside deps invalidated final fact v closed
                (λ w e. all w (ground (arith, on_stack fact w))) derived),
      )

-- A fact of the report: it has not ended, and it derives from a fact that was retracted or has expired.
-- The facts are those that the report goes through.
pub record IsTainted (lifecycle : Lifecycles) (deps : Deps) (facts : Lifecycles) (t : TaintedFact)
    : Type 0 where
  pub life : FactLifecycle
  pub listed : Mem (t.fact, life) facts
  pub going : is_terminal life ≡ false
  pub derives : Derives deps t.fact t.root
  pub root_state : get t.root lifecycle ≡ some t.root_lifecycle
  pub root_invalid : is_invalid t.root_lifecycle ≡ true

module _ (lifecycle : Lifecycles) (deps : Deps) where
  -- What one fact adds: nothing if it has ended or derives from no invalidated fact, and a tainted fact if not.
  taint_of_lem :
      (fact : FactId) (life : FactLifecycle)
      → (ts : List TaintedFact) × (taint_of lifecycle deps fact life ≡ ok ts)
        × All (IsTainted lifecycle deps ((fact, life) ∷ [])) ts
        × (is_terminal life ≡ true → ts ≡ [])
        × ((v : FactId)
            → is_terminal life ≡ false
            → Derives deps fact v
            → is_invalidated lifecycle v ≡ true
            → any (λ t. t.fact == fact) ts ≡ true)
  unfolding taint_of
  taint_of_lem fact life =
      let lem = an_invalidated_root_lem deps (is_invalidated lifecycle) fact in
      elim (Bool-cases (is_terminal life)) [
        | inl ended ↦
            ([], rw (ended, taint_of) refl, tt, λ e. refl, λ v going d i. absurd (ground arith))
        | inr going ↦
            elim (Option-cases (an_invalidated_root deps (is_invalidated lifecycle) fact)) [
              | inl clean ↦ (
                [],
                rw (going, clean, taint_of) refl,
                tt,
                λ e. refl,
                λ v g d i. absurd (let n = lem.1 clean v d in ground arith),
              )
              | inr (root, found) ↦
                  let (derives, invalid) = lem.0 root found in
                  elim (Option-cases (get root lifecycle)) [
                    | inl missing ↦ absurd (ground (arith, invalid, missing))
                    | inr (state, there) ↦ (
                      record { fact = fact; root = root; root_lifecycle = state } ∷ [],
                      rw (going, found, there, taint_of) refl,
                      (
                        record {
                          life = life;
                          listed = mem-cons_self;
                          going = going;
                          derives = derives;
                          root_state = there;
                          root_invalid = ground (arith, invalid, there);
                        },
                        tt,
                      ),
                      λ e. absurd (ground arith),
                      λ v g d i. ground (arith, eq_refl fact),
                    )
                  ]
            ]
      ]

  -- A fact that derives from an invalidated fact and has not ended is in the report.
  abbrev pub IsCovered : List TaintedFact → FactId × FactLifecycle → Type 0
  IsCovered ts e =
      (v : FactId)
      → is_terminal e.1 ≡ false
      → Derives deps e.0 v
      → is_invalidated lifecycle v ≡ true
      → any (λ t. t.fact == e.0) ts ≡ true

  more_listed :
      (facts others : Lifecycles)
      → ((x : FactId × FactLifecycle) → Mem x facts → Mem x others)
      → (t : TaintedFact) → IsTainted lifecycle deps facts t
      → IsTainted lifecycle deps others t
  more_listed facts others grows t h = record {
    life = h.life;
    listed = grows _ h.listed;
    going = h.going;
    derives = h.derives;
    root_state = h.root_state;
    root_invalid = h.root_invalid;
  }

  -- The report over a list of facts: it is made, all that is in it is tainted, and what is tainted is in it.
  pub report_lem :
      (facts : Lifecycles)
      → (ts : List TaintedFact) × (report lifecycle deps facts ≡ ok ts)
        × All (IsTainted lifecycle deps facts) ts
        × All (IsCovered ts) facts
  unfolding report
  report_lem [] = ([], refl, tt, tt)
  report_lem ((fact, life) ∷ facts) =
      let (here, made, tainted, ended, covered) = taint_of_lem fact life in
      let (rest, more, all_tainted, all_covered) = report_lem facts in
      (
        here ++ rest,
        rw (made, more) refl,
        All-append (IsTainted lifecycle deps ((fact, life) ∷ facts)) here rest
            (All-weaken _ _ here
              (more_listed ((fact, life) ∷ []) ((fact, life) ∷ facts)
                (λ x m. mem-append_left facts m))
              tainted)
            (All-weaken _ _ rest
              (more_listed facts ((fact, life) ∷ facts) (λ x m. mem-cons_of_mem (fact, life) m))
              all_tainted),
        (
          λ v g d i. ground (arith, any-append (λ t. t.fact == fact) here rest, covered v g d i),
          All-weaken (IsCovered rest) (IsCovered (here ++ rest)) facts
              (λ e c v g d i. ground (arith, any-append (λ t. t.fact == e.0) here rest, c v g d i))
              all_covered,
        ),
      )

-- The report is made of the lifecycles and the sources that the survey of the streams answers with, and fails only
-- where the survey does: no key is missing. All that it lists has not ended, and derives from a fact that was retracted or has expired,
-- over any number of edges, and every fact of the survey that derives from one and has not ended is listed.
pub tainted_facts_lem :
    (events : List FactEvent) (lifecycle : Lifecycles) (deps : Deps)
    → survey [] [] (group [] events) ≡ ok (lifecycle, deps)
    → (ts : List TaintedFact) × (tainted_facts events ≡ ok ts)
      × All (IsTainted lifecycle deps lifecycle) ts
      × All (IsCovered lifecycle deps ts) lifecycle
unfolding tainted_facts
tainted_facts_lem events lifecycle deps h =
    let (ts, made, tainted, covered) = report_lem lifecycle deps lifecycle in
    (ts, rw (h, made) refl, tainted, covered)
