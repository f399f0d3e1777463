-- ===== src/Taint/Search.antt =====
-- The search of `an_invalidated_root` of crates/dent8-store/src/lib.rs: it ends, and finds what there is.
use dent.Prelude.{
  ℕ, zero, suc, ◌+◌, ◌≤◌, ◌<◌, ◌≡◌, refl, Bool, true, false, ◌||◌, Option, none, some, List, [],
  ◌∷◌, arith, eq_iff, eq_refl, length, inl, inr, Bool-cases,
}
use dent.Prelude.Maps.{Set, string_key, get, contains, include, contains-include}
use dent.Model.{FactId}
use dent.Subject.{has}
use dent.Taint.{
  Deps, edges, extend, unseen_edges, search_root, enough_fuel, an_invalidated_root, Derives, direct,
  further,
}

length-extend : (xs stack : List FactId) → length (extend xs stack) ≡ length xs + length stack
length-extend [] stack = omega arith
length-extend (x ∷ xs) stack = omega (arith, length-extend xs (x ∷ stack))

pub has-extend :
    (v : FactId) (xs stack : List FactId) → has v (extend xs stack) ≡ (has v xs || has v stack)
has-extend v [] stack = refl
has-extend v (x ∷ xs) stack = ground (arith, has-extend v xs (x ∷ stack))

unseen_edges-include :
    (fact : FactId) (seen : Set FactId) (deps : Deps)
    → unseen_edges (include fact seen) deps ≤ unseen_edges seen deps
unfolding unseen_edges
unseen_edges-include fact seen [] = omega arith
unseen_edges-include fact seen ((k, es) ∷ deps) =
    ground (arith, contains-include fact k seen, unseen_edges-include fact seen deps)

-- A fact that is seen for the first time takes its edges off the count.
edges-unseen :
    (fact : FactId) (seen : Set FactId) (deps : Deps)
    → contains fact seen ≡ false
    → length (edges deps fact) + unseen_edges (include fact seen) deps ≤ unseen_edges seen deps
unfolding unseen_edges get
edges-unseen fact seen [] h = omega arith
edges-unseen fact seen ((k, es) ∷ deps) h = ground (
  arith,
  contains-include fact k seen,
  eq_iff k fact,
  eq_iff fact k,
  unseen_edges-include fact seen deps,
  edges-unseen fact seen deps h,
)

module _ (deps : Deps) (invalidated : FactId → Bool) where
  search_root-ends :
      (n : ℕ) (seen : Set FactId) (stack : List FactId)
      → length stack + unseen_edges seen deps < n
      → (r : Option FactId) × (search_root deps invalidated n seen stack ≡ some r)
  unfolding search_root
  search_root-ends zero seen stack h = absurd (omega arith)
  search_root-ends (suc n) seen [] h = (none, refl)
  search_root-ends (suc n) seen (x ∷ stack) h = elim (Bool-cases (contains x seen)) [
    | inl old ↦ rw (old, search_root) (search_root-ends n seen stack (omega arith))
    | inr fresh ↦ elim (Bool-cases (invalidated x)) [
      | inl bad ↦ (some x, rw (fresh, bad, search_root) refl)
      | inr fine ↦
          rw (fresh, fine, search_root)
            (search_root-ends n (include x seen) (extend (edges deps x) stack)
              (omega (arith, length-extend (edges deps x) stack, edges-unseen x seen deps fresh)))
    ]
  ]

  -- What is found is invalidated, and derived from: all that is on the stack is.
  pub search_root-Derives :
      (fact : FactId) (n : ℕ) (seen : Set FactId) (stack : List FactId) (root : FactId)
      → search_root deps invalidated n seen stack ≡ some (some root)
      → ((v : FactId) → has v stack ≡ true → Derives deps fact v)
      → Derives deps fact root × (invalidated root ≡ true)
  unfolding search_root
  search_root-Derives fact zero seen stack root h on = cc
  search_root-Derives fact (suc n) seen [] root h on = cc
  search_root-Derives fact (suc n) seen (x ∷ stack) root h on =
      elim (Bool-cases (contains x seen)) [
        | inl old ↦
            search_root-Derives fact n seen stack root (rw (old, search_root) at h)
              (λ v m. on v (ground arith))
        | inr fresh ↦ elim (Bool-cases (invalidated x)) [
          | inl bad ↦
              let found : x ≡ root = ground (arith, rw (fresh, bad, search_root) at h) in
              (rw (← found) (on x (ground (arith, eq_refl x))), rw (← found) bad)
          | inr fine ↦
              search_root-Derives fact n (include x seen) (extend (edges deps x) stack) root
                (rw (fresh, fine, search_root) at h)
                (λ v m. elim (Bool-cases (has v (edges deps x))) [
                  | inl edge ↦ further (on x (ground (arith, eq_refl x))) edge
                  | inr other ↦ on v (ground (arith, has-extend v (edges deps x) stack))
                ])
        ]
      ]

  -- What a set holds after a search that found nothing: it has no invalidated fact and no way out of it.
  pub record IsClosed (final : Set FactId) : Type 0 where
    pub valid : (v : FactId) → contains v final ≡ true → invalidated v ≡ false
    pub inside :
        (v w : FactId)
        → contains v final ≡ true
        → has w (edges deps v) ≡ true
        → contains w final ≡ true

  pub search_root-IsClosed :
      (n : ℕ) (seen : Set FactId) (stack : List FactId)
      → search_root deps invalidated n seen stack ≡ some none
      → ((v : FactId) → contains v seen ≡ true → invalidated v ≡ false)
      → ((v w : FactId)
          → contains v seen ≡ true
          → has w (edges deps v) ≡ true
          → (contains w seen || has w stack) ≡ true)
      → (final : Set FactId) × IsClosed final
        × ((v : FactId) → (contains v seen || has v stack) ≡ true → contains v final ≡ true)
  unfolding search_root
  search_root-IsClosed zero seen stack h valid inside = cc
  search_root-IsClosed (suc n) seen [] h valid inside = (
    seen,
    record { valid = valid; inside = λ v w a b. ground (arith, inside v w a b) },
    λ v a. ground arith,
  )
  search_root-IsClosed (suc n) seen (x ∷ stack) h valid inside =
      elim (Bool-cases (contains x seen)) [
        | inl old ↦
            let (final, closed, all) =
              search_root-IsClosed n seen stack (rw (old, search_root) at h) valid
                (λ v w a b. ground (arith, inside v w a b, eq_iff x w)) in
            (final, closed, λ v a. all v (ground (arith, eq_iff x v)))
        | inr fresh ↦ elim (Bool-cases (invalidated x)) [
          | inl bad ↦ absurd (ground (arith, rw (fresh, bad, search_root) at h))
          | inr fine ↦
              let (final, closed, all) =
                search_root-IsClosed n (include x seen) (extend (edges deps x) stack)
                  (rw (fresh, fine, search_root) at h)
                  (λ v a. ground (arith, contains-include x v seen, eq_iff x v, valid v))
                  (λ v w a b. ground (
                    arith,
                    contains-include x v seen,
                    contains-include x w seen,
                    eq_iff x v,
                    eq_iff x w,
                    inside v w,
                    has-extend w (edges deps x) stack,
                  )) in
              (
                final,
                closed,
                λ v a. all v (
                    ground (
                      arith,
                      contains-include x v seen,
                      has-extend v (edges deps x) stack,
                      eq_iff x v,
                    )),
              )
        ]
      ]

  pub Derives-inside :
      (final : Set FactId) (u v : FactId)
      → IsClosed final
      → ((w : FactId) → has w (edges deps u) ≡ true → contains w final ≡ true)
      → Derives deps u v
      → contains v final ≡ true
  Derives-inside final u v closed first (direct e) = first v e
  Derives-inside final u v closed first (further r e) =
      closed.inside _ v (Derives-inside final u _ closed first r) e

  -- The search with the fuel that the code's loop is given ends.
  pub an_invalidated_root-ends :
      (fact : FactId)
      → (r : Option FactId) × (search_root deps invalidated
            (enough_fuel deps fact)
            []
            (extend (edges deps fact) [])
          ≡ some r)
        × (an_invalidated_root deps invalidated fact ≡ r)
  unfolding enough_fuel an_invalidated_root
  an_invalidated_root-ends fact =
      let (r, e) =
        search_root-ends (enough_fuel deps fact) [] (extend (edges deps fact) [])
          (omega (arith, length-extend (edges deps fact) [])) in
      (r, e, rw (e, an_invalidated_root) refl)
