-- ===== src/Subject/Members.antt =====
-- `supersession_cycle_members` of crates/dent8-store/src/lib.rs against the cycles of the supersessions.
use dent.Prelude.{
  ℕ, zero, suc, ◌≡◌, refl, ap, subst, ◌↔◌, true, none, some, List, [], ◌∷◌, ◌++◌, arith, ◌==◌,
  eq_iff, eq_refl, length, inl, inr, Bool-cases, Option-cases,
}
use dent.Prelude.Maps.{Map, Set, string_key, get, insert, get-insert, contains, keys}
use dent.Model.{FactId}
use dent.State.{FactState}
use dent.Subject.{
  successor, walk, walk_fuel, drop, include_all, has, cycles_from, supersession_cycle_members,
}
use dent.Subject.Cycles.{walk-ends, unmet-le}
use dent.Subject.Chains.{
  contains-include_all, Leads, one, step, Chain, Chain-append, Chain-drop, ring_Leads, Closed,
  Closed-Leads, ring_Closed,
}

drop-append :
    (i : ℕ) (path ys : List FactId) (k : FactId) (rest : List FactId)
    → drop i path ≡ k ∷ rest
    → drop i (path ++ ys) ≡ k ∷ (rest ++ ys)
drop-append zero path ys k rest h = ap (λ p. p ++ ys) h
drop-append (suc i) [] ys k rest h = cc
drop-append (suc i) (x ∷ path) ys k rest h = drop-append i path ys k rest h

drop-length : (path ys : List FactId) → drop (length path) (path ++ ys) ≡ ys
drop-length [] ys = refl
drop-length (x ∷ path) ys = drop-length path ys

-- The index of a walk gives the place of each fact on its path.
abbrev IsIndexed : Map FactId ℕ → List FactId → Type 0
IsIndexed index path =
    (k : FactId) (i : ℕ) → get k index ≡ some i → (rest : List FactId) × (drop i path ≡ k ∷ rest)

IsIndexed-insert :
    (node : FactId) (index : Map FactId ℕ) (path : List FactId)
    → IsIndexed index path
    → IsIndexed (insert node (length path) index) (path ++ node ∷ [])
IsIndexed-insert node index path h k i e = elim (Bool-cases (node == k)) [
  | inl same ↦
      let is_i : length path ≡ i = ground (arith, get-insert node k (length path) index) in
      ([], rw (← is_i, ← (eq_iff node k).0 same) (drop-length path (node ∷ [])))
  | inr other ↦
      let (rest, there) = h k i (ground (arith, get-insert node k (length path) index)) in
      (rest ++ node ∷ [], drop-append i path (node ∷ []) k rest there)
]

module _ (facts : Map FactId FactState) where
  onward :
      {node next start : FactId}
      → successor facts node ≡ some next
      → Leads facts start start
      → Leads facts node start
      → Leads facts next start
  onward {node} {next} {start} e ring (one g) = subst (λ x. Leads facts x start) (cc) ring
  onward {node} {next} {start} e ring (step g r) = subst (λ x. Leads facts x start) (cc) r

  -- What a walk from `node` makes of the set `s`.
  record Found (s : Set FactId) (node : FactId) (members : Set FactId) : Type 0 where
    closed : Closed facts members
    rings : (v : FactId) → contains v members ≡ true → Leads facts v v
    keeps : (v : FactId) → contains v s ≡ true → contains v members ≡ true
    complete :
        (start : FactId)
        → Leads facts start start
        → Leads facts node start
        → contains start members ≡ true

  Found-ring :
      (s : Set FactId) (node : FactId) (rest : List FactId)
      → Chain facts (node ∷ rest) node
      → Closed facts s
      → ((v : FactId) → contains v s ≡ true → Leads facts v v)
      → Found s node (include_all (node ∷ rest) s)
  Found-ring s node rest ring closed rings =
      let all : Closed facts (include_all (node ∷ rest) s) =
        ring_Closed facts node rest s ring closed in
      record {
        closed = all;
        rings = λ v m. elim (Bool-cases (has v (node ∷ rest))) [
          | inl on ↦ ring_Leads facts node rest v ring on
          | inr off ↦ rings v (ground (arith, contains-include_all v (node ∷ rest) s))
        ];
        keeps = λ v m. ground (arith, contains-include_all v (node ∷ rest) s);
        complete = λ start back leads.
            Closed-Leads facts _ all
              (ground (arith, contains-include_all node (node ∷ rest) s, eq_refl node)) leads;
      }

  Found-known :
      (s : Set FactId) (node : FactId)
      → contains node s ≡ true
      → Closed facts s
      → ((v : FactId) → contains v s ≡ true → Leads facts v v)
      → Found s node s
  Found-known s node known closed rings = record {
    closed = closed;
    rings = rings;
    keeps = λ v m. m;
    complete = λ start back leads. Closed-Leads facts s closed known leads;
  }

  no_way : {node start : FactId} → successor facts node ≡ none → ¬ Leads facts node start
  no_way e (one g) = cc
  no_way e (step g r) = cc

  walk-Found :
      (n : ℕ) (s : Set FactId) (index : Map FactId ℕ) (path : List FactId) (node : FactId)
      (members : Set FactId)
      → walk facts n s index path node ≡ some members
      → IsIndexed index path
      → Chain facts path node
      → Closed facts s
      → ((v : FactId) → contains v s ≡ true → Leads facts v v)
      → Found s node members
  unfolding walk
  walk-Found zero s index path node members h places chain closed rings = cc
  walk-Found (suc n) s index path node members h places chain closed rings =
      elim (Option-cases (get node index)) [
        | inr (first, met) ↦
            let (rest, is_ring) = places node first met in
            let ended : include_all (node ∷ rest) s ≡ members =
              subst (λ p. include_all p s ≡ members) is_ring
                (ground (arith, rw (met, walk) at h)) in
            rw (← ended) (
              Found-ring s node rest
                (subst (λ p. Chain facts p node) is_ring (Chain-drop facts first path node chain))
                closed rings)
        | inl fresh ↦ elim (Bool-cases (contains node s)) [
          | inl known ↦
              let ended : s ≡ members = ground (arith, rw (fresh, known, walk) at h) in
              rw (← ended) (Found-known s node known closed rings)
          | inr new ↦ elim (Option-cases (successor facts node)) [
            | inl end ↦
                let ended : s ≡ members = ground (arith, rw (fresh, new, end, walk) at h) in
                rw (← ended) (record {
                  closed = closed;
                  rings = rings;
                  keeps = λ v m. m;
                  complete = λ start back leads. absurd (no_way end leads);
                })
            | inr (next, goes) ↦
                let f =
                  walk-Found n s (insert node (length path) index) (path ++ node ∷ []) next members
                    (rw (fresh, new, goes, walk) at h) (IsIndexed-insert node index path places)
                    (Chain-append facts path node next chain goes) closed rings in
                record {
                  closed = f.closed;
                  rings = f.rings;
                  keeps = f.keeps;
                  complete = λ start back leads. f.complete start back (onward goes back leads);
                }
          ]
        ]
      ]

  -- The walk from a fact of the subject has the fuel that it needs.
  walk_of :
      (s : Set FactId) (start : FactId) (state : FactState)
      → get start facts ≡ some state
      → (members : Set FactId) × (walk facts (walk_fuel facts) s [] [] start ≡ some members)
  walk_of s start state here =
      walk-ends facts (walk_fuel facts) s [] [] start state here (omega (arith, unmet-le [] facts))

  step_Found :
      (s : Set FactId) (start : FactId) (state : FactState) (members : Set FactId)
      → walk facts (walk_fuel facts) s [] [] start ≡ some members
      → Closed facts s
      → ((v : FactId) → contains v s ≡ true → Leads facts v v)
      → Found s start members
  unfolding get
  step_Found s start state members h closed rings =
      walk-Found (walk_fuel facts) s [] [] start members h (λ k i e. cc) tt closed rings

  key_is_there :
      (m : Map FactId FactState) (k : FactId)
      → has k (keys m) ≡ true
      → (state : FactState) × (get k m ≡ some state)
  unfolding get
  key_is_there [] k h = cc
  key_is_there ((j, state) ∷ m) k h = elim (Bool-cases (j == k)) [
    | inl same ↦ (state, ground arith)
    | inr other ↦ let (found, there) = key_is_there m k (ground arith) in (found, ground arith)
  ]

  there_is_key :
      (m : Map FactId FactState) (k : FactId) (state : FactState)
      → get k m ≡ some state
      → has k (keys m) ≡ true
  unfolding get
  there_is_key [] k state h = cc
  there_is_key ((j, other) ∷ m) k state h = ground (arith, there_is_key m k state)

  -- What the walks from some facts of the subject make of the set `s`.
  record Gathered (s : Set FactId) (starts : List FactId) : Type 0 where
    rings : (v : FactId) → contains v (cycles_from facts s starts) ≡ true → Leads facts v v
    keeps : (v : FactId) → contains v s ≡ true → contains v (cycles_from facts s starts) ≡ true
    complete :
        (v : FactId)
        → has v starts ≡ true
        → Leads facts v v
        → contains v (cycles_from facts s starts) ≡ true

  cycles_from-Gathered :
      (s : Set FactId) (starts : List FactId)
      → ((v : FactId) → has v starts ≡ true → has v (keys facts) ≡ true)
      → Closed facts s
      → ((v : FactId) → contains v s ≡ true → Leads facts v v)
      → Gathered s starts
  unfolding cycles_from
  cycles_from-Gathered s [] all closed rings = record {
    rings = rings;
    keeps = λ v m. m;
    complete = λ v m leads. cc;
  }
  cycles_from-Gathered s (start ∷ starts) all closed rings =
      let others : (v : FactId) → has v starts ≡ true → has v (keys facts) ≡ true =
        λ v m. all v (ground arith) in
      elim (Bool-cases (contains start s)) [
        | inl known ↦
            let g = cycles_from-Gathered s starts others closed rings in
            record {
              rings = λ v m. g.rings v (rw (known, cycles_from) at m);
              keeps = λ v m. rw (known, cycles_from) (g.keeps v m);
              complete = λ v m leads. elim (Bool-cases (start == v)) [
                | inl same ↦
                    rw (known, cycles_from) (g.keeps v (rw (← (eq_iff start v).0 same) known))
                | inr other ↦ rw (known, cycles_from) (g.complete v (ground arith) leads)
              ];
            }
        | inr new ↦
            let (state, here) =
              key_is_there facts start (all start (ground (arith, eq_refl start))) in
            let (members, walked) = walk_of s start state here in
            let f = step_Found s start state members walked closed rings in
            let g = cycles_from-Gathered members starts others f.closed f.rings in
            record {
              rings = λ v m. g.rings v (rw (new, walked, cycles_from) at m);
              keeps = λ v m. rw (new, walked, cycles_from) (g.keeps v (f.keeps v m));
              complete = λ v m leads. elim (Bool-cases (start == v)) [
                | inl same ↦
                    rw (new, walked, cycles_from)
                      (g.keeps v (f.complete v leads (rw ((eq_iff start v).0 same) leads)))
                | inr other ↦ rw (new, walked, cycles_from) (g.complete v (ground arith) leads)
              ];
            }
      ]

  Leads-key : {v w : FactId} → Leads facts v w → has v (keys facts) ≡ true
  Leads-key {v} {w} (one e) = elim (Option-cases (get v facts)) [
    | inl missing ↦ absurd (ground (arith, missing))
    | inr (state, there) ↦ there_is_key facts v state there
  ]
  Leads-key {v} {w} (step e r) = elim (Option-cases (get v facts)) [
    | inl missing ↦ absurd (ground (arith, missing))
    | inr (state, there) ↦ there_is_key facts v state there
  ]

  -- The set of the facts on a cycle holds just the facts from which the supersessions in the subject lead back to
  -- themselves, however long the way.
  pub supersession_cycle_members_lem :
      (v : FactId) → (contains v (supersession_cycle_members facts) ≡ true) ↔ Leads facts v v
  unfolding supersession_cycle_members contains get
  supersession_cycle_members_lem v =
      let g = cycles_from-Gathered [] (keys facts) (λ u m. m) (λ u w m e. cc) (λ u m. cc) in
      (λ m. g.rings v m, λ leads. g.complete v (Leads-key leads) leads)
