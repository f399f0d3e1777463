-- ===== src/Prelude/Maps.antt =====
-- The standard library's `BTreeMap`: an association list in key order, with one entry a key. A set is a map
-- into the unit type. Keys have an equality test that is right and an order that places new entries.
use Prim.Native.String.{String, compare}
use text.Mathlib.Text.{◌==◌ as str_eq, is_lt}
use text.Mathlib.TextEquality.{eq_iff}
use mathlib.Core.Path.{◌≡◌, refl}
use mathlib.Core.Logic.{◌↔◌, inl, inr}
use mathlib.Core.Bool.{Bool, true, false, ◌||◌, ◌&&◌}
use mathlib.Core.Option.{Option, none, some}
use mathlib.Core.List.{List, [], ◌∷◌, map}
use native.Mathlib.Omega.{arith}
use dent.Prelude.Tests.{if◌then◌else◌, Option-cases}

pub record Key (K : Type 0) : Type 0 where
  pub beq : K → K → Bool
  pub less : K → K → Bool
  pub beq_iff : (a b : K) → (beq a b ≡ true) ↔ (a ≡ b)

instance abbrev pub string_key : Key String
string_key = record { beq = str_eq; less = λ a b. is_lt (compare a b); beq_iff = eq_iff }

-- A pair of texts compares lexicographically.
abbrev pub pair_beq : String × String → String × String → Bool
pair_beq (a, b) (c, d) = str_eq a c && str_eq b d

abbrev pub pair_less : String × String → String × String → Bool
pair_less (a, b) (c, d) = is_lt (compare a c) || (str_eq a c && is_lt (compare b d))

pub pair_beq_iff : (x y : String × String) → (pair_beq x y ≡ true) ↔ (x ≡ y)
pair_beq_iff (a, b) (c, d) =
    (ground (arith, eq_iff a c, eq_iff b d), ground (arith, eq_iff a c, eq_iff b d))

instance abbrev pub pair_key : Key (String × String)
pair_key = record { beq = pair_beq; less = pair_less; beq_iff = pair_beq_iff }

abbrev pub Map {ℓ} : Type 0 → Type ℓ → Type ℓ
Map K V = List (K × V)

module _ {ℓ} {K : Type 0} {V : Type ℓ} ⦃o : Key K⦄ where
  -- `BTreeMap::get`
  unfoldable pub get : K → Map K V → Option V
  get k [] = none
  get k ((j, v) ∷ m) = if o.beq j k then some v else get k m

  -- A new value at a key that is there.
  unfoldable pub replace : K → V → Map K V → Map K V
  replace k v [] = []
  replace k v ((j, w) ∷ m) =
      let rest = replace k v m in if o.beq j k then (j, v) ∷ m else (j, w) ∷ rest

  -- A new entry before the first greater key.
  unfoldable pub place : K → V → Map K V → Map K V
  place k v [] = (k, v) ∷ []
  place k v ((j, w) ∷ m) =
      let rest = place k v m in if o.less k j then (k, v) ∷ (j, w) ∷ m else (j, w) ∷ rest

  -- `BTreeMap::insert`
  unfoldable pub insert : K → V → Map K V → Map K V
  insert k v m = elim (get k m) [ none ↦ place k v m | some _ ↦ replace k v m ]

  pub insert-none : (k : K) (v : V) (m : Map K V) → get k m ≡ none → insert k v m ≡ place k v m
  unfolding insert
  insert-none k v m e = rw (e, insert)

  pub insert-some :
      (k : K) (v w : V) (m : Map K V) → get k m ≡ some w → insert k v m ≡ replace k v m
  unfolding insert
  insert-some k v w m e = rw (e, insert)

  get-replace :
      (k j : K) (v w : V) (m : Map K V)
      → get k m ≡ some w
      → get j (replace k v m) ≡ (if o.beq k j then some v else get j m)
  unfolding get replace
  get-replace k j v w [] h = cc
  get-replace k j v w ((i, u) ∷ m) h =
      ground (arith, o.beq_iff k j, o.beq_iff i k, o.beq_iff i j, get-replace k j v w m)

  get-place :
      (k j : K) (v : V) (m : Map K V)
      → get k m ≡ none
      → get j (place k v m) ≡ (if o.beq k j then some v else get j m)
  unfolding get place
  get-place k j v [] h = refl
  get-place k j v ((i, u) ∷ m) h =
      ground (arith, o.beq_iff k j, o.beq_iff i k, o.beq_iff i j, get-place k j v m)

  pub get-insert :
      (k j : K) (v : V) (m : Map K V)
      → get j (insert k v m) ≡ (if o.beq k j then some v else get j m)
  get-insert k j v m = elim (Option-cases (get k m)) [
    | inl e ↦ rw (insert-none k v m e) (get-place k j v m e)
    | inr (w, e) ↦ rw (insert-some k v w m e) (get-replace k j v w m e)
  ]

module _ {ℓ} {K : Type 0} {V : Type ℓ} ⦃o : Key K⦄ where
  -- No key stands twice.
  abbrev pub IsDistinct : Map K V → Type ℓ
  IsDistinct [] = Unit
  IsDistinct ((k, v) ∷ m) = (get k m ≡ none) × IsDistinct m

  replace-IsDistinct :
      (k : K) (v w : V) (m : Map K V) → get k m ≡ some w → IsDistinct m → IsDistinct (replace k v m)
  unfolding get replace
  replace-IsDistinct k v w [] h d = tt
  replace-IsDistinct k v w ((i, u) ∷ m) h d = ground (
    arith,
    o.beq_iff i k,
    o.beq_iff k i,
    get-replace k i v w m,
    replace-IsDistinct k v w m,
    d.0,
    d.1,
  )

  place-IsDistinct :
      (k : K) (v : V) (m : Map K V) → get k m ≡ none → IsDistinct m → IsDistinct (place k v m)
  unfolding get place
  place-IsDistinct k v [] h d = (refl, tt)
  place-IsDistinct k v ((i, u) ∷ m) h d =
      ground
        (arith, o.beq_iff i k, o.beq_iff k i, get-place k i v m, place-IsDistinct k v m, d.0, d.1)

  pub insert-IsDistinct : (k : K) (v : V) (m : Map K V) → IsDistinct m → IsDistinct (insert k v m)
  insert-IsDistinct k v m d = elim (Option-cases (get k m)) [
    | inl e ↦ rw (insert-none k v m e) (place-IsDistinct k v m e d)
    | inr (w, e) ↦ rw (insert-some k v w m e) (replace-IsDistinct k v w m e d)
  ]

module _ {ℓ} {K : Type 0} {V : Type ℓ} where
  abbrev pub keys : Map K V → List K
  keys m = map (λ e. e.0) m

  abbrev pub values : Map K V → List V
  values m = map (λ e. e.1) m

-- `BTreeSet`
abbrev pub Set : Type 0 → Type 0
Set K = Map K (Unit {0})

module _ {K : Type 0} ⦃o : Key K⦄ where
  unfoldable pub contains : K → Set K → Bool
  unfolding get
  contains k m = elim (get k m) [ none ↦ false | some _ ↦ true ]

  unfoldable pub include : K → Set K → Set K
  include k m = insert k tt m

  pub contains-include :
      (k j : K) (m : Set K) → contains j (include k m) ≡ (o.beq k j || contains j m)
  unfolding contains include
  contains-include k j m = rw (get-insert k j tt m, contains) (ground arith)
