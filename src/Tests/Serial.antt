-- ===== src/Tests/Serial.antt =====
-- A serializer that can write one value, which is enough to have a round trip.
use dent.Prelude.{
  String, ◌≡◌, refl, sym, ap, ◌==◌, eq_iff, Bool-cases, inl, inr, arith, Result, ok, err,
}

pub string_discrete : Discrete String
string_discrete a b = elim (Bool-cases (a == b)) [
  | inl same ↦ yes ((eq_iff a b).0 same)
  | inr other ↦ no (λ e. ground (arith, eq_iff a b))
]

module _ {A : Type 0} {known : A} (text : String) where
  -- The text, where the value is the known one.
  pub written_as : {a : A} → Dec (a ≡ known) → Result String String
  written_as (yes same) = ok text
  written_as (no other) = err "unsupported"

  pub read_back :
      {a : A} (d : Dec (a ≡ known)) (json : String)
      → written_as d ≡ ok json
      → ◌≡◌ {A = Result String A} (ok known) (ok a)
  unfolding written_as
  read_back (yes same) json h = ap (λ x. ok x) (sym same)
  read_back (no other) json h = cc

  pub writes_only :
      {a : A} (d : Dec (a ≡ known)) (json : String) → written_as d ≡ ok json → text ≡ json
  unfolding written_as
  writes_only (yes same) json h = ground arith
  writes_only (no other) json h = cc

  pub writes : (d : Dec (known ≡ known)) → written_as d ≡ ok text
  unfolding written_as
  writes (yes same) = refl
  writes (no other) = absurd (other refl)
