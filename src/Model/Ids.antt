-- ===== src/Model/Ids.antt =====
-- crates/dent8-core/src/ids.rs, and the `Subject` and `Predicate` of model.rs. A validated name is a text; the
-- constructors are the functions `new_id`, `new_subject` and `new_predicate`.
use Prim.Native.Char.{code}
use dent.Prelude.{
  ℕ, String, Bool, true, ◌≡◌, ◌↔◌, ◌&&◌, ◌||◌, arith, ◌==◌, eq_iff, leb, nat_eq, if◌then◌else◌,
  Result, ok, err,
}
use dent.Prelude.Int.{ℤ}

abbrev pub ActorId : Type 0
ActorId = String

abbrev pub FactEventId : Type 0
FactEventId = String

abbrev pub FactId : Type 0
FactId = String

abbrev pub EvidenceId : Type 0
EvidenceId = String

abbrev pub SourceId : Type 0
SourceId = String

-- An `i64` count of milliseconds.
abbrev pub TimestampMillis : Type 0
TimestampMillis = ℤ

-- `char::is_whitespace`: the code points with the property White_Space.
unfoldable pub is_white_space : ℕ → Bool
is_white_space c =
    (leb 9 c && leb c 13)
    || nat_eq c 0x20
    || nat_eq c 0x85
    || nat_eq c 0xa0
    || nat_eq c 0x1680
    || (leb 0x2000 c && leb c 0x200a)
    || nat_eq c 0x2028
    || nat_eq c 0x2029
    || nat_eq c 0x202f
    || nat_eq c 0x205f
    || nat_eq c 0x3000

-- `value.trim().is_empty()`
unfoldable pub is_blank : String → Bool
unfolding is_white_space
is_blank String.[] = true
is_blank (String.◌∷◌ c s) = is_white_space (code c) && is_blank s

pub record IdError : Type 0 where
  pub kind : String

unfoldable pub new_id : String → String → Result IdError String
new_id kind value = if is_blank value then err (record { kind = kind }) else ok value

pub data ValidationError : Type 0 where
  empty_field : String → ValidationError
  confidence_out_of_range : ℕ → ValidationError
  missing_fact_value : ValidationError
  missing_evidence : ValidationError
  invalid_json : String → ValidationError
  invalid_validity_interval : ValidationError

pub record Subject : Type 0 where
  pub kind : String
  pub key : String

unfoldable pub new_subject : String → String → Result ValidationError Subject
new_subject kind key =
    if is_blank kind
    then err (empty_field "subject.kind")
    else if is_blank key
    then err (empty_field "subject.key")
    else ok (record { kind = kind; key = key })

abbrev pub Predicate : Type 0
Predicate = String

unfoldable pub new_predicate : String → Result ValidationError Predicate
new_predicate value = if is_blank value then err (empty_field "predicate") else ok value

-- The derived `PartialEq`.
abbrev pub subject_eq : Subject → Subject → Bool
subject_eq a b = a.kind == b.kind && a.key == b.key

pub subject_eq_iff : (a b : Subject) → (subject_eq a b ≡ true) ↔ (a ≡ b)
subject_eq_iff a b = (
  ground (arith, eq_iff a.kind b.kind, eq_iff a.key b.key),
  ground (arith, eq_iff a.kind b.kind, eq_iff a.key b.key),
)
