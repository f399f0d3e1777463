-- ===== src/Model/Level.antt =====
-- The `Confidence`, `AuthorityLevel` and `Authority` of crates/dent8-core/src/model.rs. Levels are ordered as
-- they are declared, which `rank` counts.
use dent.Prelude.{
  ℕ, String, Bool, ◌≡◌, Option, none, arith, ltb, leb, nat_eq, if◌then◌else◌, Result, ok, err,
}
use dent.Model.Ids.{ValidationError, confidence_out_of_range}

-- A `u16` of thousandths.
abbrev pub Confidence : Type 0
Confidence = ℕ

abbrev pub confidence_max : Confidence
confidence_max = 1000

abbrev pub confidence_zero : Confidence
confidence_zero = 0

unfoldable pub from_millis : ℕ → Result ValidationError Confidence
from_millis value =
    if ltb confidence_max value then err (confidence_out_of_range value) else ok value

pub data AuthorityLevel : Type 0 where
  unknown low medium high canonical : AuthorityLevel

abbrev pub rank : AuthorityLevel → ℕ
rank unknown = 0
rank low = 1
rank medium = 2
rank high = 3
rank canonical = 4

abbrev pub level_name : AuthorityLevel → String
level_name unknown = "unknown"
level_name low = "low"
level_name medium = "medium"
level_name high = "high"
level_name canonical = "canonical"

-- The derived `<`, `>=`, `==` and `max` of levels.
abbrev pub level_lt : AuthorityLevel → AuthorityLevel → Bool
level_lt a b = ltb (rank a) (rank b)

abbrev pub level_ge : AuthorityLevel → AuthorityLevel → Bool
level_ge a b = leb (rank b) (rank a)

abbrev pub level_eq : AuthorityLevel → AuthorityLevel → Bool
level_eq a b = nat_eq (rank a) (rank b)

abbrev pub level_max : AuthorityLevel → AuthorityLevel → AuthorityLevel
level_max a b = if leb (rank a) (rank b) then b else a

pub rank-injective : (a b : AuthorityLevel) → rank a ≡ rank b → a ≡ b
rank-injective a b h = ground arith

pub record Authority : Type 0 where
  pub level : AuthorityLevel
  pub issuer : Option String
  pub scope : Option String

abbrev pub authority_unknown : Authority
authority_unknown = record { level = unknown; issuer = none; scope = none }
