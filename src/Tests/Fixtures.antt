-- ===== src/Tests/Fixtures.antt =====
-- Events to try the model on, and a codec that meets the laws: hexadecimal as it is, with a checksum for the digest.
use dent.Prelude.{
  ℕ, zero, suc, ◌+◌, ◌-◌, ◌*◌, ◌/◌, ◌%◌, ◌<◌, ◌&&◌, ◌≡◌, refl, Option, none, some, [], ◌∷◌, arith,
  leb, ltb, if◌then◌else◌, length, ok, ap,
}
use dent.Prelude.Int.{pos}
use dent.Model.{
  FactEventId, FactId, SourceId, FactEvent, FactEventKind, asserted, FactValue, text,
  AuthorityLevel, rank, never, user_statement,
}
use dent.Hash.{Bytes, IsBytes, Codec, IsLawful}

abbrev pub event :
    FactEventId → FactId → FactEventKind → Option FactValue → SourceId → AuthorityLevel → FactEvent
event id fact_id kind value source level = record {
  event_id = id;
  fact_id = fact_id;
  kind = kind;
  subject = record { kind = "repo"; key = "dent8" };
  predicate = "database";
  value = value;
  confidence = 900;
  authority = record { level = level; issuer = none; scope = none };
  ttl = never;
  provenance = record {
    source = source;
    actor = "actor:test";
    tool = none;
    run_id = none;
    input_digest = none;
    recorded_at = pos 1;
    attestation = none;
  };
  evidence =
      record {
        id = "evidence:1";
        kind = user_statement;
        locator = "x";
        digest = none;
        summary = none;
      }
      ∷ [];
  observed_at = none;
  valid_from = none;
  valid_to = none;
}

abbrev pub assertion : FactEventId → FactId → SourceId → AuthorityLevel → FactEvent
assertion id fact_id source level = event id fact_id asserted (some (text "postgres")) source level

abbrev digit : ℕ → ℕ
digit d = if ltb d 10 then 48 + d else 87 + d

abbrev undigit : ℕ → Option ℕ
undigit x =
    if leb 48 x && leb x 57
    then some (x - 48)
    else if leb 97 x && leb x 102
    then some (x - 87)
    else if leb 65 x && leb x 70
    then some (x - 55)
    else none

hex_encode : Bytes → Bytes
hex_encode [] = []
hex_encode (b ∷ bs) = digit (b / 16) ∷ digit (b % 16) ∷ hex_encode bs

abbrev join : Option ℕ → Option ℕ → Option Bytes → Option Bytes
join (some hi) (some lo) (some bs) = some ((hi * 16 + lo) ∷ bs)
join _ _ _ = none

hex_decode : Bytes → Option Bytes
hex_decode [] = some []
hex_decode (x ∷ []) = none
hex_decode (x ∷ y ∷ rest) = join (undigit x) (undigit y) (hex_decode rest)

undigit-digit : (d : ℕ) → d < 16 → undigit (digit d) ≡ some d
undigit-digit d h = ground arith

decode-encode : (bs : Bytes) → IsBytes bs → hex_decode (hex_encode bs) ≡ some bs
unfolding hex_encode hex_decode
decode-encode [] h = refl
decode-encode (b ∷ bs) h =
    rw
      (
        undigit-digit (b / 16) (omega arith),
        undigit-digit (b % 16) (omega arith),
        decode-encode bs h.1,
      )
      (ap some (ap (λ n. n ∷ bs) (omega arith)))

sum : Bytes → ℕ
sum [] = 0
sum (b ∷ bs) = b + sum bs

copies : ℕ → ℕ → Bytes
copies zero b = []
copies (suc n) b = b ∷ copies n b

length-copies : (n b : ℕ) → length (copies n b) ≡ n
unfolding copies
length-copies zero b = refl
length-copies (suc n) b = ap suc (length-copies n b)

copies-IsBytes : (n b : ℕ) → b < 256 → IsBytes (copies n b)
unfolding copies
copies-IsBytes zero b h = tt
copies-IsBytes (suc n) b h = (h, copies-IsBytes n b h)

unfoldable pub checksum : Codec
unfolding hex_encode hex_decode sum copies
checksum = record {
  to_canonical = λ e. ok (rank e.authority.level ∷ length e.evidence ∷ []);
  sha256 = λ m. copies 32 (sum m % 256);
  hex_encode = hex_encode;
  hex_decode = hex_decode;
}

pub checksum-IsLawful : IsLawful checksum
unfolding checksum
checksum-IsLawful = record {
  digest_length = λ m. length-copies 32 (sum m % 256);
  digest_bytes = λ m. copies-IsBytes 32 (sum m % 256) (omega arith);
  decode-encode = decode-encode;
  canonical_fits = λ e bs h. ground arith;
}
