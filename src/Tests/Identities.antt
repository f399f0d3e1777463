-- ===== src/Tests/Identities.antt =====
-- A grant log of one grant.
use dent.Prelude.{false, ◌≡◌, ◌↔◌, refl, none, some, List, [], ◌∷◌, ◌++◌, arith, ok, subst}
use dent.Prelude.Int.{pos}
use dent.Model.{high, medium, is_blank, is_white_space}
use native.Mathlib.Decide.{ℕ_discrete}
use dent.Identity.Text.{lines_of, buffer, is_one_line, ends_line}
use dent.Prelude.{true}
use dent.Identity.{
  load_lines, last_hash, issued, GrantRecord, SignedSourceGrant, Lines, IsReadable, signed_record,
  lines_for, append_grant_records, load_grant_records, entitlement_at, entitled,
}
use dent.Identity.Chained.{AllRecords, append_grant_records-load_grant_records}
use dent.Identity.Entitle.{StandsIn, Covers, entitlement_at_iff}
use dent.Tests.Witnesses.{scheme}
use dent.Tests.Serial.{string_discrete, written_as, read_back, writes, writes_only}
use dent.Tests.Fixtures.{checksum}

GrantRecord-discrete : Discrete GrantRecord
GrantRecord-discrete = hlevel (ℕ_discrete, string_discrete)

abbrev grant : SignedSourceGrant
grant = record {
  grant = record {
    version = 1;
    source = "source:owner";
    public_key = "k1";
    max_authority = high;
    issuer = "issuer";
    scope = none;
    expires_at_ms = none;
  };
  signature = "s1";
}

abbrev known : GrantRecord
known = record {
  action = issued;
  grant_signature = "s1";
  source = "source:owner";
  public_key = "k1";
  max_authority = high;
  scope = none;
  expires_at_ms = none;
  at_ms = pos 10;
  issuer = "issuer";
  record_signature = checksum.hex_encode (scheme.sign [] []);
  previous_record_hash = none;
}

abbrev text : Lines
text = record {
  from_str = λ line. ok known;
  to_string = λ r. written_as "grant" (GrantRecord-discrete r known);
  payload = λ r. ok [];
  line_hash = λ line. 1 ∷ [];
}

visible : is_blank "grant" ≡ false
unfolding is_blank is_white_space
visible = refl

one_line : is_one_line "grant" ≡ true
unfolding is_one_line
one_line = refl

text-IsReadable : IsReadable text
text-IsReadable = record {
  from_str-to_string = λ r line h. read_back "grant" (GrantRecord-discrete r known) line h;
  to_string_visible = λ r line h.
      subst (λ t. is_blank t ≡ false) (writes_only "grant" (GrantRecord-discrete r known) line h)
        visible;
  to_string_one_line = λ r line h.
      subst (λ t. is_one_line t ≡ true) (writes_only "grant" (GrantRecord-discrete r known) line h)
        one_line;
}

-- An empty log, and the text of a log of one line.
nothing_ends : ends_line "" ≡ true
unfolding ends_line
nothing_ends = refl

appended :
    append_grant_records text checksum scheme "issuer" [] (pos 10) (some "") ((issued, grant) ∷ [])
    ≡ ok "grant\n"
unfolding append_grant_records lines_for signed_record lines_of load_lines last_hash buffer
appended = ground (arith, writes "grant" (GrantRecord-discrete known known))

append_grant_records-load_grant_records_example :
    (old : List GrantRecord) × (added : List GrantRecord) × (load_grant_records text (some "")
      ≡ ok old)
    × (load_grant_records text (some "grant\n") ≡ ok (old ++ added))
    × AllRecords "issuer" (pos 10) ((issued, grant) ∷ []) added
    × (ends_line "grant\n" ≡ true)
append_grant_records-load_grant_records_example =
    append_grant_records-load_grant_records text text-IsReadable checksum scheme "issuer" []
      (pos 10) (some "") ((issued, grant) ∷ []) "grant\n" nothing_ends appended

entitlement_at_iff_example :
    (entitlement_at (known ∷ []) "source:owner" "k1" medium "repo:dent8" (pos 20) ≡ entitled) ↔ (
      (g : GrantRecord) × StandsIn "source:owner" "k1" (pos 20) g (known ∷ [])
      × Covers g medium "repo:dent8" (pos 20))
entitlement_at_iff_example =
    entitlement_at_iff (known ∷ []) "source:owner" "k1" medium "repo:dent8" (pos 20)
