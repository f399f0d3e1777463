-- ===== src/Identity.antt =====
-- The grant log of crates/dent8-cli/src/identity/records.rs: its chained lines, and what its history says of a write. The
-- log is the text of its file, or nothing where there is no file. JSON, digests and signatures are arguments.
pub mod Text
pub mod Entitle
pub mod Chained
use Prim.Native.String.{◌++◌ as concat}
use dent.Identity.Text.{lines_of, buffer, is_one_line}
use dent.Prelude.{
  ℕ, String, Bool, true, false, ◌≡◌, not, ◌&&◌, ◌||◌, Option, none, some, List, [], ◌∷◌, ◌++◌, ◌==◌,
  if◌then◌else◌, is_some_and, length, any, Result, ok, err, ◌>>=◌, ◌>>◌,
}
use dent.Prelude.Int.{ltb_ℤ}
use dent.Model.{AuthorityLevel, level_lt, TimestampMillis, is_blank}
use dent.Hash.{Bytes, u64_be, Codec}
use dent.Anchor.{head_eq}
use dent.Anchor.Signed.{Ed25519}

pub data GrantAction : Type 0 where
  issued revoked : GrantAction

abbrev pub is_issued : GrantAction → Bool
is_issued issued = true
is_issued revoked = false

-- Keys are text, digests and signatures bytes.
pub record GrantRecord : Type 0 where
  pub action : GrantAction
  pub grant_signature : String
  pub source : String
  pub public_key : String
  pub max_authority : AuthorityLevel
  pub scope : Option String
  pub expires_at_ms : Option TimestampMillis
  pub at_ms : TimestampMillis
  pub issuer : String
  pub record_signature : Bytes
  pub previous_record_hash : Option Bytes

pub record SourceGrantPayload : Type 0 where
  pub version : ℕ
  pub source : String
  pub public_key : String
  pub max_authority : AuthorityLevel
  pub issuer : String
  pub scope : Option String
  pub expires_at_ms : Option TimestampMillis

-- The signature names the grant.
pub record SignedSourceGrant : Type 0 where
  pub grant : SourceGrantPayload
  pub signature : String

-- `b"dent8.grant-record.v1\0"`
abbrev pub grant_record_domain : Bytes
grant_record_domain =
    100 ∷ 101 ∷ 110 ∷ 116 ∷ 56 ∷ 46 ∷ 103 ∷ 114 ∷ 97 ∷ 110 ∷ 116 ∷ 45 ∷ 114 ∷ 101 ∷ 99 ∷ 111 ∷ 114
    ∷ 100 ∷ 46 ∷ 118 ∷ 49 ∷ 0 ∷ []

-- What a signature covers: a record without the signature and the link.
pub record GrantRecordPayload : Type 0 where
  pub action : GrantAction
  pub grant_signature : String
  pub source : String
  pub public_key : String
  pub max_authority : AuthorityLevel
  pub scope : Option String
  pub expires_at_ms : Option TimestampMillis
  pub at_ms : TimestampMillis
  pub issuer : String

abbrev pub grant_record_payload : GrantRecord → GrantRecordPayload
grant_record_payload r = record {
  action = r.action;
  grant_signature = r.grant_signature;
  source = r.source;
  public_key = r.public_key;
  max_authority = r.max_authority;
  scope = r.scope;
  expires_at_ms = r.expires_at_ms;
  at_ms = r.at_ms;
  issuer = r.issuer;
}

-- serde_json on a record, on what a record's signature covers, and the hash of a line.
pub record Lines : Type 0 where
  pub from_str : String → Result String GrantRecord
  pub to_string : GrantRecord → Result String String
  pub payload : GrantRecordPayload → Result String Bytes
  pub line_hash : String → Bytes

-- Reading undoes writing, and a written record is not blank and has no line break: serde_json escapes control characters.
pub record IsReadable (l : Lines) : Type 0 where
  pub from_str-to_string :
      (r : GrantRecord) (line : String) → l.to_string r ≡ ok line → l.from_str line ≡ ok r
  pub to_string_visible :
      (r : GrantRecord) (line : String) → l.to_string r ≡ ok line → is_blank line ≡ false
  pub to_string_one_line :
      (r : GrantRecord) (line : String) → l.to_string r ≡ ok line → is_one_line line ≡ true

abbrev pub framed : Bytes → Bytes → Bytes
framed domain body = domain ++ (u64_be (length body) ++ body)

module _ (l : Lines) where
  abbrev pub check_link : GrantRecord → Option Bytes → Result String (Unit {0})
  check_link r previous =
      if head_eq r.previous_record_hash previous then ok tt else err "grant log chain break"

  -- The loop of `load_grant_records`, from the hash of the line before.
  unfoldable pub load_lines : Option Bytes → List String → Result String (List GrantRecord)
  load_lines previous_hash [] = ok []
  load_lines previous_hash (line ∷ lines) =
      let skipped = load_lines previous_hash lines in
      let rest = load_lines (some (l.line_hash line)) lines in
      if is_blank line then skipped else do
        loaded ← l.from_str line
        check_link loaded previous_hash
        records ← rest
        ok (loaded ∷ records)

  unfoldable pub load_grant_records : Option String → Result String (List GrantRecord)
  load_grant_records none = ok []
  load_grant_records (some contents) = load_lines none (lines_of contents)

  -- The hash of the last line that is not blank, or the one at hand.
  unfoldable pub last_hash : Option Bytes → List String → Option Bytes
  last_hash previous [] = previous
  last_hash previous (line ∷ lines) =
      let skipped = last_hash previous lines in
      let rest = last_hash (some (l.line_hash line)) lines in
      if is_blank line then skipped else rest

  module _ (c : Codec) (d : Ed25519) (issuer : String) (issuer_key : Bytes)
      (at_ms : TimestampMillis) where
    abbrev pub unsigned_record : GrantAction → SignedSourceGrant → Option Bytes → GrantRecord
    unsigned_record action grant previous = record {
      action = action;
      grant_signature = grant.signature;
      source = grant.grant.source;
      public_key = grant.grant.public_key;
      max_authority = grant.grant.max_authority;
      scope = grant.grant.scope;
      expires_at_ms = grant.grant.expires_at_ms;
      at_ms = at_ms;
      issuer = issuer;
      record_signature = [];
      previous_record_hash = previous;
    }

    unfoldable pub signed_record :
        GrantAction → SignedSourceGrant → Option Bytes → Result String GrantRecord
    signed_record action grant previous = do
      let unsigned = unsigned_record action grant previous
      body ← l.payload (grant_record_payload unsigned)
      ok (record unsigned {
        record_signature = c.hex_encode (d.sign issuer_key (framed grant_record_domain body));
      })

    -- The lines for the entries, each linked to the one before.
    unfoldable pub lines_for :
        Option Bytes → List (GrantAction × SignedSourceGrant) → Result String (List String)
    lines_for previous [] = ok []
    lines_for previous ((action, grant) ∷ entries) = do
      signed ← signed_record action grant previous
      line ← l.to_string signed
      lines ← lines_for (some (l.line_hash line)) entries
      ok (line ∷ lines)

    -- The text of the log with the new lines behind it, where the log is whole.
    unfoldable pub append_grant_records :
        Option String → List (GrantAction × SignedSourceGrant) → Result String String
    append_grant_records none entries = do added ← lines_for none entries; ok (buffer added)
    append_grant_records (some contents) entries = do
      records ← load_lines none (lines_of contents)
      added ← lines_for (last_hash none (lines_of contents)) entries
      ok (concat contents (buffer added))

  unfoldable pub has_issued_record : Option String → String → Result String Bool
  has_issued_record log grant_signature = do
    records ← load_grant_records log
    ok (any (λ r. is_issued r.action && r.grant_signature == grant_signature) records)

-- What the text of an `Unentitled` tells.
pub data Violation : Type 0 where
  revoked_before expired exceeds out_of_scope : Violation

pub data Entitlement : Type 0 where
  entitled : Entitlement
  unentitled : Violation → Entitlement
  unknown : Entitlement

-- The grant that is active, and whether one was revoked since.
abbrev pub History : Type 0
History = Option GrantRecord × Bool

module _ (source public_key : String) (at_ms : TimestampMillis) where
  abbrev pub concerns : GrantRecord → Bool
  concerns r = r.source == source && r.public_key == public_key && not (ltb_ℤ at_ms r.at_ms)

  unfoldable pub revoke : GrantRecord → History → History
  revoke r (active, ended) =
      if is_some_and active (λ current. current.grant_signature == r.grant_signature)
      then (none, true)
      else (active, ended)

  unfoldable pub note : GrantRecord → History → History
  note r history =
      if concerns r
      then if is_issued r.action then (some r, false) else revoke r history
      else history

  unfoldable pub history_of : List GrantRecord → History → History
  history_of [] history = history
  history_of (r ∷ records) history = history_of records (note r history)

abbrev pub scope_covers : Option String → String → Bool
scope_covers none subject = true
scope_covers (some scope) subject = scope == "*" || scope == subject

abbrev pub has_expired : Option TimestampMillis → TimestampMillis → Bool
has_expired none at_ms = false
has_expired (some expires_at) at_ms = ltb_ℤ expires_at at_ms

-- The checks on the grant that is active.
unfoldable pub judge_grant : GrantRecord → AuthorityLevel → String → TimestampMillis → Entitlement
judge_grant grant authority subject at_ms =
    if has_expired grant.expires_at_ms at_ms
    then unentitled expired
    else if level_lt grant.max_authority authority
    then unentitled exceeds
    else if scope_covers grant.scope subject
    then entitled
    else unentitled out_of_scope

unfoldable pub resolve : History → AuthorityLevel → String → TimestampMillis → Entitlement
resolve (none, true) authority subject at_ms = unentitled revoked_before
resolve (none, false) authority subject at_ms = unknown
resolve (some grant, ended) authority subject at_ms = judge_grant grant authority subject at_ms

unfoldable pub entitlement_at :
    List GrantRecord → String → String → AuthorityLevel → String → TimestampMillis → Entitlement
entitlement_at records source public_key authority subject at_ms =
    resolve (history_of source public_key at_ms records (none, false)) authority subject at_ms
