-- ===== src/Identity/Chained.antt =====
-- The chain of the grant log of crates/dent8-cli/src/identity/records.rs: what is appended loads again.
use Prim.Native.String.{◌++◌ as concat}
use dent.Identity.Text.{
  lines_of, buffer, is_one_line, ends_line, lines_of-concat, lines_of-buffer, ends_line-concat,
  ends_line-buffer,
}
use dent.Prelude.{true, All, ap, ◌∙◌, unwrap_or, bind_inverts}
use dent.Prelude.{
  ok_injective, String, ◌≡◌, refl, subst, Option, none, some, List, [], ◌∷◌, ◌++◌, arith, ok,
  Result-cases, Bool-cases, inl, inr,
}
use dent.Model.{TimestampMillis, is_blank}
use dent.Hash.{Bytes, Codec}
use dent.Anchor.History.{head_eq_self}
use dent.Anchor.Signed.{Ed25519}
use dent.Identity.{
  GrantAction, GrantRecord, SignedSourceGrant, Lines, IsReadable, load_lines, load_grant_records,
  last_hash, signed_record, lines_for, append_grant_records, unsigned_record, grant_record_payload,
}

-- A record that says what an entry does, by whom and when.
pub record Records (by : String) (time : TimestampMillis) (action : GrantAction)
    (grant : SignedSourceGrant) (r : GrantRecord) : Type 0 where
  pub acts : r.action ≡ action
  pub names : r.grant_signature ≡ grant.signature
  pub sources : r.source ≡ grant.grant.source
  pub keys : r.public_key ≡ grant.grant.public_key
  pub caps : r.max_authority ≡ grant.grant.max_authority
  pub scopes : r.scope ≡ grant.grant.scope
  pub expires : r.expires_at_ms ≡ grant.grant.expires_at_ms
  pub dated : r.at_ms ≡ time
  pub issued_by : r.issuer ≡ by

abbrev pub AllRecords :
    String → TimestampMillis → List (GrantAction × SignedSourceGrant) → List GrantRecord → Type 0
AllRecords issuer at_ms [] [] = Unit
AllRecords issuer at_ms ((action, grant) ∷ entries) (r ∷ records) =
    Records issuer at_ms action grant r × AllRecords issuer at_ms entries records
AllRecords _ _ _ _ = ⊥

module _ (l : Lines) where
  load_lines-append :
      (previous : Option Bytes) (xs ys : List String) (old added : List GrantRecord)
      → load_lines l previous xs ≡ ok old
      → load_lines l (last_hash l previous xs) ys ≡ ok added
      → load_lines l previous (xs ++ ys) ≡ ok (old ++ added)
  unfolding load_lines last_hash
  load_lines-append previous [] ys old added a b = ground arith
  load_lines-append previous (x ∷ xs) ys old added a b = elim (Bool-cases (is_blank x)) [
    | inl blank ↦ ground (arith, load_lines-append previous xs ys old added)
    | inr visible ↦ elim (Result-cases (l.from_str x)) [
      | inr (e, bad) ↦ absurd (ground arith)
      | inl (r, read) ↦ elim (Result-cases (load_lines l (some (l.line_hash x)) xs)) [
        | inr (e, bad) ↦ absurd (ground arith)
        | inl (rest, loaded) ↦
            let further = load_lines-append (some (l.line_hash x)) xs ys rest added loaded in
            ground (arith, further)
      ]
    ]
  ]

  module _ (f : IsReadable l) (c : Codec) (d : Ed25519) (issuer : String) (issuer_key : Bytes)
      (at_ms : TimestampMillis) where
    signed_record-Records :
        (action : GrantAction) (grant : SignedSourceGrant) (previous : Option Bytes)
        (r : GrantRecord)
        → signed_record l c d issuer issuer_key at_ms action grant previous ≡ ok r
        → Records issuer at_ms action grant r × (r.previous_record_hash ≡ previous)
    unfolding signed_record
    signed_record-Records action grant previous r h =
        elim (Result-cases (
          l.payload (
            grant_record_payload
              (unsigned_record l c d issuer issuer_key at_ms action grant previous)))) [
                | inr (e, bad) ↦ absurd (ground arith)
                | inl (body, written) ↦ (
                  record {
                    acts = ground arith;
                    names = ground arith;
                    sources = ground arith;
                    keys = ground arith;
                    caps = ground arith;
                    scopes = ground arith;
                    expires = ground arith;
                    dated = ground arith;
                    issued_by = ground arith;
                  },
                  ground arith,
                )
              ]

    lines_for-load_lines :
        (previous : Option Bytes) (entries : List (GrantAction × SignedSourceGrant))
        (lines : List String)
        → lines_for l c d issuer issuer_key at_ms previous entries ≡ ok lines
        → (records : List GrantRecord) × (load_lines l previous lines ≡ ok records)
          × AllRecords issuer at_ms entries records
    unfolding lines_for load_lines
    lines_for-load_lines previous [] lines h =
        ([], subst (λ x. load_lines l previous x ≡ ok []) (ok_injective h) refl, tt)
    lines_for-load_lines previous ((action, grant) ∷ entries) lines h =
        elim (Result-cases (signed_record l c d issuer issuer_key at_ms action grant previous)) [
          | inr (e, bad) ↦ absurd (ground arith)
          | inl (r, signed) ↦ elim (Result-cases (l.to_string r)) [
            | inr (e, bad) ↦ absurd (ground arith)
            | inl (line, written) ↦
                elim (Result-cases
                  (lines_for l c d issuer issuer_key at_ms (some (l.line_hash line)) entries)) [
                    | inr (e, bad) ↦ absurd (ground arith)
                    | inl (rest, more) ↦
                        let (states, linked) =
                          signed_record-Records action grant previous r signed in
                        let (records, loaded, all) =
                          lines_for-load_lines (some (l.line_hash line)) entries rest more in
                        let first : line ∷ rest ≡ lines = ground arith in
                        (
                          r ∷ records,
                          subst (λ x. load_lines l previous x ≡ ok (r ∷ records)) first
                              (rw (
                                f.to_string_visible r line written,
                                f.from_str-to_string r line written,
                                linked,
                                head_eq_self previous,
                                loaded,
                              )),
                          (states, all),
                        )
                  ]
          ]
        ]

    lines_for-IsOneLine :
        (previous : Option Bytes) (entries : List (GrantAction × SignedSourceGrant))
        (lines : List String)
        → lines_for l c d issuer issuer_key at_ms previous entries ≡ ok lines
        → All (λ x. is_one_line x ≡ true) lines
    unfolding lines_for
    lines_for-IsOneLine previous [] lines h =
        subst (All (λ x. is_one_line x ≡ true)) (ok_injective h) tt
    lines_for-IsOneLine previous ((action, grant) ∷ entries) lines h =
        let (r, (signed, h1)) =
          bind_inverts (signed_record l c d issuer issuer_key at_ms action grant previous) _ h in
        let (line, (written, h2)) = bind_inverts (l.to_string r) _ h1 in
        let (rest, (more, h3)) =
          bind_inverts (lines_for l c d issuer issuer_key at_ms (some (l.line_hash line)) entries) _
            h2 in
        subst (All (λ x. is_one_line x ≡ true)) (ok_injective h3) (
          f.to_string_one_line r line written,
          lines_for-IsOneLine (some (l.line_hash line)) entries rest more,
        )

    -- Entries that were appended to a grant log that is missing, empty or ends in a newline load from it, behind what it
    -- held and in order, each with its action, its grant, the issuer and the time, and the log ends in a newline again,
    -- or is empty.
    pub append_grant_records-load_grant_records :
        (log : Option String) (entries : List (GrantAction × SignedSourceGrant)) (contents : String)
        → ends_line (unwrap_or log "") ≡ true
        → append_grant_records l c d issuer issuer_key at_ms log entries ≡ ok contents
        → (old added : List GrantRecord) × (load_grant_records l log ≡ ok old)
          × (load_grant_records l (some contents) ≡ ok (old ++ added))
          × AllRecords issuer at_ms entries added
          × (ends_line contents ≡ true)
    unfolding append_grant_records load_grant_records
    append_grant_records-load_grant_records none entries contents whole h =
        let (lines, (made, h1)) =
          bind_inverts (lines_for l c d issuer issuer_key at_ms none entries) _ h in
        let (added, loaded, all) = lines_for-load_lines none entries lines made in
        let split = lines_of-buffer lines (lines_for-IsOneLine none entries lines made) in
        let is : buffer lines ≡ contents = ok_injective h1 in
        (
          [],
          added,
          refl,
          subst (λ x. load_lines l none (lines_of x) ≡ ok added) is
              (ap (load_lines l none) split ∙ loaded),
          all,
          subst (λ x. ends_line x ≡ true) is (ends_line-buffer lines),
        )
    append_grant_records-load_grant_records (some before) entries contents whole h =
        let (old, (held, h1)) = bind_inverts (load_lines l none (lines_of before)) _ h in
        let last = last_hash l none (lines_of before) in
        let (lines, (made, h2)) =
          bind_inverts (lines_for l c d issuer issuer_key at_ms last entries) _ h1 in
        let (added, loaded, all) = lines_for-load_lines last entries lines made in
        let split = lines_of-buffer lines (lines_for-IsOneLine last entries lines made) in
        let is : concat before (buffer lines) ≡ contents = ok_injective h2 in
        (
          old,
          added,
          held,
          subst (λ x. load_lines l none (lines_of x) ≡ ok (old ++ added)) is
              (ap (load_lines l none) (
                  lines_of-concat before (buffer lines) whole
                  ∙ ap (λ x. lines_of before ++ x) split)
                ∙ load_lines-append none (lines_of before) lines old added held loaded),
          all,
          subst (λ x. ends_line x ≡ true) is
              (ends_line-concat before (buffer lines) whole (ends_line-buffer lines)),
        )
