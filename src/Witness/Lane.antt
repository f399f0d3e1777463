-- ===== src/Witness/Lane.antt =====
-- The check of the grant-log lane of crates/dent8-cli/src/witness.rs: when it accepts, and that signing keeps it so.
use dent.Prelude.{
  ℕ, zero, suc, ◌-◌, ◌≤◌, ◌<◌, String, false, ◌≡◌, ◌↔◌, refl, ap, sym, subst, ◌∙◌, Option, List, [],
  ◌∷◌, ◌++◌, arith, ltb, length, length-append, get_elem?, last, All, All-weaken, All-append,
  Result, ok, Result-cases, Option-cases, Bool-cases, inl, inr,
}
use dent.Hash.{Bytes, Codec, IsLawful}
use dent.Anchor.History.{head_eq_self, head_eq_sound}
use dent.Anchor.Signed.{Ed25519, IsSigning}
use dent.Witness.Ascending.{IsAscending, IsAscending-append}
use dent.Witness.Grants.{
  GrantLogHead, head_differs, check_position, grant_log_head_message, check_signature,
  check_grant_head, verify_grant_heads_from, verify_grant_heads, sign_grant_log_head, Attests,
}

abbrev pub records_of : GrantLogHead → ℕ
records_of head = head.record_count

same_head :
    (current : List Bytes) (head : GrantLogHead)
    → head_differs current head ≡ false
    → 0 < head.record_count
    → head.head ≡ get_elem? current (head.record_count - 1)
same_head current head h lt = head_eq_sound head.head _ (ground arith)

module _ (payload : ℕ → Option Bytes → Result String Bytes) (c : Codec) (d : Ed25519)
    (current : List Bytes) (verifying : Bytes) where
  accepted :
      (n : ℕ) (head : GrantLogHead)
      → check_grant_head payload c d current verifying n head ≡ ok tt
      → (n ≤ head.record_count) × Attests payload c d current verifying head
  unfolding check_grant_head check_position check_signature
  accepted n head h =
      elim (Result-cases (grant_log_head_message payload c d head.record_count head.head)) [
        | inr (x, k) ↦ absurd (ground arith)
        | inl (message, k) ↦ elim (Option-cases (c.hex_decode head.signature)) [
          | inl bad ↦ absurd (ground arith)
          | inr (signed, decoded) ↦ (
            ground arith,
            record {
              message = message;
              signed = signed;
              framed = k;
              decoded = decoded;
              sized = ground arith;
              verifies = ground arith;
              within = ground arith;
              matches = same_head current head (ground arith);
            },
          )
        ]
      ]

  same_differs :
      (head : GrantLogHead)
      → (0 < head.record_count → head.head ≡ get_elem? current (head.record_count - 1))
      → head_differs current head ≡ false
  same_differs head h = elim (Bool-cases (ltb 0 head.record_count)) [
    | inr nothing ↦ ground arith
    | inl some_records ↦ let e = h (ground arith) in ground (arith, head_eq_self head.head)
  ]

  accepts :
      (n : ℕ) (head : GrantLogHead)
      → n ≤ head.record_count
      → Attests payload c d current verifying head
      → check_grant_head payload c d current verifying n head ≡ ok tt
  unfolding check_grant_head check_position check_signature
  accepts n head le a =
      rw (a.framed, a.decoded, check_signature, a.sized, a.verifies)
        (ground (arith, same_differs head a.matches, a.within))

  verify_grant_heads_from_iff :
      (n : ℕ) (heads : List GrantLogHead)
      → (verify_grant_heads_from payload c d current verifying n heads ≡ ok (length heads))
        ↔ (IsAscending records_of n heads × All (Attests payload c d current verifying) heads)
  unfolding verify_grant_heads_from
  verify_grant_heads_from_iff n [] = (λ h. (tt, tt), λ h. refl)
  verify_grant_heads_from_iff n (head ∷ heads) =
      let ih = verify_grant_heads_from_iff head.record_count heads in
      (
        λ h. elim (Result-cases (check_grant_head payload c d current verifying n head)) [
          | inr (x, k) ↦ absurd (ground arith)
          | inl (tt, k) ↦
              elim (Result-cases
                (verify_grant_heads_from payload c d current verifying head.record_count heads)) [
                  | inr (x, later) ↦ absurd (ground arith)
                  | inl (m, later) ↦
                      let (le, attests) = accepted n head k in
                      let (up, all) = ih.0 (ground arith) in ((le, up), (attests, all))
                ]
        ],
        λ h. ground (arith, accepts n head h.0.0 h.1.0, ih.1 (h.0.1, h.1.1)),
      )

  -- The lane passes exactly when its counts do not fall, and each head is signed by the key, at a count that the grant
  -- log reaches, with the hash of the line at that count.
  pub verify_grant_heads_iff :
      (heads : List GrantLogHead)
      → (verify_grant_heads payload c d heads current verifying ≡ ok (length heads))
        ↔ (IsAscending records_of 0 heads × All (Attests payload c d current verifying) heads)
  unfolding verify_grant_heads
  verify_grant_heads_iff heads = verify_grant_heads_from_iff 0 heads

get_elem?-append :
    (xs ys : List Bytes) (i : ℕ) → i < length xs → get_elem? (xs ++ ys) i ≡ get_elem? xs i
get_elem?-append [] ys i h = absurd (omega arith)
get_elem?-append (x ∷ xs) ys zero h = refl
get_elem?-append (x ∷ xs) ys (suc i) h = get_elem?-append xs ys i (omega arith)

last-get_elem? : (x : Bytes) (xs : List Bytes) → last (x ∷ xs) ≡ get_elem? (x ∷ xs) (length xs)
last-get_elem? x [] = refl
last-get_elem? x (y ∷ xs) = last-get_elem? y xs

last_line : (xs : List Bytes) → 0 < length xs → last xs ≡ get_elem? xs (length xs - 1)
last_line [] h = absurd (omega arith)
last_line (x ∷ xs) h = last-get_elem? x xs ∙ ap (λ i. get_elem? (x ∷ xs) i) (omega arith)

module _ (payload : ℕ → Option Bytes → Result String Bytes) (c : Codec) (d : Ed25519) where
  Attests-grows :
      (xs ys : List Bytes) (key : Bytes) (head : GrantLogHead)
      → Attests payload c d xs key head
      → Attests payload c d (xs ++ ys) key head
  Attests-grows xs ys key head a = record {
    message = a.message;
    signed = a.signed;
    framed = a.framed;
    decoded = a.decoded;
    sized = a.sized;
    verifies = a.verifies;
    within = omega (arith, length-append xs ys, a.within);
    matches = λ lt.
        a.matches lt
        ∙ sym (get_elem?-append xs ys (head.record_count - 1) (omega (arith, a.within, lt)));
  }

  signed_Attests :
      (xs : List Bytes) (key : Bytes) (head : GrantLogHead)
      → IsLawful c
      → IsSigning d
      → sign_grant_log_head payload c d xs key ≡ ok head
      → (head.record_count ≡ length xs) × Attests payload c d xs (d.verifying_key key) head
  unfolding sign_grant_log_head
  signed_Attests xs key head lawful signing h =
      elim (Result-cases (grant_log_head_message payload c d (length xs) (last xs))) [
        | inr (x, k) ↦ absurd (ground arith)
        | inl (message, k) ↦
            let made : (record {
              record_count = length xs;
              head = last xs;
              signature = c.hex_encode (d.sign key message);
            })
                ≡ head =
              ground arith in
            subst
              (λ g. (g.record_count ≡ length xs) × Attests payload c d xs (d.verifying_key key) g)
              made
              (
                refl,
                record {
                  message = message;
                  signed = d.sign key message;
                  framed = k;
                  decoded =
                      lawful.decode-encode (d.sign key message)
                        (signing.signature_bytes key message);
                  sized = signing.signature_length key message;
                  verifies = signing.verify-sign key message;
                  within = omega arith;
                  matches = λ lt. last_line xs lt;
                },
              )
      ]

  -- A lane that passes against a grant log passes against the log grown by any lines, with a head that the same
  -- witness signs over the grown log behind it.
  pub verify_grant_heads-sign_grant_log_head :
      (xs ys : List Bytes) (key : Bytes) (heads : List GrantLogHead) (head : GrantLogHead)
      → IsLawful c
      → IsSigning d
      → verify_grant_heads payload c d heads xs (d.verifying_key key) ≡ ok (length heads)
      → sign_grant_log_head payload c d (xs ++ ys) key ≡ ok head
      → verify_grant_heads payload c d (heads ++ head ∷ []) (xs ++ ys) (d.verifying_key key)
        ≡ ok (length (heads ++ head ∷ []))
  verify_grant_heads-sign_grant_log_head xs ys key heads head lawful signing h signed =
      let (up, all) = (verify_grant_heads_iff payload c d xs (d.verifying_key key) heads).0 h in
      let (counted, attests) = signed_Attests (xs ++ ys) key head lawful signing signed in
      let grown = All-weaken _ _ heads (λ x. Attests-grows xs ys (d.verifying_key key) x) all in
      (verify_grant_heads_iff payload c d (xs ++ ys) (d.verifying_key key) (heads ++ head ∷ [])).1 (
        IsAscending-append records_of 0 (length (xs ++ ys)) heads head (omega arith)
            (All-weaken _ _ heads (λ x a. a.within) grown) (omega (arith, counted)) up,
        All-append _ heads (head ∷ []) grown (attests, tt),
      )
