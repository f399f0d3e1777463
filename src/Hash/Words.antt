-- ===== src/Hash/Words.antt =====
-- Bytes, and the big-endian bytes of a `u64`.
use native.Mathlib.Decide.{ℕ_discrete}
use native.Mathlib.Nat.{pow-suc}
use dent.Prelude.{
  ◌↔◌, Bool, true, false, ◌&&◌, nat_eq, ℕ, zero, suc, ◌/◌, ◌%◌, ◌^◌, ◌<◌, ◌≡◌, refl, List, [], ◌∷◌,
  ◌++◌, arith, length, length-append, All,
}

abbrev pub Bytes : Type 0
Bytes = List ℕ

abbrev pub IsBytes : Bytes → Type 0
IsBytes bs = All (λ b. b < 256) bs

pub bytes_discrete : Discrete Bytes
bytes_discrete = hlevel ℕ_discrete

-- `n.to_be_bytes()`, of a number of `width` bytes.
unfoldable pub be_bytes : ℕ → ℕ → Bytes
be_bytes zero n = []
be_bytes (suc width) n = be_bytes width (n / 256) ++ (n % 256) ∷ []

abbrev pub u64_modulus : ℕ
u64_modulus = 18446744073709551616

-- `(n as u64).to_be_bytes()`
abbrev pub u64_be : ℕ → Bytes
u64_be n = be_bytes 8 (n % u64_modulus)

pub length-be_bytes : (width n : ℕ) → length (be_bytes width n) ≡ width
unfolding be_bytes
length-be_bytes zero n = refl
length-be_bytes (suc width) n = omega (
  arith,
  length-append (be_bytes width (n / 256)) ((n % 256) ∷ []),
  length-be_bytes width (n / 256),
)

-- Two equal concatenations whose first parts are as long are equal part by part.
pub append-split {ℓ} :
    {A : Type ℓ} (xs ys us vs : List A)
    → length xs ≡ length us
    → xs ++ ys ≡ us ++ vs
    → (xs ≡ us) × (ys ≡ vs)
append-split [] ys [] vs l h = (refl, h)
append-split [] ys (u ∷ us) vs l h = absurd (omega arith)
append-split (x ∷ xs) ys [] vs l h = absurd (omega arith)
append-split (x ∷ xs) ys (u ∷ us) vs l h =
    let rest = append-split xs ys us vs (omega arith) (tail_eq h) in
    (cc (head_eq h, rest.0), rest.1)
  where
    tail_eq : x ∷ (xs ++ ys) ≡ u ∷ (us ++ vs) → xs ++ ys ≡ us ++ vs
    tail_eq e = cc

    head_eq : x ∷ (xs ++ ys) ≡ u ∷ (us ++ vs) → x ≡ u
    head_eq e = cc

pub be_bytes-injective :
    (width m n : ℕ)
    → m < 256 ^ width
    → n < 256 ^ width
    → be_bytes width m ≡ be_bytes width n
    → m ≡ n
unfolding be_bytes
be_bytes-injective zero m n a b h = omega arith
be_bytes-injective (suc width) m n a b h =
    let parts =
      append-split (be_bytes width (m / 256)) ((m % 256) ∷ []) (be_bytes width (n / 256))
        ((n % 256) ∷ [])
        (omega (arith, length-be_bytes width (m / 256), length-be_bytes width (n / 256))) h in
    let high =
      be_bytes-injective width (m / 256) (n / 256) (omega (arith, pow-suc 256 width))
        (omega (arith, pow-suc 256 width)) parts.0 in
    let low : m % 256 ≡ n % 256 = cc (parts.1) in omega (arith, high, low)

pub u64_be-injective : (m n : ℕ) → m < u64_modulus → n < u64_modulus → u64_be m ≡ u64_be n → m ≡ n
u64_be-injective m n a b h =
    omega (
      arith,
      be_bytes-injective 8 (m % u64_modulus) (n % u64_modulus) (omega arith) (omega arith) h,
    )

-- The derived `PartialEq` of texts.
abbrev pub bytes_eq : Bytes → Bytes → Bool
bytes_eq [] [] = true
bytes_eq (a ∷ as') (b ∷ bs) = nat_eq a b && bytes_eq as' bs
bytes_eq _ _ = false

pub bytes_eq_iff : (a b : Bytes) → (bytes_eq a b ≡ true) ↔ (a ≡ b)
bytes_eq_iff [] [] = (λ h. refl, λ h. refl)
bytes_eq_iff [] (b ∷ bs) = (λ h. cc, λ h. cc)
bytes_eq_iff (a ∷ as') [] = (λ h. cc, λ h. cc)
bytes_eq_iff (a ∷ as') (b ∷ bs) =
    (ground (arith, bytes_eq_iff as' bs), ground (arith, bytes_eq_iff as' bs))
