-- ===== src/Anchor/Compare.antt =====
-- The constant-time comparison of crates/dent8-core/src/anchor.rs is a comparison.
use Prim.Native.Nat.{bit_xor, bit_or, digits, differ, max, bit_xor-bitwise, bit_or-bitwise}
use dent.Prelude.{
  ℕ, zero, suc, ◌≤◌, ◌/◌, ◌%◌, ◌≡◌, refl, ap, sym, ◌∙◌, ◌↔◌, true, [], ◌∷◌, arith, length,
}
use dent.Hash.{Bytes}
use dent.Anchor.{difference, constant_time_eq}

differ_self : (x : ℕ) → differ x x ≡ 0
differ_self zero = refl
differ_self (suc x) = differ_self x

differ_zero : (x y : ℕ) → differ x y ≡ 0 → x ≡ y
differ_zero zero y h = sym h
differ_zero (suc x) zero h = absurd (omega arith)
differ_zero (suc x) (suc y) h = ap suc (differ_zero x y h)

xor_digits_self : (n a : ℕ) → a ≤ n → digits (λ b. b) differ n a a ≡ 0
xor_digits_self zero a h = omega arith
xor_digits_self (suc n) zero h = refl
xor_digits_self (suc n) (suc a) h =
    omega (arith, xor_digits_self n (suc a / 2) (omega arith), differ_self (suc a % 2))

xor_digits_zero : (n a b : ℕ) → a ≤ n → digits (λ b. b) differ n a b ≡ 0 → a ≡ b
xor_digits_zero zero a b h e = omega arith
xor_digits_zero (suc n) zero b h e = sym e
xor_digits_zero (suc n) (suc a) b h e = omega (
  arith,
  xor_digits_zero n (suc a / 2) (b / 2) (omega arith) (omega arith),
  differ_zero (suc a % 2) (b % 2) (omega arith),
)

bit_xor_zero : (a b : ℕ) → (bit_xor a b ≡ 0) ↔ (a ≡ b)
bit_xor_zero a b = (
  λ h. xor_digits_zero a a b (omega arith) (sym (bit_xor-bitwise a b) ∙ h),
  λ h. ap (bit_xor a) (sym h) ∙ (bit_xor-bitwise a a ∙ xor_digits_self a a (omega arith)),
)

or_digits_zero : (n a b : ℕ) → a ≤ n → digits (λ b. b) max n a b ≡ 0 → (a ≡ 0) × (b ≡ 0)
or_digits_zero zero a b h e = (omega arith, e)
or_digits_zero (suc n) zero b h e = (refl, e)
or_digits_zero (suc n) (suc a) b h e =
    let r = or_digits_zero n (suc a / 2) (b / 2) (omega arith) (omega arith) in
    (absurd (omega (arith, r.0)), omega (arith, r.0, r.1))

bit_or_zero : (a b : ℕ) → (bit_or a b ≡ 0) ↔ ((a ≡ 0) × (b ≡ 0))
bit_or_zero a b = (
  λ h. or_digits_zero a a b (omega arith) (sym (bit_or-bitwise a b) ∙ h),
  λ h. rw (h.0, h.1) refl,
)

difference_zero :
    (d : ℕ) (xs ys : Bytes)
    → length xs ≡ length ys
    → (difference d xs ys ≡ 0) ↔ ((d ≡ 0) × (xs ≡ ys))
unfolding difference
difference_zero d [] [] l = (λ h. (h, refl), λ h. h.0)
difference_zero d [] (b ∷ ys) l = absurd (omega arith)
difference_zero d (a ∷ xs) [] l = absurd (omega arith)
difference_zero d (a ∷ xs) (b ∷ ys) l =
    let rest = difference_zero (bit_or d (bit_xor a b)) xs ys (omega arith) in
    let both = bit_or_zero d (bit_xor a b) in
    let one = bit_xor_zero a b in
    (
      λ h. let r = rest.0 h in let o = both.0 r.0 in let e = one.0 o.1 in (o.0, cc),
      λ h. rest.1 (both.1 (h.0, one.1 (cc)), cc),
    )

-- The constant-time comparison is true of equal byte strings and of no others.
pub constant_time_eq_lem : (xs ys : Bytes) → (constant_time_eq xs ys ≡ true) ↔ (xs ≡ ys)
unfolding constant_time_eq
constant_time_eq_lem xs ys = (
  λ h. let d = difference_zero 0 xs ys (ground arith) in (d.0 (ground arith)).1,
  λ h.
      let d = difference_zero 0 xs ys (ap length h) in
      let z = d.1 (refl, h) in ground (arith, z, ap length h),
)
