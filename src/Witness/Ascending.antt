-- ===== src/Witness/Ascending.antt =====
-- Sequences of heads whose counts do not fall, as crates/dent8-cli/src/witness.rs wants of both of its lanes.
use dent.Prelude.{ℕ, ◌≤◌, List, [], ◌∷◌, ◌++◌, All, arith}

module _ {A : Type 0} (count : A → ℕ) where
  -- Counts that do not fall, from one that came before.
  abbrev pub IsAscending : ℕ → List A → Type 0
  IsAscending n [] = Unit
  IsAscending n (x ∷ xs) = (n ≤ count x) × IsAscending (count x) xs

  -- The count before what is put behind a list of heads.
  abbrev last_count : ℕ → List A → ℕ
  last_count n [] = n
  last_count n (x ∷ xs) = last_count (count x) xs

  append_behind :
      (n : ℕ) (xs : List A) (y : A)
      → IsAscending n xs
      → last_count n xs ≤ count y
      → IsAscending n (xs ++ y ∷ [])
  append_behind n [] y h le = (le, tt)
  append_behind n (x ∷ xs) y h le = (h.0, append_behind (count x) xs y h.1 le)

  last_count-le : (n k : ℕ) (xs : List A) → n ≤ k → All (λ x. count x ≤ k) xs → last_count n xs ≤ k
  last_count-le n k [] le h = le
  last_count-le n k (x ∷ xs) le h = last_count-le (count x) k xs h.0 h.1

  -- A head that no other exceeds goes behind them.
  pub IsAscending-append :
      (n k : ℕ) (xs : List A) (y : A)
      → n ≤ k
      → All (λ x. count x ≤ k) xs
      → k ≤ count y
      → IsAscending n xs
      → IsAscending n (xs ++ y ∷ [])
  IsAscending-append n k xs y low bound le h =
      append_behind n xs y h (omega (arith, last_count-le n k xs low bound))
