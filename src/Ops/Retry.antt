-- ===== src/Ops/Retry.antt =====
-- `with_write_retry` of crates/dent8-cli/src/ops.rs: the first attempt that settles is the answer.
use dent.Prelude.{
  subst, ◌∙◌, ℕ, zero, suc, ◌+◌, ◌<◌, String, ◌≡◌, refl, arith, Option, none, some, Result, ok, err,
}
use dent.Status.{ErrorCode}
use dent.Ops.{OpError, invalid, refused, contended, retry_from, with_write_retry, max_attempts}

-- An answer of the operation that is not a conflict.
abbrev pub outcome : Result OpError String → Option (Result OpError String)
outcome (ok text) = some (ok text)
outcome (err (contended message)) = none
outcome (err (invalid code message)) = some (err (invalid code message))
outcome (err (refused code message)) = some (err (refused code message))

module _ (lease : ℕ → Result String (Unit {0})) (op : ℕ → Result OpError String) where
  -- The answer of an attempt that got the lease.
  abbrev pub settled : ℕ → Option (Result OpError String)
  settled n = elim (lease n) [ err message ↦ none | ok _ ↦ outcome (op n) ]

  retry_moves_on :
      (left n : ℕ)
      → settled n ≡ none
      → retry_from lease op (suc left) n ≡ retry_from lease op left (suc n)
  unfolding retry_from
  retry_moves_on left n h = ground arith

  retry_settles :
      (left n : ℕ) (r : Result OpError String)
      → settled n ≡ some r
      → retry_from lease op (suc left) n ≡ r
  unfolding retry_from
  retry_settles left n r h = ground arith

  first_from :
      (left n k : ℕ) (r : Result OpError String)
      → k < left
      → settled (n + k) ≡ some r
      → ((m : ℕ) → m < k → settled (n + m) ≡ none)
      → retry_from lease op left n ≡ r
  first_from zero n k r lt s before = absurd (omega arith)
  first_from (suc left) n zero r lt s before =
      retry_settles left n r (subst (λ i. settled i ≡ some r) (omega arith) s)
  first_from (suc left) n (suc k) r lt s before =
      retry_moves_on left n (subst (λ i. settled i ≡ none) (omega arith) (before 0 (omega arith)))
      ∙ first_from left (suc n) k r (omega arith) (subst (λ i. settled i ≡ some r) (omega arith) s)
          (λ m lt'. subst (λ i. settled i ≡ none) (omega arith) (before (suc m) (omega arith)))

  none_from :
      (left n : ℕ)
      → ((m : ℕ) → m < left → settled (n + m) ≡ none)
      → retry_from lease op left n ≡ err (refused ErrorCode.rejected "write conflict persisted")
  unfolding retry_from
  none_from zero n before = refl
  none_from (suc left) n before =
      retry_moves_on left n (subst (λ i. settled i ≡ none) (omega arith) (before 0 (omega arith)))
      ∙ none_from left (suc n)
          (λ m lt. subst (λ i. settled i ≡ none) (omega arith) (before (suc m) (omega arith)))

  -- A write that some attempt among the 32 settles, by an answer that is no conflict under a lease that was granted,
  -- answers as the first such attempt does.
  pub with_write_retry_settles :
      (k : ℕ) (r : Result OpError String)
      → k < max_attempts
      → settled k ≡ some r
      → ((m : ℕ) → m < k → settled m ≡ none)
      → with_write_retry lease op ≡ r
  unfolding with_write_retry
  with_write_retry_settles k r lt s before =
      first_from max_attempts 0 k r lt (subst (λ i. settled i ≡ some r) (omega arith) s)
        (λ m h. subst (λ i. settled i ≡ none) (omega arith) (before m h))

  -- A write that no attempt settles is refused after the last.
  pub with_write_retry_gives_up :
      ((m : ℕ) → m < max_attempts → settled m ≡ none)
      → with_write_retry lease op ≡ err (refused ErrorCode.rejected "write conflict persisted")
  unfolding with_write_retry
  with_write_retry_gives_up before =
      none_from max_attempts 0 (λ m h. subst (λ i. settled i ≡ none) (omega arith) (before m h))
