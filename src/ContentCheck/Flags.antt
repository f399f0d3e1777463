-- ===== src/ContentCheck/Flags.antt =====
-- The flag of crates/dent8-core/src/content_check.rs is found on an event that carries it.
use Prim.Native.String.{◌++◌ as concat}
use Prim.Native.String.append
use dent.Prelude.{String, ◌≡◌, refl, some, List, [], ◌∷◌, ◌++◌, arith, Option-cases, inl, inr}
use dent.Model.{FactEvent, Evidence}
use dent.ContentCheck.{
  ContentCheckConfig, ContentFlag, strip_prefix, flag_of, first_flag, content_flag, flagged,
  flag_evidence, content_flag_locator_prefix, scanner_name,
}

strip_prefix-concat : (p s : String) → strip_prefix p (concat p s) ≡ some s
unfolding strip_prefix
strip_prefix-concat String.[] s = rw (append.nil s) refl
strip_prefix-concat (String.◌∷◌ c p) s =
    rw (append.cons c p s) (ground (arith, strip_prefix-concat p s))

first_flag-append :
    (xs : List Evidence) (y : Evidence) (f : ContentFlag)
    → flag_of y ≡ some f
    → (g : ContentFlag) × (first_flag (xs ++ y ∷ []) ≡ some g)
unfolding first_flag
first_flag-append [] y f h = (f, rw (h, first_flag))
first_flag-append (x ∷ xs) y f h = elim (Option-cases (flag_of x)) [
  | inr (g, found) ↦ (g, rw (found, first_flag))
  | inl nothing ↦ let (g, later) = first_flag-append xs y f h in (g, rw (nothing, first_flag) later)
]

-- A flagged event has a flag.
pub content_flag-flagged :
    (config : ContentCheckConfig) (event : FactEvent) (reason : String)
    → (g : ContentFlag) × (content_flag (flagged config event reason) ≡ some g)
unfolding content_flag
content_flag-flagged config event reason =
    first_flag-append event.evidence (flag_evidence event (scanner_name config) reason)
      (record { scanner = config.program; reason = reason })
      (rw (strip_prefix-concat content_flag_locator_prefix config.program, flag_of))
