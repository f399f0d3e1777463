-- ===== src/Hash/Framing.antt =====
-- The framing of the messages that crates/dent8-core/src/hash.rs hashes and signs is injective.
use dent.Prelude.{◌<◌, ◌≡◌, refl, ◌∙◌, sym, Option, none, some, [], ◌∷◌, ◌++◌, length}
use dent.Hash.Words.{Bytes, u64_be, u64_modulus, length-be_bytes, append-split, u64_be-injective}
use dent.Hash.Chain.{leaf_prefix, canon_version, previous_part, leaf_message}

-- A list behind the `u64` of its length, and anything behind that.
pub framed_injective :
    (xs ys us vs : Bytes)
    → length xs < u64_modulus
    → length us < u64_modulus
    → u64_be (length xs) ++ (xs ++ ys) ≡ u64_be (length us) ++ (us ++ vs)
    → (xs ≡ us) × (ys ≡ vs)
framed_injective xs ys us vs a b h =
    let frame =
      append-split (u64_be (length xs)) (xs ++ ys) (u64_be (length us)) (us ++ vs)
        (length-be_bytes 8 _ ∙ sym (length-be_bytes 8 _)) h in
    append-split xs ys us vs (u64_be-injective (length xs) (length us) a b frame.0) frame.1

previous_part-injective : (p q : Option Bytes) → previous_part p ≡ previous_part q → p ≡ q
previous_part-injective none none h = refl
previous_part-injective none (some e) h = cc
previous_part-injective (some d) none h = cc
previous_part-injective (some d) (some e) h = cc

-- Two leaves hash one message only if they have the same canonical bytes and the same digest before them.
pub leaf_message-injective :
    (xs ys : Bytes) (p q : Option Bytes)
    → length xs < u64_modulus
    → length ys < u64_modulus
    → leaf_message xs p ≡ leaf_message ys q
    → (xs ≡ ys) × (p ≡ q)
unfolding leaf_message
leaf_message-injective xs ys p q a b h =
    let parts =
      framed_injective xs (previous_part p) ys (previous_part q) a b
        (append-split (leaf_prefix ∷ canon_version ∷ []) _ (leaf_prefix ∷ canon_version ∷ []) _ refl
          h).1 in
    (parts.0, previous_part-injective p q parts.1)
