-- ===== src/Identity/Text.antt =====
-- The text of the grant log of crates/dent8-cli/src/identity/records.rs: `str::lines`, and the lines that are appended.
use Prim.Native.Char.{Char, code}
use Prim.Native.String.{◌++◌ as concat}
use Prim.Native.String.append
use dent.Prelude.{
  String, Bool, true, false, not, ◌&&◌, ◌≡◌, ◌≢◌, refl, sym, ap, ◌∙◌, List, [], ◌∷◌, ◌++◌, All,
  arith, nat_eq, if◌then◌else◌,
}

abbrev is_newline : Char → Bool
is_newline c = nat_eq (code c) 10

abbrev is_return : Char → Bool
is_return c = nat_eq (code c) 13

abbrev starts_newline : String → Bool
starts_newline String.[] = false
starts_newline (String.◌∷◌ c s) = is_newline c

abbrev push_front : Char → List String → List String
push_front c [] = String.◌∷◌ c String.[] ∷ []
push_front c (line ∷ lines) = String.◌∷◌ c line ∷ lines

-- The lines with a character before them, which stands before a newline or not.
abbrev pub add_front : Char → Bool → List String → List String
add_front c before_newline lines =
    if is_newline c
    then String.[] ∷ lines
    else if is_return c && before_newline
    then lines
    else push_front c lines

-- `str::lines`: a line ends before a newline, or a carriage return and a newline, or at the end of a text that does
-- not end in a newline.
unfoldable pub lines_of : String → List String
lines_of String.[] = []
lines_of (String.◌∷◌ c s) = add_front c (starts_newline s) (lines_of s)

-- Each line pushed, and a newline behind it.
unfoldable pub buffer : List String → String
buffer [] = String.[]
buffer (line ∷ lines) = concat line (concat "\n" (buffer lines))

-- No newline and no carriage return.
unfoldable pub is_one_line : String → Bool
is_one_line String.[] = true
is_one_line (String.◌∷◌ c s) = not (is_newline c) && not (is_return c) && is_one_line s

-- Nothing, or a text that ends in a newline.
unfoldable pub ends_line : String → Bool
ends_line String.[] = true
ends_line (String.◌∷◌ c s) =
    let rest = ends_line s in elim s [ String.[] ↦ is_newline c | String.◌∷◌ d t ↦ rest ]

push_front_some : (c : Char) (ls : List String) → push_front c ls ≢ []
push_front_some c [] h = cc
push_front_some c (l ∷ ls) h = cc

some_line : (c : Char) (s : String) → lines_of (String.◌∷◌ c s) ≢ []
unfolding lines_of
some_line c String.[] h = ground (arith, push_front_some c [])
some_line c (String.◌∷◌ d s) h =
    ground (arith, some_line d s, push_front_some c (lines_of (String.◌∷◌ d s)))

push_front-append :
    (c : Char) (xs ys : List String) → xs ≢ [] → push_front c (xs ++ ys) ≡ push_front c xs ++ ys
push_front-append c [] ys h = absurd (h refl)
push_front-append c (x ∷ xs) ys h = refl

add_front-append :
    (c : Char) (b : Bool) (xs ys : List String)
    → xs ≢ []
    → add_front c b (xs ++ ys) ≡ add_front c b xs ++ ys
add_front-append c b xs ys h = ground (arith, push_front-append c xs ys h)

-- Text behind a text that ends in a newline, or behind nothing, adds its own lines.
pub lines_of-concat :
    (t u : String) → ends_line t ≡ true → lines_of (concat t u) ≡ lines_of t ++ lines_of u
unfolding lines_of ends_line
lines_of-concat String.[] u h = rw (append.nil u) refl
lines_of-concat (String.◌∷◌ c String.[]) u h =
    rw (append.cons c String.[] u, append.nil u) (ground (arith, h))
lines_of-concat (String.◌∷◌ c (String.◌∷◌ d s)) u h =
    let ih = lines_of-concat (String.◌∷◌ d s) u h in
    let whole : concat (String.◌∷◌ d s) u ≡ String.◌∷◌ d (concat s u) = append.cons d s u in
    rw (append.cons c (String.◌∷◌ d s) u) (
      ap (λ b. add_front c b (lines_of (concat (String.◌∷◌ d s) u))) (ap starts_newline whole)
      ∙ (ap (add_front c (is_newline d)) ih
          ∙ add_front-append c (is_newline d) (lines_of (String.◌∷◌ d s)) (lines_of u)
              (some_line d s)))

newline_front : (rest : String) → concat "\n" rest ≡ String.◌∷◌ "\n" rest
newline_front rest = append.cons "\n" String.[] rest ∙ ap (String.◌∷◌ "\n") (append.nil rest)

-- A line that was pushed with a newline behind it is the first line.
line_first :
    (line rest : String)
    → is_one_line line ≡ true
    → lines_of (concat line (concat "\n" rest)) ≡ line ∷ lines_of rest
unfolding lines_of is_one_line
line_first String.[] rest h =
    rw (append.nil (concat "\n" rest)) (ap lines_of (newline_front rest) ∙ refl)
line_first (String.◌∷◌ c s) rest h =
    let ih = line_first s rest (ground (arith, h)) in
    rw (append.cons c s (concat "\n" rest)) (ground (arith, h, ih))

-- What was pushed is read back line by line.
pub lines_of-buffer :
    (lines : List String) → All (λ l. is_one_line l ≡ true) lines → lines_of (buffer lines) ≡ lines
unfolding buffer lines_of
lines_of-buffer [] h = refl
lines_of-buffer (line ∷ lines) h =
    line_first line (buffer lines) h.0 ∙ ap (λ ls. line ∷ ls) (lines_of-buffer lines h.1)

ends_cons :
    (c : Char) (w : String) → w ≢ String.[] → ends_line w ≡ true → ends_line (String.◌∷◌ c w) ≡ true
unfolding ends_line
ends_cons c String.[] n h = absurd (n refl)
ends_cons c (String.◌∷◌ d w) n h = h

concat_some : (t : String) (d : Char) (v : String) → concat t (String.◌∷◌ d v) ≢ String.[]
concat_some String.[] d v h = absurd (let e = sym (append.nil (String.◌∷◌ d v)) ∙ h in cc)
concat_some (String.◌∷◌ c t) d v h =
    absurd (let e = sym (append.cons c t (String.◌∷◌ d v)) ∙ h in cc)

ends_behind :
    (t : String) (d : Char) (v : String)
    → ends_line (String.◌∷◌ d v) ≡ true
    → ends_line (concat t (String.◌∷◌ d v)) ≡ true
ends_behind String.[] d v h = ap ends_line (append.nil (String.◌∷◌ d v)) ∙ h
ends_behind (String.◌∷◌ c t) d v h =
    ap ends_line (append.cons c t (String.◌∷◌ d v))
    ∙ ends_cons c (concat t (String.◌∷◌ d v)) (concat_some t d v) (ends_behind t d v h)

concat_nothing : (t : String) → concat t String.[] ≡ t
concat_nothing String.[] = append.nil String.[]
concat_nothing (String.◌∷◌ c t) = append.cons c t String.[] ∙ ap (String.◌∷◌ c) (concat_nothing t)

pub ends_line-concat :
    (t u : String) → ends_line t ≡ true → ends_line u ≡ true → ends_line (concat t u) ≡ true
ends_line-concat t String.[] h k = ap ends_line (concat_nothing t) ∙ h
ends_line-concat t (String.◌∷◌ d v) h k = ends_behind t d v k

newline_ends : (u : String) → ends_line u ≡ true → ends_line (String.◌∷◌ "\n" u) ≡ true
unfolding ends_line
newline_ends String.[] h = refl
newline_ends (String.◌∷◌ d u) h = h

-- What was pushed ends in a newline.
pub ends_line-buffer : (lines : List String) → ends_line (buffer lines) ≡ true
unfolding buffer ends_line
ends_line-buffer [] = refl
ends_line-buffer (line ∷ lines) =
    ap (λ x. ends_line (concat line x)) (newline_front (buffer lines))
    ∙ ends_behind line "\n" (buffer lines) (newline_ends (buffer lines) (ends_line-buffer lines))
