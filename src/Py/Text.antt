-- ===== src/Py/Text.antt =====
-- Texts: formatting, order, and the methods of `str` that the code calls.
use Prim.Native.Char.{Char, code}
use Prim.Native.String as S
use Prim.Native.String.{compare}
use acgps_public.Prelude.{
  ℕ, zero, suc, ◌+◌, ◌/◌, ◌%◌, String, Bool, true, false, not, ◌&&◌, ◌==◌, ◌||◌, Option, none, some,
  List, [], ◌∷◌, nat_eq, ltb, if◌then◌else◌,
}
use text.Mathlib.Text.{is_lt, find?}

-- The pieces of an f-string, one after the other.
unfoldable pub fmt : List String → String
fmt [] = ""
fmt (s ∷ ss) = S.◌++◌ s (fmt ss)

-- A decimal digit.
abbrev digit : ℕ → String
digit n =
    if nat_eq n 0
    then "0"
    else if nat_eq n 1
    then "1"
    else if nat_eq n 2
    then "2"
    else if nat_eq n 3
    then "3"
    else if nat_eq n 4
    then "4"
    else if nat_eq n 5
    then "5"
    else if nat_eq n 6
    then "6"
    else if nat_eq n 7
    then "7"
    else if nat_eq n 8
    then "8"
    else "9"

-- Decimal digits, before `rest`; a number has fewer digits than the fuel `n + 1`.
show_from : ℕ → ℕ → String → String
show_from zero n rest = rest
show_from (suc fuel) n rest =
    let more = show_from fuel (n / 10) (S.◌++◌ (digit (n % 10)) rest) in
    if ltb n 10 then S.◌++◌ (digit n) rest else more

-- `str(n)`
unfoldable pub show : ℕ → String
unfolding show_from
show n = show_from (n + 1) n ""

-- The least text of a list in code-point order: the head of `sorted(xs)`.
unfoldable pub least : List String → Option String
least [] = none
least (s ∷ ss) = elim (least ss) [
  | none ↦ some s
  | some t ↦ if is_lt (compare t s) then some t else some s
]

-- Puts a character before the first piece, or starts a new piece at a separator.
attach : Bool → Char → List String → List String
attach true d rest = S.[] ∷ rest
attach false d [] = (S.◌∷◌ d S.[]) ∷ []
attach false d (t ∷ rest) = (S.◌∷◌ d t) ∷ rest

-- `s.split(sep)` for a one-character separator with this code point.
unfoldable pub split_on : ℕ → String → List String
unfolding attach
split_on sep S.[] = S.[] ∷ []
split_on sep (S.◌∷◌ c s) = attach (nat_eq (code c) sep) c (split_on sep s)

-- Ascending code-point order.
unfoldable pub insert_sorted : String → List String → List String
insert_sorted s [] = s ∷ []
insert_sorted s (t ∷ ts) = if is_lt (compare t s) then t ∷ insert_sorted s ts else s ∷ t ∷ ts

-- `sorted(xs)`
unfoldable pub sorted : List String → List String
unfolding insert_sorted
sorted [] = []
sorted (s ∷ ss) = insert_sorted s (sorted ss)

-- `[s for s in xs if test(s)]`
unfoldable pub keep : (String → Bool) → List String → List String
keep test [] = []
keep test (s ∷ ss) = let rest = keep test ss in if test s then s ∷ rest else rest

-- `t in s`, for texts
unfoldable pub has_text : String → String → Bool
has_text t s = elim (find? s t) [ none ↦ false | some _ ↦ true ]

-- `chr(point) in s`
unfoldable pub has_char : ℕ → String → Bool
has_char point S.[] = false
has_char point (S.◌∷◌ c s) = nat_eq (code c) point || has_char point s

-- `set(xs)` as a list: the first of each text.
unfoldable pub to_set : List String → List String
to_set [] = []
to_set (s ∷ ss) = s ∷ keep (λ t. not (t == s)) (to_set ss)

-- `xs == ys`, on lists of texts
unfoldable pub texts_eq : List String → List String → Bool
texts_eq [] ys = elim ys [ [] ↦ true | _ ↦ false ]
texts_eq (x ∷ xs) ys = elim ys [ [] ↦ false | y ∷ zs ↦ x == y && texts_eq xs zs ]

-- `x == y`, on texts that may be `None`
abbrev pub optional_eq : Option String → Option String → Bool
optional_eq none none = true
optional_eq (some s) (some t) = s == t
optional_eq _ _ = false

abbrev pub is_some {ℓ} : {A : Type ℓ} → Option A → Bool
is_some none = false
is_some (some a) = true
