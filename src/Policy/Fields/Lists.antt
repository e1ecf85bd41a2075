-- ===== src/Policy/Fields/Lists.antt =====
-- What `_require_string_list` accepts: a list of distinct, non-empty texts.
use acgps_public.Prelude.{
  ℕ, ◌+◌, ◌≡◌, refl, ap, ap₂, ◌∙◌, eq_iff, String, false, Option, none, some, List, [], ◌∷◌, arith,
  mem,
}
use acgps_public.Py.Result.{ok, require, >>=-eq-ok, ok-injective, require-eq-ok}
use acgps_public.Py.Value.{Value, text, as_list, as_nonempty_text, py_eq}
use acgps_public.Py.Laws.{as_nonempty_text-eq-some}
use acgps_public.Policy.Fields.{
  mem_value, duplicate_from, duplicate_item, no_duplicate, nonempty_texts, require_string_list,
}
use acgps_public.Policy.Routing.Provenance.{Distinct}

abbrev pub as_texts : List String → List Value
as_texts [] = []
as_texts (s ∷ ss) = text s ∷ as_texts ss

mem_value-as_texts : (s : String) (ts : List String) → mem_value (text s) (as_texts ts) ≡ mem s ts
unfolding mem_value mem py_eq
mem_value-as_texts s [] = refl
mem_value-as_texts s (t ∷ ts) = ground (arith, mem_value-as_texts s ts)

-- No text of the list is in the other list.
abbrev Apart : List String → List String → Type 0
Apart seen [] = Unit
Apart seen (s ∷ ss) = (mem s seen ≡ false) × Apart seen ss

Apart-tail :
    (s : String) (seen ss : List String) → Apart (s ∷ seen) ss → Apart seen ss × (mem s ss ≡ false)
unfolding mem
Apart-tail s seen [] h = (tt, refl)
Apart-tail s seen (x ∷ xs) h = ground (arith, Apart-tail s seen xs, eq_iff s x, eq_iff x s)

duplicate_from-Distinct :
    (i : ℕ) (seen ss : List String)
    → duplicate_from i (as_texts seen) (as_texts ss) ≡ ok none
    → Distinct ss × Apart seen ss
unfolding duplicate_from
duplicate_from-Distinct i seen [] h = (tt, tt)
duplicate_from-Distinct i seen (s ∷ ss) h = ground (
  arith,
  mem_value-as_texts s seen,
  duplicate_from-Distinct (i + 1) (s ∷ seen) ss,
  Apart-tail s seen ss,
)

nonempty_texts-as_texts :
    (path : String) (i : ℕ) (vs : List Value) {ss : List String}
    → nonempty_texts path i vs ≡ ok ss
    → (vs ≡ as_texts ss) × (mem "" ss ≡ false)
unfolding nonempty_texts mem
nonempty_texts-as_texts path i [] h = (rw (← ok-injective h) refl, rw (← ok-injective h) refl)
nonempty_texts-as_texts path i (v ∷ vs) h =
    let (s, e, h₁) = >>=-eq-ok (require (as_nonempty_text v) _) _ h in
    let (rest, e₁, h₂) = >>=-eq-ok (nonempty_texts path (i + 1) vs) _ h₁ in
    let same = ok-injective h₂ in
    let (is_text, nonempty) = as_nonempty_text-eq-some v s (require-eq-ok _ _ e) in
    let (tail, no_empty) = nonempty_texts-as_texts path (i + 1) vs e₁ in
    (
      rw (← same) (ap₂ (λ x xs. x ∷ xs) is_text tail),
      rw (← same) (ground (arith, eq_iff s "", eq_iff "" s)),
    )

no_duplicate-none :
    (path : String) (o : Option (ℕ × Value)) → no_duplicate path o ≡ ok tt → o ≡ none
no_duplicate-none path none h = refl
no_duplicate-none path (some d) h = cc

-- What is returned is the list that was given, with distinct and non-empty texts.
pub record IsTextList (value : Value) (ss : List String) : Type 0 where
  pub is_list : as_list value ≡ some (as_texts ss)
  pub distinct : Distinct ss
  pub no_empty : mem "" ss ≡ false

-- A value that the list check accepts is a list of texts, none of them empty and no two the same,
-- and it is the list that the check returns.
pub require_string_list-IsTextList :
    (value : Value) (path : String) {ss : List String}
    → require_string_list value path ≡ ok ss
    → IsTextList value ss
unfolding require_string_list
require_string_list-IsTextList value path {ss} h =
    let (vs, e, h₁) = >>=-eq-ok (require (as_list value) _) _ h in
    let (d, e₁, h₂) = >>=-eq-ok (duplicate_item vs) _ h₁ in
    let (_, e₂, h₃) = >>=-eq-ok (no_duplicate path d) _ h₂ in
    let (same, no_empty) = nonempty_texts-as_texts path 0 vs h₃ in
    let clean : duplicate_from 0 (as_texts []) (as_texts ss) ≡ ok none =
      rw (← same) (e₁ ∙ ap (λ (o : Option (ℕ × Value)). ok o) (no_duplicate-none path d e₂)) in
    let (distinct, _) = duplicate_from-Distinct 0 [] ss clean in
    record {
      is_list = require-eq-ok _ _ e ∙ ap some same;
      distinct = distinct;
      no_empty = no_empty;
    }
