-- ===== src/Policy/Fields.antt =====
-- The field checks that every policy file shares: `_require_policy_id`,
-- `_require_known_feature_list`, `_require_exact_fields`, `_require_string_list`,
-- `_require_mapping` and `_duplicate_item` of acgps/policy.py.
pub mod Lists
pub mod Exact
use Prim.Native.String as S
use acgps_public.Prelude.{
  ℕ, ◌+◌, String, Bool, false, not, ◌&&◌, ◌||◌, Option, none, some, List, [], ◌∷◌, ◌==◌,
  if◌then◌else◌, mem,
}
use acgps_public.Py.Result.{ok, raise, ◌>>=◌, ◌>>◌, require, for_enumerate}
use acgps_public.Py.Text.{fmt, show, least, keep, has_text}
use acgps_public.Py.Value.{
  Value, text, seq, dict, Dict, lookup, has, get, keys, py_eq, is_hashable, as_dict, as_list,
  as_nonempty_text, items, pairs,
}
use acgps_public.Policy.Error.{
  Code, Exn, Policy, policy_error, python_type_error, key_error, fail, fail_if,
}
use acgps_public.Policy.Vocabulary.{policy_ids, routing_feature_ids}

-- `item in seen`, for a set or a list of values.
unfoldable pub mem_value : Value → List Value → Bool
mem_value v [] = false
mem_value v (w ∷ ws) = py_eq v w || mem_value v ws

-- The loop of `_duplicate_item`, from position `i` with the items seen so far.
duplicate_from : ℕ → List Value → List Value → Policy (Option (ℕ × Value))
duplicate_from i seen [] = ok none
duplicate_from i seen (v ∷ vs) =
    let rest = duplicate_from (i + 1) (v ∷ seen) vs in
    if is_hashable v
    then if mem_value v seen then ok (some (i, v)) else rest
    else raise python_type_error

-- The first item that stands earlier in the list too, with its position.
unfoldable pub duplicate_item : List Value → Policy (Option (ℕ × Value))
unfolding duplicate_from mem_value
duplicate_item vs = duplicate_from 0 [] vs

-- `path[index]`
abbrev pub at_index : String → ℕ → String
at_index path i = fmt (path ∷ "[" ∷ show i ∷ "]" ∷ [])

-- The items of a list of non-empty texts, from position `i`.
nonempty_texts : String → ℕ → List Value → Policy (List String)
nonempty_texts path i [] = ok []
nonempty_texts path i (v ∷ vs) = do
  s ←
      require (as_nonempty_text v)
        (policy_error Code.type_error (at_index path i) "expected non-empty string")
  rest ← nonempty_texts path (i + 1) vs
  ok (s ∷ rest)

abbrev no_duplicate : String → Option (ℕ × Value) → Policy (Unit {0})
no_duplicate path none = ok tt
no_duplicate path (some (i, v)) =
    fail Code.duplicate_set_member (at_index path i) "duplicate set-like policy value"

unfoldable pub require_string_list : Value → String → Policy (List String)
unfolding duplicate_item nonempty_texts
require_string_list value path = do
  vs ← require (as_list value) (policy_error Code.type_error path "expected list of strings")
  duplicate ← duplicate_item vs
  no_duplicate path duplicate
  nonempty_texts path 0 vs

unfoldable pub require_mapping : Value → String → Policy Dict
require_mapping value path =
    require (as_dict value) (policy_error Code.type_error path "expected mapping")

-- `missing = sorted(...)`, `if missing: raise ...` at the first of them.
abbrev pub fail_at_least : List String → (String → Exn) → Policy (Unit {0})
fail_at_least ss error = elim (least ss) [ none ↦ ok tt | some s ↦ raise (error s) ]

-- `allow_missing` is `[]` where the code passes none.
unfoldable pub require_exact_fields : Dict → List String → String → List String → Policy (Unit {0})
require_exact_fields doc allowed path allow_missing = do
  fail_at_least (keep (λ f. not (mem f allow_missing) && not (has f doc)) allowed) (λ f.
      policy_error Code.type_error (fmt (path ∷ ":" ∷ f ∷ []))
        (fmt (f ∷ " missing required field" ∷ [])))
  fail_at_least (keep (λ f. not (mem f allowed)) (keys doc)) (λ f.
      policy_error Code.unknown_field (fmt (path ∷ ":" ∷ f ∷ []))
        (fmt ("unexpected policy field " ∷ f ∷ [])))

abbrev known_policy_id : Option String → String → String → Policy (Unit {0})
known_policy_id none policy_id path = raise key_error
known_policy_id (some expected) policy_id path =
    fail_if (not (policy_id == expected)) Code.unknown_id (fmt (path ∷ ":policy_id" ∷ []))
      "unknown policy_id"

unfoldable pub require_policy_id : Dict → String → Policy (Unit {0})
require_policy_id doc path = do
  policy_id ← require (as_nonempty_text (get doc "policy_id")) (
      policy_error Code.type_error (fmt (path ∷ ":policy_id" ∷ []))
        "policy_id must be a non-empty string")
  known_policy_id (lookup path policy_ids) policy_id path

unfoldable pub require_known_feature_list : Value → String → Policy (List String)
require_known_feature_list value path = do
  features ← require_string_list value path
  for_enumerate 0 features λ i feature.
      fail_if (not (mem feature routing_feature_ids)) Code.unknown_id (at_index path i)
        "unknown routing feature"
  ok features

abbrev texts : List String → List Value
texts [] = []
texts (s ∷ ss) = text s ∷ texts ss

chars : String → List Value
chars S.[] = []
chars (S.◌∷◌ c s) = text (S.◌∷◌ c S.[]) ∷ chars s

-- `for item in value`: the items of a list, the keys of a mapping, the characters of a text.
unfoldable pub iterate : Value → Policy (List Value)
unfolding chars
iterate (seq vs) = ok (items vs)
iterate (dict fs) = ok (texts (keys (pairs fs)))
iterate (text s) = ok (chars s)
iterate _ = raise python_type_error

-- `item in value`: a list by equality, a mapping by its keys, a text by its parts.
unfoldable pub py_in : Value → Value → Policy Bool
py_in v (seq vs) = ok (mem_value v (items vs))
py_in (text s) (dict fs) = ok (has s (pairs fs))
py_in v (dict fs) = if is_hashable v then ok false else raise python_type_error
py_in (text s) (text t) = ok (has_text s t)
py_in v _ = raise python_type_error

-- `if key in doc: check(doc[key])`
abbrev pub optional_field : Option Value → (Value → Policy (Unit {0})) → Policy (Unit {0})
optional_field none check = ok tt
optional_field (some v) check = check v

abbrev pub optional_features : Dict → String → String → Policy (Unit {0})
optional_features rule key path =
    optional_field (lookup key rule)
      (λ v. require_known_feature_list v (fmt (path ∷ "." ∷ key ∷ [])) >>= λ _. ok tt)
