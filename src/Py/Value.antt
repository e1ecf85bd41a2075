-- ===== src/Py/Value.antt =====
-- Python values as the YAML and JSON loaders of acgps return them. A mapping keeps its insertion
-- order and its keys are texts; floats and dates are not among the values.
use acgps_public.Prelude.{
  ℕ, String, Bool, true, false, ◌&&◌, ◌||◌, Option, none, some, List, [], ◌∷◌, ◌==◌, nat_eq,
  if◌then◌else◌, length,
}

-- An `int`; `negsuc n` is -(n + 1).
pub data ℤ : Type 0 where
  pos : ℕ → ℤ
  negsuc : ℕ → ℤ

abbrev pub int_eq : ℤ → ℤ → Bool
int_eq (pos m) (pos n) = nat_eq m n
int_eq (negsuc m) (negsuc n) = nat_eq m n
int_eq _ _ = false

mutual
  pub data Value : Type 0 where
    null : Value
    bool : Bool → Value
    int : ℤ → Value
    text : String → Value
    seq : Items → Value
    dict : Fields → Value

  pub data Items : Type 0 where
    nil : Items
    cons : Value → Items → Items

  pub data Fields : Type 0 where
    end : Fields
    field : String → Value → Fields → Fields

-- A `dict`, read as the list of its items.
abbrev pub Dict : Type 0
Dict = List (String × Value)

unfoldable pub items : Items → List Value
items nil = []
items (cons v vs) = v ∷ items vs

unfoldable pub pairs : Fields → Dict
pairs end = []
pairs (field k v fs) = (k, v) ∷ pairs fs

abbrev pub of_list : List Value → Items
of_list [] = nil
of_list (v ∷ vs) = cons v (of_list vs)

abbrev pub of_pairs : Dict → Fields
of_pairs [] = end
of_pairs ((k, v) ∷ d) = field k v (of_pairs d)

-- `[v, ...]` and `{k: v, ...}`
abbrev pub seq_of : List Value → Value
seq_of vs = seq (of_list vs)

abbrev pub dict_of : Dict → Value
dict_of d = dict (of_pairs d)

-- `d.get(key)`, with `none` where the key is missing.
unfoldable pub lookup {ℓ} : {V : Type ℓ} → String → List (String × V) → Option V
lookup k [] = none
lookup k ((j, v) ∷ d) = if k == j then some v else lookup k d

-- `key in d`
unfoldable pub has {ℓ} : {V : Type ℓ} → String → List (String × V) → Bool
has k [] = false
has k ((j, v) ∷ d) = k == j || has k d

abbrev pub or_null : Option Value → Value
or_null none = null
or_null (some v) = v

-- `d.get(key)`: `None` where the key is missing.
unfoldable pub get : Dict → String → Value
unfolding lookup
get d k = or_null (lookup k d)

-- `d.get(key, default)`
unfoldable pub get_or : Dict → String → Value → Value
unfolding lookup
get_or d k default = elim (lookup k d) [ none ↦ default | some v ↦ v ]

unfoldable pub keys {ℓ} : {V : Type ℓ} → List (String × V) → List String
keys [] = []
keys ((k, v) ∷ d) = k ∷ keys d

-- `isinstance(value, dict)` and its mapping.
abbrev pub as_dict : Value → Option Dict
as_dict (dict fs) = some (pairs fs)
as_dict _ = none

abbrev pub as_list : Value → Option (List Value)
as_list (seq vs) = some (items vs)
as_list _ = none

abbrev pub as_text : Value → Option String
as_text (text s) = some s
as_text _ = none

abbrev pub is_dict : Value → Bool
is_dict (dict fs) = true
is_dict _ = false

abbrev pub is_list : Value → Bool
is_list (seq vs) = true
is_list _ = false

abbrev pub is_text : Value → Bool
is_text (text s) = true
is_text _ = false

-- `type(value) is bool`
abbrev pub is_bool : Value → Bool
is_bool (bool b) = true
is_bool _ = false

-- `type(value) is int`, which a `bool` is not.
abbrev pub is_int : Value → Bool
is_int (int n) = true
is_int _ = false

-- `type(value) is int`, and the integer.
abbrev pub as_int : Value → Option ℤ
as_int (int n) = some n
as_int _ = none

abbrev pub is_null : Value → Bool
is_null null = true
is_null _ = false

-- `isinstance(value, str) and value`, and the text.
abbrev pub as_nonempty_text : Value → Option String
as_nonempty_text (text s) = if s == "" then none else some s
as_nonempty_text _ = none

-- The integer that a number or a `bool` counts as in `==`.
abbrev pub number : Value → Option ℤ
number (bool true) = some (pos 1)
number (bool false) = some (pos 0)
number (int n) = some n
number _ = none

abbrev pub same_number : ℤ → Option ℤ → Bool
same_number m none = false
same_number m (some n) = int_eq m n

-- Python's `==`: `True == 1`, and mappings are compared without their order.
unfoldable mutual
  pub py_eq : Value → Value → Bool
  py_eq null w = is_null w
  py_eq (bool b) w = same_number (if b then pos 1 else pos 0) (number w)
  py_eq (int n) w = same_number n (number w)
  py_eq (text s) w = elim w [ text t ↦ s == t | _ ↦ false ]
  py_eq (seq vs) w = elim w [ seq ws ↦ eq_items vs ws | _ ↦ false ]
  py_eq (dict fs) w = elim w [
    | dict gs ↦ nat_eq (length (pairs fs)) (length (pairs gs)) && eq_fields fs (pairs gs)
    | _ ↦ false
  ]

  pub eq_items : Items → Items → Bool
  eq_items nil ws = elim ws [ nil ↦ true | _ ↦ false ]
  eq_items (cons v vs) ws = elim ws [ nil ↦ false | cons w us ↦ py_eq v w && eq_items vs us ]

  pub eq_fields : Fields → Dict → Bool
  eq_fields end d = true
  eq_fields (field k v fs) d = elim (lookup k d) [
    | none ↦ false
    | some w ↦ py_eq v w && eq_fields fs d
  ]

-- `hash(value)` succeeds: lists and mappings have no hash.
abbrev pub is_hashable : Value → Bool
is_hashable (seq vs) = false
is_hashable (dict fs) = false
is_hashable _ = true
