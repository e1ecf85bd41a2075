-- ===== src/Workflow/Passed.antt =====
-- What a check that has passed went through.
use acgps_public.Prelude.{
  ◌≡◌, refl, sym, ap, ℕ, ◌≤◌, arith, String, Bool, true, false, not, List, [], ◌∷◌, All, mem,
}
use acgps_public.Py.Result.{ok, raise, >>=-eq-ok, ok-injective}
use acgps_public.Py.Laws.{eq_of_==}
use acgps_public.Py.Value.{
  pos, negsuc, Value, null, bool, int, text, seq, dict, Dict, Fields, pairs, py_eq, is_null,
}
use acgps_public.Slot.State.{is_safe_id}
use acgps_public.Workflow.Outcome.{
  invalid, type_error, attribute_error, key_error, text_is, int_from, Check, refuse_if,
  invalid_outcome, first_of, with_code, require_mapping, require_safe_id, require_sha,
  require_positive_int, require_member, is_sha256,
}
use acgps_public.Workflow.Binding.{is_the_text}

-- All checks of a list that passes have passed.
pub first_of-eq-ok :
    (checks : List (Check (Unit {0}))) → first_of checks ≡ ok tt → All (λ c. c ≡ ok tt) checks
unfolding first_of
first_of-eq-ok [] h = tt
first_of-eq-ok (check ∷ checks) h =
    let (u, e, rest) = >>=-eq-ok check _ h in (e, first_of-eq-ok checks rest)

pub refuse_if-eq-ok :
    (b : Bool) (code path message : String) {u : Unit {0}}
    → refuse_if b code path message ≡ ok u
    → b ≡ false
unfolding refuse_if invalid_outcome
refuse_if-eq-ok true code path message h = absurd (cc)
refuse_if-eq-ok false code path message h = refl

pub with_code-eq-ok {ℓ} :
    {A : Type ℓ} (call : Check A) (code : String) {a : A} → with_code call code ≡ ok a → call ≡ ok a
unfolding with_code invalid_outcome
with_code-eq-ok (ok a) code h = h
with_code-eq-ok (raise (invalid issue)) code h = absurd (cc)
with_code-eq-ok (raise type_error) code h = absurd (cc)
with_code-eq-ok (raise attribute_error) code h = absurd (cc)
with_code-eq-ok (raise key_error) code h = absurd (cc)

pub require_mapping-eq-ok :
    (v : Value) (code path message : String) {d : Dict}
    → require_mapping v code path message ≡ ok d
    → (fields : Fields) × (v ≡ dict fields) × (pairs fields ≡ d)
unfolding require_mapping invalid_outcome
require_mapping-eq-ok (dict fields) code path message h = (fields, refl, ok-injective h)
require_mapping-eq-ok null code path message h = absurd (cc)
require_mapping-eq-ok (bool b) code path message h = absurd (cc)
require_mapping-eq-ok (int n) code path message h = absurd (cc)
require_mapping-eq-ok (text s) code path message h = absurd (cc)
require_mapping-eq-ok (seq vs) code path message h = absurd (cc)

-- A value that is a text with a property.
pub record IsTextThat (P : String → Type 0) (v : Value) : Type 0 where
  pub content : String
  pub is_text : v ≡ text content
  pub has_property : P content

pub not-eq-false : (b : Bool) → not b ≡ false → b ≡ true
not-eq-false true h = refl
not-eq-false false h = absurd (cc)

text_is-eq-true :
    (test : String → Bool) (v : Value) → text_is test v ≡ true → IsTextThat (λ s. test s ≡ true) v
text_is-eq-true test (text s) h = record { content = s; is_text = refl; has_property = h }
text_is-eq-true test null h = absurd (cc)
text_is-eq-true test (bool b) h = absurd (cc)
text_is-eq-true test (int n) h = absurd (cc)
text_is-eq-true test (seq vs) h = absurd (cc)
text_is-eq-true test (dict d) h = absurd (cc)

pub require_safe_id-eq-ok :
    (v : Value) (path : String) {u : Unit {0}}
    → require_safe_id v path ≡ ok u
    → IsTextThat (λ s. is_safe_id s ≡ true) v
unfolding require_safe_id
require_safe_id-eq-ok v path h =
    text_is-eq-true is_safe_id v (not-eq-false _ (refuse_if-eq-ok _ _ _ _ h))

pub require_sha-eq-ok :
    (v : Value) (path : String) {u : Unit {0}}
    → require_sha v path ≡ ok u
    → IsTextThat (λ s. is_sha256 s ≡ true) v
unfolding require_sha
require_sha-eq-ok v path h =
    text_is-eq-true is_sha256 v (not-eq-false _ (refuse_if-eq-ok _ _ _ _ h))

pub require_member-eq-ok :
    (v : Value) (allowed : List String) (path code : String) {u : Unit {0}}
    → require_member v allowed path code ≡ ok u
    → IsTextThat (λ s. mem s allowed ≡ true) v
unfolding require_member
require_member-eq-ok v allowed path code h =
    text_is-eq-true (λ s. mem s allowed) v (not-eq-false _ (refuse_if-eq-ok _ _ _ _ h))

-- A value that is an integer from 1 on.
pub record IsPositive (v : Value) : Type 0 where
  pub number_of : ℕ
  pub is_int : v ≡ int (pos number_of)
  pub is_from_one : 1 ≤ number_of

int_from_one : (v : Value) → int_from 1 v ≡ true → IsPositive v
int_from_one (int (pos n)) h = record { number_of = n; is_int = refl; is_from_one = ground arith }
int_from_one (int (negsuc n)) h = absurd (cc)
int_from_one null h = absurd (cc)
int_from_one (bool b) h = absurd (cc)
int_from_one (text s) h = absurd (cc)
int_from_one (seq vs) h = absurd (cc)
int_from_one (dict d) h = absurd (cc)

pub require_positive_int-eq-ok :
    (v : Value) (path : String) {u : Unit {0}} → require_positive_int v path ≡ ok u → IsPositive v
unfolding require_positive_int
require_positive_int-eq-ok v path h = int_from_one v (not-eq-false _ (refuse_if-eq-ok _ _ _ _ h))

-- `value == text` holds of the text alone.
pub py_eq-text : (v : Value) (s : String) → py_eq v (text s) ≡ true → v ≡ text s
unfolding py_eq
py_eq-text (text t) s h = ap text (eq_of_== t s h)
py_eq-text null s h = absurd (cc)
py_eq-text (bool b) s h = absurd (cc)
py_eq-text (int n) s h = absurd (cc)
py_eq-text (seq vs) s h = absurd (cc)
py_eq-text (dict d) s h = absurd (cc)

pub text-py_eq : (v : Value) (s : String) → py_eq (text s) v ≡ true → v ≡ text s
unfolding py_eq
text-py_eq (text t) s h = ap text (sym (eq_of_== s t h))
text-py_eq null s h = absurd (cc)
text-py_eq (bool b) s h = absurd (cc)
text-py_eq (int n) s h = absurd (cc)
text-py_eq (seq vs) s h = absurd (cc)
text-py_eq (dict d) s h = absurd (cc)

pub null-py_eq : (v : Value) → py_eq v null ≡ true → v ≡ null
unfolding py_eq
null-py_eq null h = refl
null-py_eq (bool b) h = absurd (cc)
null-py_eq (int n) h = absurd (cc)
null-py_eq (text s) h = absurd (cc)
null-py_eq (seq vs) h = absurd (cc)
null-py_eq (dict d) h = absurd (cc)

pub is_the_text-eq-true : (s : String) (v : Value) → is_the_text s v ≡ true → v ≡ text s
is_the_text-eq-true s (text t) h = ap text (eq_of_== t s h)
is_the_text-eq-true s null h = absurd (cc)
is_the_text-eq-true s (bool b) h = absurd (cc)
is_the_text-eq-true s (int n) h = absurd (cc)
is_the_text-eq-true s (seq vs) h = absurd (cc)
is_the_text-eq-true s (dict d) h = absurd (cc)

pub is_null-eq-true : (v : Value) → is_null v ≡ true → v ≡ null
is_null-eq-true null h = refl
is_null-eq-true (bool b) h = absurd (cc)
is_null-eq-true (int n) h = absurd (cc)
is_null-eq-true (text s) h = absurd (cc)
is_null-eq-true (seq vs) h = absurd (cc)
is_null-eq-true (dict d) h = absurd (cc)

-- Equal integers.
pub int-py_eq : (m n : ℕ) → py_eq (int (pos m)) (int (pos n)) ≡ true → m ≡ n
unfolding py_eq
int-py_eq m n h = ground arith
