-- ===== src/Py/Laws.antt =====
-- Lemmas on the Python layer: membership, filtering, sorting, mappings, loops.
use acgps_public.Prelude.{
  ℕ, ◌+◌, ◌≡◌, refl, sym, subst, ap, ◌⊎◌, inl, inr, String, Bool, true, false, ◌&&◌, ◌||◌, none,
  some, List, [], ◌∷◌, ◌++◌, arith, ◌==◌, eq_iff, eq_refl, mem, All, Bool-cases, Option-cases,
}
use acgps_public.Py.Result.{Py, ok, for_each, for_enumerate, >>=-eq-ok}
use acgps_public.Py.Text.{least, keep, sorted, insert_sorted}
use acgps_public.Py.Value.{
  null, bool, int, text, seq, dict, as_text, as_nonempty_text, Value, Dict, lookup, has, get_or,
  keys,
}

pub eq_of_== : (s t : String) → (s == t) ≡ true → s ≡ t
eq_of_== s t h = (eq_iff s t).0 h

pub mem-keep :
    (s : String) (test : String → Bool) (xs : List String)
    → mem s (keep test xs) ≡ (mem s xs && test s)
unfolding mem keep
mem-keep s test [] = refl
mem-keep s test (x ∷ xs) = elim (Bool-cases (s == x)) [
  | inl same ↦
      let e : s ≡ x = eq_of_== s x same in ground (arith, mem-keep s test xs, ap test e, eq_iff s x)
  | inr other ↦ ground (arith, mem-keep s test xs)
]

pub mem-append : (s : String) (xs ys : List String) → mem s (xs ++ ys) ≡ (mem s xs || mem s ys)
unfolding mem
mem-append s [] ys = refl
mem-append s (x ∷ xs) ys = ground (arith, mem-append s xs ys)

mem-insert_sorted :
    (s t : String) (xs : List String) → mem s (insert_sorted t xs) ≡ (s == t || mem s xs)
unfolding mem insert_sorted
mem-insert_sorted s t [] = refl
mem-insert_sorted s t (x ∷ xs) = ground (arith, mem-insert_sorted s t xs)

pub mem-sorted : (s : String) (xs : List String) → mem s (sorted xs) ≡ mem s xs
unfolding mem sorted
mem-sorted s [] = refl
mem-sorted s (x ∷ xs) = ground (arith, mem-insert_sorted s x (sorted xs), mem-sorted s xs)

pub has-eq-mem-keys {ℓ} :
    {V : Type ℓ} (k : String) (d : List (String × V)) → has k d ≡ mem k (keys d)
unfolding has mem keys
has-eq-mem-keys k [] = refl
has-eq-mem-keys k ((j, v) ∷ d) = ground (arith, has-eq-mem-keys k d)

pub has_of_lookup {ℓ} :
    {V : Type ℓ} (k : String) (d : List (String × V)) {v : V} → lookup k d ≡ some v → has k d ≡ true
unfolding has lookup
has_of_lookup k [] h = cc
has_of_lookup k ((j, w) ∷ d) {v} h = ground (arith, has_of_lookup k d {v = v})

pub lookup_of_has {ℓ} :
    {V : Type ℓ} (k : String) (d : List (String × V))
    → has k d ≡ true
    → (v : V) × (lookup k d ≡ some v)
unfolding has lookup
lookup_of_has k [] h = absurd (cc)
lookup_of_has k ((j, w) ∷ d) h = elim (Bool-cases (k == j)) [
  | inl same ↦ (w, ground arith)
  | inr other ↦ let (v, e) = lookup_of_has k d (ground arith) in (v, ground arith)
]

pub least-eq-none : (xs : List String) → least xs ≡ none → xs ≡ []
unfolding least
least-eq-none [] h = refl
least-eq-none (x ∷ xs) h = ground arith

-- A filter that leaves nothing refuses every item.
pub keep-eq-nil :
    (test : String → Bool) (xs : List String) (s : String)
    → keep test xs ≡ []
    → mem s xs ≡ true
    → test s ≡ false
unfolding mem
keep-eq-nil test xs s h m = ground (arith, mem-keep s test xs)

module _ {ℓ κ ι} {E : Type ℓ} {A : Type κ} (P : A → Type ι) where
  -- What one round establishes holds of every item after the loop.
  pub for_each-All :
      (xs : List A) (body : A → Py E (Unit {0}))
      → ((x : A) → body x ≡ ok tt → P x)
      → for_each xs body ≡ ok tt
      → All P xs
  unfolding for_each
  for_each-All [] body each h = tt
  for_each-All (x ∷ xs) body each h =
      let (u, e, k) = >>=-eq-ok (body x) (λ _. for_each xs body) h in
      (each x e, for_each-All xs body each k)

  pub for_enumerate-All :
      (i : ℕ) (xs : List A) (body : ℕ → A → Py E (Unit {0}))
      → ((j : ℕ) (x : A) → body j x ≡ ok tt → P x)
      → for_enumerate i xs body ≡ ok tt
      → All P xs
  unfolding for_enumerate
  for_enumerate-All i [] body each h = tt
  for_enumerate-All i (x ∷ xs) body each h =
      let (u, e, k) = >>=-eq-ok (body i x) (λ _. for_enumerate (i + 1) xs body) h in
      (each i x e, for_enumerate-All (i + 1) xs body each k)

-- What holds of every text of a list holds of its members.
pub All-mem {ℓ} :
    (P : String → Type ℓ) (xs : List String) (s : String) → All P xs → mem s xs ≡ true → P s
unfolding mem
All-mem P [] s h m = absurd (cc)
All-mem P (x ∷ xs) s h m = elim (Bool-cases (s == x)) [
  | inl same ↦ subst P (sym (eq_of_== s x same)) h.0
  | inr other ↦ All-mem P xs s h.1 (rw other at m)
]

-- A filter that refuses every item leaves nothing.
pub keep-eq-nil_of :
    (test : String → Bool) (xs : List String)
    → ((s : String) → mem s xs ≡ true → test s ≡ false)
    → keep test xs ≡ []
unfolding keep mem
keep-eq-nil_of test [] h = refl
keep-eq-nil_of test (x ∷ xs) h =
    let here = h x (ground (arith, eq_refl x)) in
    let rest = keep-eq-nil_of test xs (λ s m. h s (ground arith)) in ground arith

pub as_nonempty_text-eq-some :
    (v : Value) (s : String) → as_nonempty_text v ≡ some s → (v ≡ text s) × ((s == "") ≡ false)
as_nonempty_text-eq-some (text t) s h = ground arith
as_nonempty_text-eq-some null s h = cc
as_nonempty_text-eq-some (bool b) s h = cc
as_nonempty_text-eq-some (int n) s h = cc
as_nonempty_text-eq-some (seq vs) s h = cc
as_nonempty_text-eq-some (dict fs) s h = cc

pub as_text-eq-some : (v : Value) (s : String) → as_text v ≡ some s → v ≡ text s
as_text-eq-some (text t) s h = ground arith
as_text-eq-some null s h = cc
as_text-eq-some (bool b) s h = cc
as_text-eq-some (int n) s h = cc
as_text-eq-some (seq vs) s h = cc
as_text-eq-some (dict fs) s h = cc

-- What holds of every entry of a mapping holds of the one that is looked up.
pub lookup-All {ℓ κ} :
    {V : Type ℓ} (P : String → V → Type κ) (d : List (String × V)) (k : String) {v : V}
    → All (λ e. P e.0 e.1) d
    → lookup k d ≡ some v
    → P k v
unfolding lookup
lookup-All P [] k h e = absurd (cc)
lookup-All P ((j, w) ∷ d) k {v} h e = elim (Bool-cases (k == j)) [
  | inl same ↦
      let is_v : w ≡ v = ground arith in
      subst (λ x. P k x) is_v (subst (λ x. P x w) (sym (eq_of_== k j same)) h.0)
  | inr other ↦ lookup-All P d k h.1 (rw other at e)
]

-- `d.get(key, default)` is the entry, or the default.
pub get_or-cases :
    (d : Dict) (k : String) (default : Value)
    → ((v : Value) × (lookup k d ≡ some v) × (get_or d k default ≡ v))
      ⊎ ((lookup k d ≡ none) × (get_or d k default ≡ default))
unfolding get_or
get_or-cases d k default = elim (Option-cases (lookup k d)) [
  | inl e ↦ inr (e, rw (e, get_or) refl)
  | inr (v, e) ↦ inl (v, e, rw (e, get_or) refl)
]

pub All-map {ℓ κ ι} :
    {A : Type ℓ} (P : A → Type κ) (Q : A → Type ι) (xs : List A)
    → ((x : A) → P x → Q x)
    → All P xs
    → All Q xs
All-map P Q [] f h = tt
All-map P Q (x ∷ xs) f h = (f x h.0, All-map P Q xs f h.1)

pub not-mem-nil : (s : String) (ss : List String) → ss ≡ [] → mem s ss ≡ true → ⊥
unfolding mem
not-mem-nil s ss e m = ground arith
