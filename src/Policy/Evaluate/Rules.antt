-- ===== src/Policy/Evaluate/Rules.antt =====
-- When a skill rule of the routing policy takes effect.
use acgps_public.Prelude.{
  ◌≡◌, ◌↔◌, ◌⊎◌, inl, inr, refl, sym, ap, ◌∙◌, String, Bool, true, false, ◌||◌, List, [], ◌∷◌,
  arith, mem, subst, Option, ◌==◌, eq_refl, Bool-cases, any, some,
}
use acgps_public.Py.Result.{ok, ◌>>=◌, >>=-eq-ok, ok-injective, require, require-eq-ok}
use acgps_public.Py.Laws.{eq_of_==}
use acgps_public.Py.Value.{
  Value, null, bool, int, text, seq, dict, Fields, Dict, get, pairs, as_dict,
}
use acgps_public.Policy.Error.{attribute_error}
use acgps_public.Policy.Routing.{texts_at, is_true, rule_applies}

-- A rule of the routing policy takes effect: it always does, or one of its features is there.
pub data TakesEffect (features : List String) (rule : Value) : Type 0 where
  always :
      (d : Fields) → rule ≡ dict d → get (pairs d) "always" ≡ bool true → TakesEffect features rule
  when_any :
      (d : Fields) (names : List String) (feature : String)
      → rule ≡ dict d
      → texts_at (pairs d) "when_any" ≡ ok names
      → mem feature names ≡ true
      → mem feature features ≡ true
      → TakesEffect features rule

-- Some rule for the skill takes effect.
abbrev pub IsCalledFor : List String → String → Dict → Type 0
IsCalledFor features skill [] = ⊥
IsCalledFor features skill ((skill_id, rule) ∷ rules) =
    ((skill ≡ skill_id) × TakesEffect features rule) ⊎ IsCalledFor features skill rules

any-mem :
    (names features : List String)
    → any (λ feature. mem feature features) names ≡ true
    → (feature : String) × (mem feature names ≡ true) × (mem feature features ≡ true)
unfolding mem
any-mem [] features h = absurd (cc)
any-mem (n ∷ ns) features h = elim (Bool-cases (mem n features)) [
  | inl here ↦ (n, simp eq_refl, here)
  | inr there ↦ let (f, p, q) = any-mem ns features (rw there at h) in (f, ground arith, q)
]

mem-any :
    (names features : List String) (feature : String)
    → mem feature names ≡ true
    → mem feature features ≡ true
    → any (λ feature. mem feature features) names ≡ true
unfolding mem
mem-any [] features feature p q = absurd (cc)
mem-any (n ∷ ns) features feature p q = elim (Bool-cases (feature == n)) [
  | inl same ↦
      let here : mem n features ≡ true =
        subst (λ x. mem x features ≡ true) (eq_of_== feature n same) q in
      rw here refl
  | inr other ↦ let later = mem-any ns features feature (rw other at p) q in ground arith
]

as_dict-some :
    (v : Value) (d : Dict) → as_dict v ≡ some d → (fs : Fields) × (v ≡ dict fs) × (pairs fs ≡ d)
as_dict-some (dict fs) d h = (fs, refl, mapping_injective h)
  where
    mapping_injective : {c : Dict} → ◌≡◌ {A = Option Dict} (some c) (some d) → c ≡ d
    mapping_injective e = cc
as_dict-some null d h = absurd (cc)
as_dict-some (bool b) d h = absurd (cc)
as_dict-some (int n) d h = absurd (cc)
as_dict-some (text s) d h = absurd (cc)
as_dict-some (seq vs) d h = absurd (cc)

is_true-bool : (v : Value) → is_true v ≡ true → v ≡ bool true
is_true-bool (bool true) h = refl
is_true-bool (bool false) h = absurd (cc)
is_true-bool null h = absurd (cc)
is_true-bool (int n) h = absurd (cc)
is_true-bool (text s) h = absurd (cc)
is_true-bool (seq vs) h = absurd (cc)
is_true-bool (dict fs) h = absurd (cc)

abbrev mapping : Value → Dict
mapping (dict fs) = pairs fs
mapping _ = []

-- What the two branches of a rule give.
rule_branches :
    (features : List String) (d : Dict) (on : Bool) {b : Bool}
    → ((elim on [ true ↦ ok [] | false ↦ texts_at d "when_any" ]) >>= λ names.
        ok (on || any (λ feature. mem feature features) names))
      ≡ ok b
    → ((on ≡ true) × (b ≡ true))
      ⊎ ((on ≡ false)
          × (names : List String) × (texts_at d "when_any" ≡ ok names)
          × (any (λ feature. mem feature features) names ≡ b))
rule_branches features d true h = inl (refl, sym (ok-injective h))
rule_branches features d false h =
    let (names, read, h₁) = >>=-eq-ok (texts_at d "when_any") _ h in
    inr (refl, names, read, ok-injective h₁)

pub takes :
    (features : List String) (fs : Fields) {b : Bool}
    → ((is_true (get (pairs fs) "always") ≡ true) × (b ≡ true))
      ⊎ ((is_true (get (pairs fs) "always") ≡ false)
          × (names : List String) × (texts_at (pairs fs) "when_any" ≡ ok names)
          × (any (λ feature. mem feature features) names ≡ b))
    → b ≡ true
    → TakesEffect features (dict fs)
takes features fs (inl (on, _)) e = always fs refl (is_true-bool _ on)
takes features fs (inr (_, names, read, found)) e =
    let (f, named, there) = any-mem names features (found ∙ e) in
    when_any fs names f refl read named there

taken :
    (features : List String) (fs : Fields) {b : Bool}
    → ((is_true (get (pairs fs) "always") ≡ true) × (b ≡ true))
      ⊎ ((is_true (get (pairs fs) "always") ≡ false)
          × (names : List String) × (texts_at (pairs fs) "when_any" ≡ ok names)
          × (any (λ feature. mem feature features) names ≡ b))
    → TakesEffect features (dict fs)
    → b ≡ true
taken features fs (inl (_, e)) effect = e
taken features fs (inr (off, names, read, found)) (always d is_d on) =
    absurd (clash (sym off ∙ ap (λ v. is_true (get (mapping v) "always")) is_d ∙ ap is_true on))
  where
    clash : false ≡ true → ⊥
    clash e = cc
taken features fs (inr (off, names, read, found)) (when_any d others f is_d reads named there) =
    let same : names ≡ others =
      ok-injective (sym read ∙ ap (λ v. texts_at (mapping v) "when_any") is_d ∙ reads) in
    sym found ∙ mem-any names features f (subst (λ q. mem f q ≡ true) (sym same) named) there

-- A rule applies exactly when it takes effect.
pub rule_applies-TakesEffect :
    (features : List String) (rule : Value) {b : Bool}
    → rule_applies features rule ≡ ok b
    → (b ≡ true) ↔ TakesEffect features rule
unfolding rule_applies
rule_applies-TakesEffect features rule {b} h =
    let (d, is_mapping, h₁) = >>=-eq-ok (require (as_dict rule) attribute_error) _ h in
    let (fs, is_dict, same) = as_dict-some rule d (require-eq-ok _ _ is_mapping) in
    let branches = rule_branches features (pairs fs) (is_true (get (pairs fs) "always")) (
      subst
        (λ (q : Dict).
          ((elim (is_true (get q "always")) [ true ↦ ok [] | false ↦ texts_at q "when_any" ])
            >>= λ names.
                ok (is_true (get q "always") || any (λ feature. mem feature features) names))
          ≡ ok b)
        (sym same) h₁) in
    subst (λ v. (b ≡ true) ↔ TakesEffect features v) (sym is_dict)
      (takes features fs branches, taken features fs branches)
