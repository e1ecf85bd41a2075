-- ===== src/Policy/Schema/Risk/Rules.antt =====
-- An accepted list of risk rules has no two rules that give one trigger, at one priority, two levels.
use acgps_public.Prelude.{
  ℕ, ◌+◌, ◌≡◌, ◌↔◌, refl, sym, ap, ◌∙◌, String, Bool, true, false, not, ◌&&◌, some, List, [], ◌∷◌,
  arith, All, inl, inr, ◌==◌, eq_iff, Bool-cases,
}
use acgps_public.Py.Result.{ok, require, >>=-eq-ok, ok-injective, require-eq-ok}
use acgps_public.Py.Text.{keep}
use acgps_public.Py.Laws.{as_nonempty_text-eq-some, All-map}
use acgps_public.Py.Value.{
  get_or, dict_of, seq_of, Value, null, bool, int, text, seq, dict, Dict, ℤ, pos, negsuc, int_eq,
  Fields, as_dict, as_int, as_nonempty_text, get, keys, py_eq,
}
use acgps_public.Policy.Error.{fail_if}
use acgps_public.Policy.Fields.{require_exact_fields, fail_at_least, py_in, iterate}
use acgps_public.Policy.Schema.Risk.{
  Seen, seen_level, disagrees, ReadRule, read_rule, check_rules, validate_risk_rule_conflicts,
}

-- A rule as the code reads it.
pub record Rule : Type 0 where
  pub trigger : String
  pub priority : ℤ
  pub level : String

-- Two rules with one trigger and one priority give it one level.
abbrev pub Agrees : Rule → Rule → Type 0
Agrees r s = r.trigger ≡ s.trigger → r.priority ≡ s.priority → r.level ≡ s.level

-- Every rule agrees with each later one.
abbrev pub Consistent : List Rule → Type 0
Consistent [] = Unit
Consistent (r ∷ rs) = All (Agrees r) rs × Consistent rs

-- The value is a mapping with these fields.
pub record IsRule (v : Value) (r : Rule) : Type 0 where
  pub fields : Dict
  pub is_mapping : as_dict v ≡ some fields
  pub trigger_eq : get fields "trigger" ≡ text r.trigger
  pub priority_eq : get fields "priority" ≡ int r.priority
  pub level_eq : get fields "risk_level" ≡ text r.level

abbrev pub AreRules : List Value → List Rule → Type 0
AreRules [] [] = Unit
AreRules (v ∷ vs) (r ∷ rs) = IsRule v r × AreRules vs rs
AreRules _ _ = ⊥

-- What the loop has seen after these rules, the latest first.
to_seen : List Rule → Seen
to_seen [] = []
to_seen (r ∷ rs) = ((r.trigger, r.priority), text r.level) ∷ to_seen rs

int_eq_iff : (m n : ℤ) → (int_eq m n ≡ true) ↔ (m ≡ n)
int_eq_iff (pos m) (pos n) = ground arith
int_eq_iff (negsuc m) (negsuc n) = ground arith
int_eq_iff (pos m) (negsuc n) = ground arith
int_eq_iff (negsuc m) (pos n) = ground arith

text_of_py_in :
    (v : Value) (fs : Fields) → py_in v (dict fs) ≡ ok true → (s : String) × (v ≡ text s)
unfolding py_in
text_of_py_in (text s) fs h = (s, refl)
text_of_py_in null fs h = absurd (ground arith)
text_of_py_in (bool b) fs h = absurd (ground arith)
text_of_py_in (int n) fs h = absurd (ground arith)
text_of_py_in (seq vs) fs h = absurd (ground arith)
text_of_py_in (dict gs) fs h = absurd (ground arith)

-- A rule that the conflict test lets through agrees with all the rules before it.
Agrees-with_seen :
    (r : Rule) (done : List Rule)
    → Consistent done
    → disagrees (seen_level (to_seen done) r.trigger r.priority) (text r.level) ≡ false
    → All (Agrees r) done
unfolding seen_level to_seen py_eq
Agrees-with_seen r [] c h = tt
Agrees-with_seen r (q ∷ qs) c h =
    elim (Bool-cases (r.trigger == q.trigger && int_eq r.priority q.priority)) [
      | inl match ↦
          let t : r.trigger ≡ q.trigger = ground (arith, eq_iff r.trigger q.trigger) in
          let p : r.priority ≡ q.priority = (int_eq_iff r.priority q.priority).0 (ground arith) in
          let l : q.level ≡ r.level = ground (arith, eq_iff q.level r.level) in
          (
            λ _ _. sym l,
            All-map (Agrees q) (Agrees r) qs
                (λ x agrees et ep. sym l ∙ agrees (sym t ∙ et) (sym p ∙ ep)) c.0,
          )
      | inr other ↦ (
        λ et ep.
            absurd (ground (arith, eq_iff r.trigger q.trigger, int_eq_iff r.priority q.priority)),
        Agrees-with_seen r qs c.1 (ground arith),
      )
    ]

as_int-eq-some : (v : Value) (n : ℤ) → as_int v ≡ some n → v ≡ int n
as_int-eq-some (int m) n h = ground arith
as_int-eq-some null n h = cc
as_int-eq-some (bool b) n h = cc
as_int-eq-some (text s) n h = cc
as_int-eq-some (seq vs) n h = cc
as_int-eq-some (dict fs) n h = cc

IsRule-of_fields :
    (fs : Fields) (v : Value) (fields : Dict) (t : String) (p : ℤ) (declared : Bool) {q : ReadRule}
    → as_dict v ≡ some fields
    → as_nonempty_text (get fields "trigger") ≡ some t
    → as_int (get fields "priority") ≡ some p
    → py_in (get fields "risk_level") (dict fs) ≡ ok declared
    → declared ≡ true
    → ◌≡◌ {A = ReadRule} (record { trigger = t; priority = p; level = get fields "risk_level" }) q
    → (level : String) × (q.level ≡ text level)
      × IsRule v (record { trigger = q.trigger; priority = q.priority; level = level })
IsRule-of_fields fs v fields t p declared {q} e e₁ e₂ e₃ e₄ same =
    let (level, is_level) =
      text_of_py_in (get fields "risk_level") fs (e₃ ∙ ap (λ (b : Bool). ok b) e₄) in
    (
      level,
      rw (← same) is_level,
      record {
        fields = fields;
        is_mapping = e;
        trigger_eq = rw (← same) ((as_nonempty_text-eq-some _ t e₁).0);
        priority_eq = rw (← same) (as_int-eq-some _ p e₂);
        level_eq = is_level;
      },
    )

-- A rule that is read is a mapping with these fields, and its level is a text.
read_rule-IsRule :
    (fs : Fields) (i : ℕ) (v : Value) {q : ReadRule}
    → read_rule (dict fs) i v ≡ ok q
    → (level : String) × (q.level ≡ text level)
      × IsRule v (record { trigger = q.trigger; priority = q.priority; level = level })
unfolding read_rule
read_rule-IsRule fs i v {q} h =
    let (fields, e, h₁) = >>=-eq-ok (require (as_dict v) _) _ h in
    let (_, _, h₂) = >>=-eq-ok (fail_at_least (keep _ (keys fields)) _) _ h₁ in
    let (_, _, h₃) = >>=-eq-ok (require_exact_fields fields _ _ _) _ h₂ in
    let (t, e₄, h₄) = >>=-eq-ok (require (as_nonempty_text (get fields "trigger")) _) _ h₃ in
    let (p, e₅, h₅) = >>=-eq-ok (require (as_int (get fields "priority")) _) _ h₄ in
    let (declared, e₆, h₆) = >>=-eq-ok (py_in (get fields "risk_level") (dict fs)) _ h₅ in
    let (_, e₇, h₇) = >>=-eq-ok (fail_if (not declared) _ _ _) _ h₆ in
    IsRule-of_fields fs v fields t p declared (require-eq-ok _ _ e) (require-eq-ok _ _ e₄)
      (require-eq-ok _ _ e₅) e₆ (ground arith) (ok-injective h₇)

with_level : ReadRule → String → Rule
with_level q level = record { trigger = q.trigger; priority = q.priority; level = level }

-- The rules of an accepted list, read in order: consistent, and in agreement with those before.
check_rules-Consistent :
    (fs : Fields) (i : ℕ) (done : List Rule) (vs : List Value)
    → Consistent done
    → check_rules (dict fs) i (to_seen done) vs ≡ ok tt
    → (rs : List Rule) × AreRules vs rs × Consistent rs × All (λ r. All (Agrees r) done) rs
unfolding check_rules to_seen with_level
check_rules-Consistent fs i done [] c h = ([], tt, tt, tt)
check_rules-Consistent fs i done (v ∷ vs) c h =
    let (q, e, h₁) = >>=-eq-ok (read_rule (dict fs) i v) _ h in
    let (level, is_level, is_rule) = read_rule-IsRule fs i v e in
    let (_, e₁, h₂) =
      >>=-eq-ok (fail_if (disagrees (seen_level (to_seen done) q.trigger q.priority) q.level) _ _ _)
        _ h₁ in
    let agrees = Agrees-with_seen (with_level q level) done c (rw (← is_level) (ground arith)) in
    let (rs, are, consistent, before) =
      check_rules-Consistent fs (i + 1) (with_level q level ∷ done) vs (agrees, c)
        (rw (← is_level) h₂) in
    (
      with_level q level ∷ rs,
      (is_rule, are),
      (
        All-map _ (Agrees (with_level q level)) rs (λ r a et ep. sym (a.0 (sym et) (sym ep)))
            before,
        consistent,
      ),
      (agrees, All-map _ _ rs (λ r a. a.1) before),
    )

-- In an accepted risk policy with a mapping of levels, every rule is a mapping with a trigger, a
-- priority and a level, and two rules with one trigger and one priority name one level.
pub validate_risk_rule_conflicts-Consistent :
    (risk : Dict) (fs : Fields) (vs : List Value)
    → get_or risk "levels" (dict_of []) ≡ dict fs
    → iterate (get_or risk "rules" (seq_of [])) ≡ ok vs
    → validate_risk_rule_conflicts risk ≡ ok tt
    → (rs : List Rule) × AreRules vs rs × Consistent rs
unfolding validate_risk_rule_conflicts to_seen
validate_risk_rule_conflicts-Consistent risk fs vs levels rules h =
    let (vs', e, h₁) = >>=-eq-ok (iterate (get_or risk "rules" (seq_of []))) _ h in
    let same : vs' ≡ vs = ok-injective (sym e ∙ rules) in
    let run : check_rules (dict fs) 0 (to_seen []) vs ≡ ok tt = rw (← levels, ← same) h₁ in
    let (rs, are, consistent, _) = check_rules-Consistent fs 0 [] vs tt run in (rs, are, consistent)
