-- ===== src/Policy/Evaluate/Legal.antt =====
-- The legal transitions of a decision against the transition table of the workflow policy.
use acgps_public.Prelude.{
  ◌≡◌, refl, sym, ap, ◌∙◌, inl, inr, String, true, Option, none, some, List, [], ◌∷◌, mem, subst,
  All,
}
use acgps_public.Py.Result.{ok, require, >>=-eq-ok, ok-injective, require-eq-ok}
use acgps_public.Py.Laws.{not-mem-nil, All-mem, lookup-All, get_or-cases}
use acgps_public.Py.Value.{
  Value, Dict, get, get_or, lookup, as_dict, as_list, seq_of, dict_of, or_null, items,
}
use acgps_public.Policy.Error.{attribute_error}
use acgps_public.Policy.Vocabulary.{task_states}
use acgps_public.Policy.Fields.Lists.{as_texts}
use acgps_public.Policy.Schema.Workflow.{validate_workflow_policy}
use acgps_public.Policy.Schema.Workflow.Table.{IsTable, IsRow, validate_workflow_policy-IsTable}
use acgps_public.Policy.Input.{Bundle, Input}
use acgps_public.Policy.Routing.{mapping_at, texts_at, all_texts}
use acgps_public.Policy.Evaluate.{PolicyResult, evaluate_normalized, decision}
use acgps_public.Policy.Evaluate.Inversion.{evaluate_normalized-inv, route_task-Routing}

all_texts-as_texts : (ss : List String) → all_texts (as_texts ss) ≡ ok ss
unfolding all_texts
all_texts-as_texts [] = refl
all_texts-as_texts (s ∷ ss) = rw (all_texts-as_texts ss) refl

-- The texts that are read at a key whose entry is a list of texts.
texts_at-as_texts :
    (doc : Dict) (key : String) (v : Value) (ts : List String) {ss : List String}
    → get_or doc key (seq_of []) ≡ v
    → as_list v ≡ some (as_texts ts)
    → texts_at doc key ≡ ok ss
    → ss ≡ ts
unfolding texts_at
texts_at-as_texts doc key v ts {ss} e l h =
    let (vs, e₁, h₁) =
      >>=-eq-ok (require (as_list (get_or doc key (seq_of []))) attribute_error) _ h in
    let k : as_list v ≡ some vs = ap as_list (sym e) ∙ require-eq-ok _ _ e₁ in
    let same : vs ≡ as_texts ts = some-injective (sym k ∙ l) in
    ok-injective (sym (subst (λ q. all_texts q ≡ ok ss) same h₁) ∙ all_texts-as_texts ts)
  where
    some-injective : {a b : List Value} → ◌≡◌ {A = Option (List Value)} (some a) (some b) → a ≡ b
    some-injective p = cc

-- The mapping that the evaluator reads is the one that the validation read.
same_mapping :
    (doc : Dict) (key : String) {fs gs : Dict}
    → as_dict (get doc key) ≡ some fs
    → mapping_at doc key ≡ ok gs
    → gs ≡ fs
unfolding get get_or
same_mapping doc key {fs} {gs} e h = by_entry (lookup key doc) e (require-eq-ok _ _ h)
  where
    by_entry :
        (o : Option Value)
        → as_dict (or_null o) ≡ some fs
        → as_dict (elim o [ none ↦ dict_of [] | some v ↦ v ]) ≡ some gs
        → gs ≡ fs
    by_entry none p q = absurd (cc)
    by_entry (some v) p q = cc

-- The legal transitions at a state of an accepted table are states of the vocabulary.
legal_known :
    (workflow transitions : Dict) (state s : String) {legal : List String}
    → IsTable workflow
    → mapping_at workflow "transitions" ≡ ok transitions
    → texts_at transitions state ≡ ok legal
    → mem s legal ≡ true
    → mem s task_states ≡ true
unfolding items
legal_known workflow transitions state s {legal} table read h m =
    let same = same_mapping workflow "transitions" table.is_transitions read in
    elim (get_or-cases transitions state (seq_of [])) [
      | inl (v, there, e) ↦
          let rows =
            subst (λ (d : Dict). All (λ r. IsRow table.states r.0 r.1) d) (sym same) table.rows in
          let row : IsRow table.states state v =
            lookup-All (λ k w. IsRow table.states k w) transitions state rows there in
          let targets =
            texts_at-as_texts transitions state v row.targets e row.is_targets.is_list h in
          All-mem (λ q. mem q task_states ≡ true) table.states s table.states_known
            (All-mem (λ q. mem q table.states ≡ true) row.targets s row.targets_declared
              (rw targets at m))
      | inr (_, e) ↦
          let nothing = texts_at-as_texts transitions state (seq_of []) [] e refl h in
          absurd (not-mem-nil s _ nothing m)
    ]

-- Over an accepted workflow policy, a decision names only states of the vocabulary as legal.
pub legal_transitions_known :
    (input : Input) (bundle : Bundle) (s : String) {r : PolicyResult}
    → validate_workflow_policy bundle.workflow ≡ ok tt
    → evaluate_normalized input bundle ≡ ok r
    → mem s r.legal_transitions ≡ true
    → mem s task_states ≡ true
unfolding decision
legal_transitions_known input bundle s valid h m =
    let (climbed, routed, _, e, same) = evaluate_normalized-inv input bundle h in
    let routing = route_task-Routing input bundle climbed.level e in
    legal_known bundle.workflow routing.transitions input.current_state s
      (validate_workflow_policy-IsTable bundle.workflow valid) routing.transitions_eq
      routing.legal_eq (subst (λ (q : PolicyResult). mem s q.legal_transitions ≡ true) (sym same) m)
