-- ===== src/Decisions/Once.antt =====
-- The files of the queue are written once.
use acgps_public.Prelude.{
  ◌≡◌, refl, ap, subst, ◌∙◌, inl, inr, String, Option, none, some, ◌∷◌, ◌==◌, eq_refl, Bool-cases,
  Option-cases,
}
use acgps_public.Py.Result.{ok, raise, >>=-eq-ok, ok-injective}
use acgps_public.Py.Laws.{eq_of_==}
use acgps_public.Py.Value.{lookup}
use acgps_public.Decisions.{
  Files, Formats, Request, Resolution, DecisionQueue, write_once, file_name, create, resolve,
  validate_request, validate_resolution, refuse,
}

-- Each file of the first directory is in the second one, with its content.
pub record Stays (files after : Files) : Type 0 where
  pub kept : (n c : String) → lookup n files ≡ some c → lookup n after ≡ some c

pub Stays-refl : (files : Files) → Stays files files
Stays-refl files = record { kept = λ n c h. h }

pub Stays-trans : {f g h : Files} → Stays f g → Stays g h → Stays f h
Stays-trans s t = record { kept = λ n c h. t.kept n c (s.kept n c h) }

new_file :
    (files : Files) (name payload : String)
    → lookup name files ≡ none
    → Stays files ((name, payload) ∷ files) × (lookup name ((name, payload) ∷ files) ≡ some payload)
unfolding lookup
new_file files name payload missing = (record { kept = kept }, rw (eq_refl name) refl)
  where
    kept : (n c : String) → lookup n files ≡ some c → lookup n ((name, payload) ∷ files) ≡ some c
    kept n c h = elim (Bool-cases (n == name)) [
      | inl same ↦
          let e : n ≡ name = eq_of_== n name same in
          absurd (nothing (lookup name files) c missing (subst (λ q. lookup q files ≡ some c) e h))
      | inr other ↦ rw other h
    ]
      where
        nothing : (o : Option String) (c : String) → o ≡ none → o ≡ some c → ⊥
        nothing o c p q = cc

-- A write that returns leaves the payload under its name, and every other file as it was.
pub write_once-Stays :
    (files : Files) (name payload : String) {after : Files}
    → write_once files name payload ≡ ok after
    → Stays files after × (lookup name after ≡ some payload)
unfolding write_once
write_once-Stays files name payload {after} h = elim (Option-cases (lookup name files)) [
  | inl missing ↦
      let e : ((name, payload) ∷ files) ≡ after = ok-injective (rw (missing, write_once) at h) in
      subst (λ (q : Files). Stays files q × (lookup name q ≡ some payload)) e
        (new_file files name payload missing)
  | inr (there, found) ↦ elim (Bool-cases (there == payload)) [
    | inl same ↦
        let e : files ≡ after = ok-injective (rw (found, same, write_once) at h) in
        subst (λ (q : Files). Stays files q × (lookup name q ≡ some payload)) e
          (Stays-refl files, found ∙ ap some (eq_of_== there payload same))
    | inr other ↦ absurd (refused (rw (found, other, write_once) at h))
  ]
]
  where
    refused : {e : String} → raise e ≡ ok after → ⊥
    refused p = cc

-- One call that returns, with the queue that it leaves.
pub data Step (formats : Formats) : DecisionQueue → DecisionQueue → Type 0 where
  created :
      {q after : DecisionQueue} (r : Request) → create formats r q ≡ ok after → Step formats q after
  resolved :
      {q after : DecisionQueue} (r : Resolution)
      → resolve formats r q ≡ ok after
      → Step formats q after

pub data Run (formats : Formats) (q : DecisionQueue) : DecisionQueue → Type 0 where
  start : Run formats q q
  next : {g h : DecisionQueue} → Run formats q g → Step formats g h → Run formats q h

create-Stays :
    (formats : Formats) (r : Request) (q : DecisionQueue) {after : DecisionQueue}
    → create formats r q ≡ ok after
    → Stays q.pending after.pending × Stays q.resolved after.resolved
unfolding create
create-Stays formats r q h =
    let (_, _, h₁) = >>=-eq-ok (validate_request formats r) _ h in
    let (_, _, h₂) = >>=-eq-ok (refuse (formats.path_error r.decision_id)) _ h₁ in
    let (pending, e, h₃) =
      >>=-eq-ok (write_once q.pending (file_name r.decision_id) (formats.request_json r)) _ h₂ in
    subst (λ (d : DecisionQueue). Stays q.pending d.pending × Stays q.resolved d.resolved)
      (ok-injective h₃) ((write_once-Stays q.pending _ _ e).0, Stays-refl q.resolved)

resolve-Stays :
    (formats : Formats) (r : Resolution) (q : DecisionQueue) {after : DecisionQueue}
    → resolve formats r q ≡ ok after
    → Stays q.pending after.pending × Stays q.resolved after.resolved
unfolding resolve
resolve-Stays formats r q h =
    let (_, _, h₁) = >>=-eq-ok (validate_resolution formats r q) _ h in
    let (written, e, h₂) =
      >>=-eq-ok (write_once q.resolved (file_name r.decision_id) (formats.resolution_json r)) _
        h₁ in
    subst (λ (d : DecisionQueue). Stays q.pending d.pending × Stays q.resolved d.resolved)
      (ok-injective h₂) (Stays-refl q.pending, (write_once-Stays q.resolved _ _ e).0)

Step-Stays :
    {formats : Formats} {q after : DecisionQueue}
    → Step formats q after
    → Stays q.pending after.pending × Stays q.resolved after.resolved
Step-Stays {formats} {q = q} (created r h) = create-Stays formats r q h
Step-Stays {formats} {q = q} (resolved r h) = resolve-Stays formats r q h

-- Whatever creations and resolutions follow on a queue, each of its files keeps its content.
pub files_stay :
    {formats : Formats} {q after : DecisionQueue}
    → Run formats q after
    → Stays q.pending after.pending × Stays q.resolved after.resolved
files_stay {q = q} start = (Stays-refl q.pending, Stays-refl q.resolved)
files_stay (next run step) =
    let before = files_stay run in
    let last = Step-Stays step in (Stays-trans before.0 last.0, Stays-trans before.1 last.1)
