-- ===== src/Decisions/Waiting.antt =====
-- What `list_pending` lists.
use acgps_public.Prelude.{
  ◌≡◌, refl, subst, sym, ap, ◌∙◌, some, none, ◌⊎◌, inl, inr, String, Bool, true, false, List, [],
  ◌∷◌, mem, All, eq_refl, Option, arith, if◌then◌else◌,
}
use acgps_public.Py.Result.{ok, >>=-eq-ok, ok-injective, require, require-eq-ok}
use acgps_public.Py.Laws.{All-map}
use acgps_public.Py.Text.{sorted}
use acgps_public.Py.Value.{keys, lookup}
use acgps_public.Decisions.{
  Formats, Workflow, Request, Resolution, DecisionQueue, read_pending, waiting_from, require_match,
  list_pending, file_name, is_settled, is_committed, validate_against, validate_request, refuse,
}
use acgps_public.Decisions.Resolved.{Fits, validate_against-Fits, same_text}

-- The request is in the list.
abbrev pub In : Request → List Request → Type 0
In r [] = ⊥
In r (x ∷ xs) = (r ≡ x) ⊎ In r xs

module _ (formats : Formats) (workflow : Option Workflow) (q : DecisionQueue) where
  -- The file holds the request, which is pending.
  pub record IsPending (name : String) (r : Request) : Type 0 where
    pub content : String
    pub is_file : lookup name q.pending ≡ some content
    pub is_read : formats.read_request content ≡ some r
    pub status : r.status ≡ "PENDING"

  -- The resolution file of the request holds a resolution that fits it.
  pub record IsAnswered (r : Request) (resolution : Resolution) : Type 0 where
    pub content : String
    pub is_file : lookup (file_name r.decision_id) q.resolved ≡ some content
    pub is_read : formats.read_resolution content ≡ some resolution
    pub fits : Fits resolution r

  -- The request is answered, and the store, where the queue has one, has committed the answer.
  pub record IsResolved (r : Request) : Type 0 where
    pub resolution : Resolution
    pub answered : IsAnswered r resolution
    pub committed : (w : Workflow) → workflow ≡ some w → w.has_committed resolution ≡ ok true

  -- The request has no resolution file, or the store has not committed its answer.
  pub data IsOpen (r : Request) : Type 0 where
    no_file : lookup (file_name r.decision_id) q.resolved ≡ none → IsOpen r
    not_committed :
        (w : Workflow) (resolution : Resolution)
        → workflow ≡ some w
        → IsAnswered r resolution
        → w.has_committed resolution ≡ ok false
        → IsOpen r

  -- The file holds a pending request that is resolved or is in the list.
  pub record IsCovered (rs : List Request) (name : String) : Type 0 where
    pub request : Request
    pub pending : IsPending name request
    pub listed : IsResolved request ⊎ In request rs

  -- The request comes from one of the files, and is open.
  pub record IsWaiting (names : List String) (r : Request) : Type 0 where
    pub name : String
    pub is_name : mem name names ≡ true
    pub pending : IsPending name r
    pub unresolved : IsOpen r

  -- What a request is, by the test on it.
  abbrev Status : Request → Bool → Type 0
  Status r true = IsResolved r
  Status r false = IsOpen r

  is_committed-Status :
      (r : Request) (resolution : Resolution) {b : Bool}
      → IsAnswered r resolution
      → is_committed workflow resolution ≡ ok b
      → Status r b
  is_committed-Status r resolution {b} answered h = by_store workflow refl h
    where
      by_store :
          (o : Option Workflow) → workflow ≡ o → is_committed o resolution ≡ ok b → Status r b
      by_store none e k = subst (Status r) (ok-injective k) (record {
        resolution = resolution;
        answered = answered;
        committed = λ w is_w. absurd (no_store (sym e ∙ is_w));
      })
        where
          no_store : {w : Workflow} → ◌≡◌ {A = Option Workflow} none (some w) → ⊥
          no_store p = cc
      by_store (some w) e k = by_answer b refl
        where
          same_store : {v : Workflow} → ◌≡◌ {A = Option Workflow} (some w) (some v) → w ≡ v
          same_store p = cc

          by_answer : (c : Bool) → b ≡ c → Status r b
          by_answer true is_b = subst (Status r) (sym is_b) (record {
            resolution = resolution;
            answered = answered;
            committed = λ v is_v.
                subst (λ (x : Workflow). x.has_committed resolution ≡ ok true)
                  (same_store (sym e ∙ is_v)) (k ∙ ap (λ x. ok x) is_b);
          })
          by_answer false is_b =
              subst (Status r) (sym is_b)
                (not_committed w resolution e answered (k ∙ ap (λ x. ok x) is_b))

  is_settled-Status :
      (r : Request) {b : Bool}
      → is_settled formats workflow r (lookup (file_name r.decision_id) q.resolved) ≡ ok b
      → Status r b
  unfolding is_settled
  is_settled-Status r {b} h = by_file (lookup (file_name r.decision_id) q.resolved) refl h
    where
      by_file :
          (o : Option String)
          → lookup (file_name r.decision_id) q.resolved ≡ o
          → is_settled formats workflow r o ≡ ok b
          → Status r b
      by_file none e k = subst (Status r) (ok-injective k) (no_file e)
      by_file (some content) e k =
          let (resolution, read, k₁) =
            >>=-eq-ok (require (formats.read_resolution content) _) _ k in
          let (_, fits, k₂) = >>=-eq-ok (validate_against formats resolution r) _ k₁ in
          is_committed-Status r resolution
            (record {
              content = content;
              is_file = e;
              is_read = require-eq-ok _ _ read;
              fits = validate_against-Fits formats resolution r fits;
            })
            k₂

  read_pending-inv :
      (name : String) (r : Request) (settled : Bool)
      → read_pending formats workflow q name ≡ ok (r, settled)
      → IsPending name r × Status r settled
  unfolding read_pending validate_request
  read_pending-inv name r settled h =
      let (content, there, h₁) = >>=-eq-ok (require (lookup name q.pending) _) _ h in
      let (request, read, h₂) = >>=-eq-ok (require (formats.read_request content) _) _ h₁ in
      let (_, valid, h₃) = >>=-eq-ok (validate_request formats request) _ h₂ in
      let (_, _, pending) = >>=-eq-ok (refuse (formats.request_error request)) _ valid in
      let (_, _, h₄) = >>=-eq-ok (refuse (formats.path_error request.decision_id)) _ h₃ in
      let (b, test, h₅) =
        >>=-eq-ok
          (is_settled formats workflow request (lookup (file_name request.decision_id) q.resolved))
          _ h₄ in
      subst (λ (p : Request × Bool). IsPending name p.0 × Status p.0 p.1) (ok-injective h₅)
        (
          record {
            content = content;
            is_file = require-eq-ok _ _ there;
            is_read = require-eq-ok _ _ read;
            status = same_text _ _ _ pending;
          },
          is_settled-Status request test,
        )

  IsCovered-later :
      (settled : Bool) (r : Request) (rest : List Request) (name : String)
      → IsCovered rest name
      → IsCovered (if settled then rest else r ∷ rest) name
  IsCovered-later true r rest name c = c
  IsCovered-later false r rest name c = record {
    request = c.request;
    pending = c.pending;
    listed = later c.listed;
  }
    where
      later :
          IsResolved c.request ⊎ In c.request rest → IsResolved c.request ⊎ In c.request (r ∷ rest)
      later (inl s) = inl s
      later (inr i) = inr (inr i)

  IsCovered-here :
      (name : String) (r : Request) (settled : Bool) (rest : List Request)
      → IsPending name r
      → Status r settled
      → IsCovered (if settled then rest else r ∷ rest) name
  IsCovered-here name r true rest pending resolved = record {
    request = r;
    pending = pending;
    listed = inl resolved;
  }
  IsCovered-here name r false rest pending unresolved = record {
    request = r;
    pending = pending;
    listed = inr (inl refl);
  }

  IsWaiting-later :
      (name : String) (names : List String) (r : Request)
      → IsWaiting names r
      → IsWaiting (name ∷ names) r
  unfolding mem
  IsWaiting-later name names r w = record {
    name = w.name;
    is_name = ground (arith, w.is_name);
    pending = w.pending;
    unresolved = w.unresolved;
  }

  IsWaiting-entry :
      (name : String) (names : List String) (r : Request) (settled : Bool) (rest : List Request)
      → IsPending name r
      → Status r settled
      → All (IsWaiting (name ∷ names)) rest
      → All (IsWaiting (name ∷ names)) (if settled then rest else r ∷ rest)
  unfolding mem
  IsWaiting-entry name names r true rest pending resolved h = h
  IsWaiting-entry name names r false rest pending unresolved h = (
    record {
      name = name;
      is_name = rw (eq_refl name) refl;
      pending = pending;
      unresolved = unresolved;
    },
    h,
  )

  waiting_from-exact :
      (names : List String) {rs : List Request}
      → waiting_from formats workflow q names ≡ ok rs
      → All (IsCovered rs) names × All (IsWaiting names) rs
  unfolding waiting_from
  waiting_from-exact [] {rs} h = (tt, subst (λ q. All (IsWaiting []) q) (ok-injective h) tt)
  waiting_from-exact (name ∷ names) {rs} h =
      let ((r, settled), e, h₁) = >>=-eq-ok (read_pending formats workflow q name) _ h in
      let (pending, status) = read_pending-inv name r settled e in
      let (rest, e₁, h₂) = >>=-eq-ok (waiting_from formats workflow q names) _ h₁ in
      let (covered, waiting) = waiting_from-exact names {rs = rest} e₁ in
      subst
        (λ (ls : List Request).
          All (IsCovered ls) (name ∷ names) × All (IsWaiting (name ∷ names)) ls)
        (ok-injective h₂)
        (
          (
            IsCovered-here name r settled rest pending status,
            All-map _ _ names (IsCovered-later settled r rest) covered,
          ),
          IsWaiting-entry name names r settled rest pending status
              (All-map _ _ rest (IsWaiting-later name names) waiting),
        )

  -- The list of pending requests is exact: each pending file holds a pending request, which is in the
  -- list or has a resolution that fits it and that the store, where there is one, has committed; and
  -- each request of the list is that of a pending file, and has no resolution file or one that the
  -- store has not committed.
  pub list_pending-exact :
      {rs : List Request}
      → list_pending formats workflow q ≡ ok rs
      → All (IsCovered rs) (sorted (keys q.pending)) × All (IsWaiting (sorted (keys q.pending))) rs
  unfolding list_pending
  list_pending-exact h =
      let (records, e, h₁) =
        >>=-eq-ok (waiting_from formats workflow q (sorted (keys q.pending))) _ h in
      let (_, _, h₂) = >>=-eq-ok (require_match workflow records) _ h₁ in
      subst
        (λ (ls : List Request).
          All (IsCovered ls) (sorted (keys q.pending))
          × All (IsWaiting (sorted (keys q.pending))) ls)
        (ok-injective h₂) (waiting_from-exact (sorted (keys q.pending)) e)
