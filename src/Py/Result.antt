-- ===== src/Py/Result.antt =====
-- Calls that return or raise.
use acgps_public.Prelude.{
  ◌≡◌, refl, ap, Bool, true, false, Option, none, some, List, [], ◌∷◌, ℕ, ◌+◌,
}

-- `Py E A` is a call that returns an `A` or raises an `E`.
pub data Py {ℓ κ} (E : Type ℓ) (A : Type κ) : Type (ℓ ⊔ κ) where
  ok : A → Py E A
  raise : E → Py E A

infixl 5 ◌>>=◌ ◌>>◌
abbrev pub ◌>>=◌ {ℓ κ ι} : {E : Type ℓ} {A : Type κ} {B : Type ι} → Py E A → (A → Py E B) → Py E B
ok a >>= f = f a
raise e >>= f = raise e

abbrev pub ◌>>◌ {ℓ κ ι} : {E : Type ℓ} {A : Type κ} {B : Type ι} → Py E A → Py E B → Py E B
m >> k = m >>= λ _. k

-- `if test: raise e`
abbrev pub raise_if {ℓ} : {E : Type ℓ} → Bool → E → Py E (Unit {0})
raise_if true e = raise e
raise_if false e = ok tt

-- The value that a test has found, or the error.
abbrev pub require {ℓ κ} : {E : Type ℓ} {A : Type κ} → Option A → E → Py E A
require none e = raise e
require (some a) e = ok a

module _ {ℓ κ} {E : Type ℓ} {A : Type κ} where
  -- `for item in xs: body(item)`
  unfoldable pub for_each : List A → (A → Py E (Unit {0})) → Py E (Unit {0})
  for_each [] body = ok tt
  for_each (x ∷ xs) body = body x >>= λ _. for_each xs body

  -- `for index, item in enumerate(xs): body(index, item)`
  unfoldable pub for_enumerate : ℕ → List A → (ℕ → A → Py E (Unit {0})) → Py E (Unit {0})
  for_enumerate i [] body = ok tt
  for_enumerate i (x ∷ xs) body = body i x >>= λ _. for_enumerate (i + 1) xs body

-- A chain that has returned went through its first call.
pub >>=-eq-ok {ℓ κ ι} :
    {E : Type ℓ} {A : Type κ} {B : Type ι} (call : Py E A) (rest : A → Py E B) {out : B}
    → (call >>= rest) ≡ ok out
    → (v : A) × (call ≡ ok v) × (rest v ≡ ok out)
>>=-eq-ok (ok v) rest returned = (v, refl, returned)
>>=-eq-ok (raise e) rest returned = cc

pub ok-injective {ℓ κ} :
    {E : Type ℓ} {A : Type κ} {a b : A} → ◌≡◌ {A = Py E A} (ok a) (ok b) → a ≡ b
ok-injective h = cc

pub require-eq-ok {ℓ κ} :
    {E : Type ℓ} {A : Type κ} (o : Option A) (e : E) {a : A} → require o e ≡ ok a → o ≡ some a
require-eq-ok none e h = cc
require-eq-ok (some a) e h = ap some (ok-injective h)
