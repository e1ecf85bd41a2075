-- ===== src/Policy/Routing/Provenance.antt =====
-- `_canonical_provenance` drops repetitions and nothing else.
use acgps_public.Prelude.{
  ◌≡◌, refl, ap, String, false, not, ◌&&◌, List, [], ◌∷◌, arith, mem, inl, inr, ◌==◌, eq_refl,
  Bool-cases,
}
use acgps_public.Py.Laws.{eq_of_==}
use acgps_public.Policy.Routing.{provenance_from, canonical_provenance}

-- No text stands in the list twice.
abbrev pub Distinct : List String → Type 0
Distinct [] = Unit
Distinct (s ∷ ss) = (mem s ss ≡ false) × Distinct ss

mem-provenance_from :
    (seen values : List String) (s : String)
    → mem s (provenance_from seen values) ≡ (mem s values && not (mem s seen))
unfolding provenance_from mem
mem-provenance_from seen [] s = refl
mem-provenance_from seen (v ∷ vs) s = elim (Bool-cases (s == v)) [
  | inl same ↦
      let e : s ≡ v = eq_of_== s v same in
      ground (
        arith,
        mem-provenance_from seen vs s,
        mem-provenance_from (v ∷ seen) vs s,
        ap (λ t. mem t seen) e,
      )
  | inr other ↦ ground (arith, mem-provenance_from seen vs s, mem-provenance_from (v ∷ seen) vs s)
]

provenance_from-Distinct : (seen values : List String) → Distinct (provenance_from seen values)
unfolding provenance_from mem
provenance_from-Distinct seen [] = tt
provenance_from-Distinct seen (v ∷ vs) = ground (
  arith,
  provenance_from-Distinct seen vs,
  provenance_from-Distinct (v ∷ seen) vs,
  mem-provenance_from (v ∷ seen) vs v,
  eq_refl v,
)

-- The result has the members of the list, each of them once.
canonical_provenance-Distinct :
    (values : List String)
    → Distinct (canonical_provenance values)
      × ((s : String) → mem s (canonical_provenance values) ≡ mem s values)
unfolding canonical_provenance mem
canonical_provenance-Distinct values =
    (provenance_from-Distinct [] values, λ s. ground (arith, mem-provenance_from [] values s))
