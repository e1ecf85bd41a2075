-- ===== src/Policy/Climb/Highest.antt =====
-- The level that the loop over the risk triggers ends with is the highest of the levels it met.
use acgps_public.Prelude.{
  ℕ, ◌≤◌, ◌≡◌, ap, ◌∙◌, sym, ◌⊎◌, inl, inr, String, true, List, [], ◌∷◌, arith, ltb, ◌==◌, eq_refl,
  mem, Bool-cases, if◌then◌else◌,
}
use acgps_public.Py.Result.{ok, >>=-eq-ok, ok-injective}
use acgps_public.Py.Laws.{eq_of_==}
use acgps_public.Py.Value.{Value}
use acgps_public.Policy.Vocabulary.{rank}
use acgps_public.Policy.Climb.{Climb, Sources, candidate_level, raise_level, climb_trigger, climb}

-- Both values have a rank, and the first is not above the second.
pub record RankLe (v w : Value) : Type 0 where
  pub low : ℕ
  pub high : ℕ
  pub low_rank : rank v ≡ ok low
  pub high_rank : rank w ≡ ok high
  pub le : low ≤ high

pub rank_unique : (v : Value) (m n : ℕ) → rank v ≡ ok m → rank v ≡ ok n → m ≡ n
rank_unique v m n h k = ground arith

pub RankLe-trans : {u v w : Value} → RankLe u v → RankLe v w → RankLe u w
RankLe-trans {u} {v} a b = record {
  low = a.low;
  high = b.high;
  low_rank = a.low_rank;
  high_rank = b.high_rank;
  le = omega (arith, a.le, b.le, rank_unique v a.high b.low a.high_rank b.low_rank);
}

chosen :
    (candidate level v : Value) (c l : ℕ)
    → rank candidate ≡ ok c
    → rank level ≡ ok l
    → (if ltb l c then candidate else level) ≡ v
    → RankLe candidate v × RankLe level v × ((v ≡ candidate) ⊎ (v ≡ level))
chosen candidate level v c l ec el h = elim (Bool-cases (ltb l c)) [
  | inl higher ↦
      let e : v ≡ candidate = sym h ∙ rw higher in
      (
        record { low = c; high = c; low_rank = ec; high_rank = rw e ec; le = omega arith },
        record { low = l; high = c; low_rank = el; high_rank = rw e ec; le = ground arith },
        inl e,
      )
  | inr not_higher ↦
      let e : v ≡ level = sym h ∙ rw not_higher in
      (
        record { low = c; high = l; low_rank = ec; high_rank = rw e el; le = ground arith },
        record { low = l; high = l; low_rank = el; high_rank = rw e el; le = omega arith },
        inr e,
      )
]

-- The new level is the candidate or the old level, and it is below neither.
raise_level-RankLe :
    (candidate level : Value) {v : Value}
    → raise_level candidate level ≡ ok v
    → RankLe candidate v × RankLe level v × ((v ≡ candidate) ⊎ (v ≡ level))
unfolding raise_level
raise_level-RankLe candidate level {v} h =
    let (c, ec, h₁) = >>=-eq-ok (rank candidate) _ h in
    let (l, el, h₂) = >>=-eq-ok (rank level) _ h₁ in
    chosen candidate level v c l ec el (ok-injective h₂)

-- What one round has done when it returns.
climb_trigger-inv :
    (sources : Sources) (c : Climb) (trigger : String) {c' : Climb}
    → climb_trigger sources c trigger ≡ ok c'
    → (v : Value) × (candidate_level sources trigger ≡ ok v) × (raise_level v c.level ≡ ok c'.level)
unfolding climb_trigger
climb_trigger-inv sources c trigger h = ground arith

-- The level never falls.
climb-grows :
    (sources : Sources) (c : Climb) (triggers : List String) {c' : Climb} {n : ℕ}
    → rank c.level ≡ ok n
    → climb sources c triggers ≡ ok c'
    → RankLe c.level c'.level
unfolding climb
climb-grows sources c [] {c'} {n} r h = record {
  low = n;
  high = n;
  low_rank = r;
  high_rank = rw (← ok-injective h) r;
  le = omega arith;
}
climb-grows sources c (t ∷ ts) r h =
    let (c₁, step, rest) = >>=-eq-ok (climb_trigger sources c t) _ h in
    let (v, _, raised) = climb_trigger-inv sources c t step in
    let (_, up, _) = raise_level-RankLe v c.level raised in
    RankLe-trans up (climb-grows sources c₁ ts up.high_rank rest)

-- The level of a trigger, where it is a value with a rank not above `top`.
pub record LevelLe (sources : Sources) (trigger : String) (top : Value) : Type 0 where
  pub level : Value
  pub is_level : candidate_level sources trigger ≡ ok level
  pub below : RankLe level top

-- No trigger of the list has a level above the level that the loop ends with.
pub climb-above :
    (sources : Sources) (c : Climb) (triggers : List String) {c' : Climb} (t : String)
    → climb sources c triggers ≡ ok c'
    → mem t triggers ≡ true
    → LevelLe sources t c'.level
unfolding climb mem
climb-above sources c [] t h m = absurd (cc)
climb-above sources c (x ∷ xs) t h m =
    let (c₁, step, rest) = >>=-eq-ok (climb_trigger sources c x) _ h in
    let (v, found, raised) = climb_trigger-inv sources c x step in
    let (above, _, _) = raise_level-RankLe v c.level raised in
    elim (Bool-cases (t == x)) [
      | inl same ↦
          let e : t ≡ x = eq_of_== t x same in
          record {
            level = v;
            is_level = rw e found;
            below = RankLe-trans above (climb-grows sources c₁ xs above.high_rank rest);
          }
      | inr other ↦ climb-above sources c₁ xs t rest (rw other at m)
    ]

-- The level that the loop ends with is the one it began with, or the level of a trigger.
pub climb-attained :
    (sources : Sources) (c : Climb) (triggers : List String) {c' : Climb}
    → climb sources c triggers ≡ ok c'
    → (c'.level ≡ c.level)
      ⊎ ((t : String) × (mem t triggers ≡ true) × (candidate_level sources t ≡ ok c'.level))
unfolding climb mem
climb-attained sources c [] h = inl (ap (λ (k : Climb). k.level) (sym (ok-injective h)))
climb-attained sources c (x ∷ xs) {c'} h =
    let (c₁, step, rest) = >>=-eq-ok (climb_trigger sources c x) _ h in
    let (v, found, raised) = climb_trigger-inv sources c x step in
    let (_, _, which) = raise_level-RankLe v c.level raised in
    elim (climb-attained sources c₁ xs rest) [
      | inr (t, m, e) ↦ inr (t, ground arith, e)
      | inl same ↦ elim which [
        | inl is_v ↦ inr (x, simp eq_refl, rw (same ∙ is_v) found)
        | inr is_old ↦ inl (same ∙ is_old)
      ]
    ]
