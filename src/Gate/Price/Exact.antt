-- ===== src/Gate/Price/Exact.antt =====
-- A price is exact: it is the sum of what the items ask, and never more than MAX_UNITS.
use agent_governance_policie.Prelude.{
  ℕ, ◌⊎◌, ◌+◌, ◌≤◌, ◌<◌, ◌≡◌, ap, Option, none, some, Option-cases, true, false, Bool-cases, inl,
  inr, List, [], ◌∷◌, String, leb, leb→le, le→leb, lt→leb, checked_add, u64_max, arith,
}
use agent_governance_policie.Gate.Json.{Value, as_u64}
use agent_governance_policie.Gate.Policy.{max_units}
use agent_governance_policie.Gate.Price.{Outcome, dot_path_value, exact_minor_units, spend_total}

-- The amount that an item states at a path, whatever its size.
unfoldable pub amount_at : List String → Value → Option ℕ
amount_at path item = elim (dot_path_value item path) [ none ↦ none | some v ↦ as_u64 v ]

-- The sum of what all the items state, if each of them states an amount.
unfoldable pub stated_sum : List String → List Value → Option ℕ
unfolding amount_at
stated_sum path [] = some 0
stated_sum path (item ∷ items) = elim (amount_at path item) [
  | none ↦ none
  | some a ↦ elim (stated_sum path items) [ none ↦ none | some s ↦ some (a + s) ]
]

amount_at-some :
    (path : List String) (item : Value) (a : ℕ)
    → amount_at path item ≡ some a
    → (v : Value) × (dot_path_value item path ≡ some v) × (as_u64 v ≡ some a)
unfolding amount_at
amount_at-some path item a h = elim (Option-cases (dot_path_value item path)) [
  | inl e ↦ absurd (ground (arith, e, h))
  | inr (v, e) ↦ (v, e, ground (arith, e, h))
]

amount_at-none :
    (path : List String) (item : Value)
    → amount_at path item ≡ none
    → (dot_path_value item path ≡ none)
      ⊎ ((v : Value) × (dot_path_value item path ≡ some v) × (as_u64 v ≡ none))
unfolding amount_at
amount_at-none path item h = elim (Option-cases (dot_path_value item path)) [
  | inl e ↦ inl e
  | inr (v, e) ↦ inr (v, e, ground (arith, e, h))
]

module _ (path : List String) (total : ℕ) (item : Value) (items : List Value) where
  pub step-none :
      amount_at path item ≡ none → spend_total path total (item ∷ items) ≡ Outcome.unpriceable
  unfolding spend_total exact_minor_units
  step-none h = elim (amount_at-none path item h) [
    | inl e ↦ rw (e, spend_total)
    | inr (v, e, f) ↦ rw (e, f, spend_total)
  ]

  pub step-within :
      (a : ℕ)
      → amount_at path item ≡ some a
      → total + a ≤ max_units
      → spend_total path total (item ∷ items) ≡ spend_total path (total + a) items
  unfolding spend_total exact_minor_units checked_add
  step-within a h fits =
      let (v, e, f) = amount_at-some path item a h in
      let small : leb a max_units ≡ true = le→leb a max_units (omega arith) in
      let sum : leb (total + a) max_units ≡ true = le→leb (total + a) max_units fits in
      let word : leb (total + a) u64_max ≡ true = le→leb (total + a) u64_max (omega arith) in
      rw (e, f, small, word, sum, spend_total)

  pub step-over :
      (a : ℕ)
      → amount_at path item ≡ some a
      → max_units < total + a
      → spend_total path total (item ∷ items) ≡ Outcome.out_of_range
  unfolding spend_total exact_minor_units checked_add
  step-over a h over =
      let (v, e, f) = amount_at-some path item a h in
      let sum : leb (total + a) max_units ≡ false = lt→leb (total + a) max_units over in
      elim (Bool-cases (leb a max_units)) [
        | inr g ↦ rw (e, f, g, spend_total)
        | inl g ↦ elim (Bool-cases (leb (total + a) u64_max)) [
          | inr w ↦ rw (e, f, g, w, spend_total)
          | inl w ↦ rw (e, f, g, w, sum, spend_total)
        ]
      ]

-- The three ways in which a stated sum comes about.
stated_sum-some :
    (path : List String) (item : Value) (items : List Value) (s : ℕ)
    → stated_sum path (item ∷ items) ≡ some s
    → (a r : ℕ) × (amount_at path item ≡ some a) × (stated_sum path items ≡ some r) × (a + r ≡ s)
unfolding stated_sum
stated_sum-some path item items s h = elim (Option-cases (amount_at path item)) [
  | inl e ↦ absurd (ground (arith, e, h))
  | inr (a, e) ↦ elim (Option-cases (stated_sum path items)) [
    | inl f ↦ absurd (ground (arith, e, f, h))
    | inr (r, f) ↦ (a, r, e, f, ground (arith, e, f, h))
  ]
]

-- Stated amounts whose sum fits are charged exactly.
pub spend_total-exact :
    (path : List String) (items : List Value) (total s : ℕ)
    → stated_sum path items ≡ some s
    → total + s ≤ max_units
    → spend_total path total items ≡ Outcome.known (total + s)
unfolding stated_sum spend_total
spend_total-exact path [] total s h fits = ground (arith, h)
spend_total-exact path (item ∷ items) total s h fits =
    let (a, r, e, f, g) = stated_sum-some path item items s h in
    let rest = spend_total-exact path items (total + a) r f (omega arith) in
    rw (step-within path total item items a e (omega arith), rest) (ap Outcome.known (omega arith))

-- Stated amounts whose sum does not fit are out of range.
pub spend_total-over :
    (path : List String) (items : List Value) (total s : ℕ)
    → stated_sum path items ≡ some s
    → total ≤ max_units
    → max_units < total + s
    → spend_total path total items ≡ Outcome.out_of_range
unfolding stated_sum
spend_total-over path [] total s h low over = absurd (ground (arith, h))
spend_total-over path (item ∷ items) total s h low over =
    let (a, r, e, f, g) = stated_sum-some path item items s h in
    elim (Bool-cases (leb (total + a) max_units)) [
      | inl w ↦
          let small = leb→le (total + a) max_units w in
          rw (step-within path total item items a e small)
            (spend_total-over path items (total + a) r f small (omega arith))
      | inr w ↦ step-over path total item items a e (ground (arith, w))
    ]
