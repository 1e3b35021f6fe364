-- ===== src/Gate/Price/Law.antt =====
-- The price of a request, described without the loop: in each mode what the governed items ask for
-- together, which the gate charges if it is at most MAX_UNITS and refuses otherwise.
use agent_governance_policie.Prelude.{
  ℕ, ◌+◌, ◌*◌, ◌≤◌, ◌≡◌, ◌↔◌, ◌⊎◌, refl, ap, ◌∙◌, inl, inr, none, some, Option-cases, Bool-cases,
  List, [], ◌∷◌, length, String, leb, leb→le, checked_mul, u64_max, arith,
}
use agent_governance_policie.Gate.Json.{Value}
use agent_governance_policie.Gate.Policy.{max_units, Gate, Contribution}
use agent_governance_policie.Gate.Price.{Outcome, per_item_total, spend_total, price}
use agent_governance_policie.Gate.Price.Exact.{
  amount_at, stated_sum, step-none, step-within, step-over, spend_total-exact, spend_total-over,
}

stated_sum-none :
    (path : List String) (item : Value) (items : List Value)
    → stated_sum path (item ∷ items) ≡ none
    → (amount_at path item ≡ none)
      ⊎ ((a : ℕ) × (amount_at path item ≡ some a) × (stated_sum path items ≡ none))
unfolding stated_sum
stated_sum-none path item items h = elim (Option-cases (amount_at path item)) [
  | inl e ↦ inl e
  | inr (a, e) ↦ elim (Option-cases (stated_sum path items)) [
    | inl f ↦ inr (a, e, f)
    | inr (r, f) ↦ absurd (ground (arith, e, f, h))
  ]
]

-- One item without an amount fails the whole batch.
spend_total-missing :
    (path : List String) (items : List Value) (total : ℕ)
    → stated_sum path items ≡ none
    → (spend_total path total items ≡ Outcome.unpriceable)
      ⊎ (spend_total path total items ≡ Outcome.out_of_range)
unfolding stated_sum
spend_total-missing path [] total h = absurd (ground (arith, h))
spend_total-missing path (item ∷ items) total h = elim (stated_sum-none path item items h) [
  | inl e ↦ inl (step-none path total item items e)
  | inr (a, e, f) ↦ elim (Bool-cases (leb (total + a) max_units)) [
    | inl w ↦
        rw (step-within path total item items a e (leb→le (total + a) max_units w))
          (spend_total-missing path items (total + a) f)
    | inr w ↦ inr (step-over path total item items a e (ground (arith, w)))
  ]
]

pub Contribution-cases :
    (c : Contribution)
    → (c ≡ Contribution.fixed_weight)
      ⊎ ((c ≡ Contribution.estimated_token_weight) ⊎ (c ≡ Contribution.spend_amount))
Contribution-cases Contribution.fixed_weight = inl refl
Contribution-cases Contribution.estimated_token_weight = inr (inl refl)
Contribution-cases Contribution.spend_amount = inr (inr refl)

-- What the items ask for together.
unfoldable pub IsAsked : Gate → List Value → ℕ → Type 0
IsAsked gate items n = elim gate.contribution [
  | Contribution.fixed_weight ↦ n ≡ gate.fixed_weight * length items
  | Contribution.estimated_token_weight ↦ n ≡ gate.estimated_tokens * length items
  | Contribution.spend_amount ↦ stated_sum gate.spend_amount_field items ≡ some n
]

per_item_total_lem :
    (w k n : ℕ) → (per_item_total w k ≡ Outcome.known n) ↔ ((n ≡ w * k) × (n ≤ max_units))
unfolding per_item_total checked_mul
per_item_total_lem w k n = (forward w k n, backward w k n)
  where
    forward : (w k n : ℕ) → per_item_total w k ≡ Outcome.known n → (n ≡ w * k) × (n ≤ max_units)
    forward w k n h = elim (Bool-cases (leb (w * k) u64_max)) [
      | inl e ↦ elim (Bool-cases (leb (w * k) max_units)) [
        | inl f ↦ (ground (arith, e, f, h), ground (arith, e, f, h))
        | inr f ↦ absurd (ground (arith, e, f, h))
      ]
      | inr e ↦ absurd (ground (arith, e, h))
    ]

    backward : (w k n : ℕ) → (n ≡ w * k) × (n ≤ max_units) → per_item_total w k ≡ Outcome.known n
    backward w k n (e, h) = ground (arith, e, h)

charged :
    (path : List String) (items : List Value) (s : ℕ)
    → stated_sum path items ≡ some s
    → s ≤ max_units
    → spend_total path 0 items ≡ Outcome.known s
charged path items s e h =
    spend_total-exact path items 0 s e (omega arith) ∙ ap Outcome.known (omega arith)

spend_total_lem :
    (path : List String) (items : List Value) (n : ℕ)
    → (spend_total path 0 items ≡ Outcome.known n)
      ↔ ((stated_sum path items ≡ some n) × (n ≤ max_units))
spend_total_lem path items n = (forward, backward)
  where
    forward :
        spend_total path 0 items ≡ Outcome.known n
        → (stated_sum path items ≡ some n) × (n ≤ max_units)
    forward h = elim (Option-cases (stated_sum path items)) [
      | inl e ↦ elim (spend_total-missing path items 0 e) [
        | inl f ↦ absurd (ground (arith, f, h))
        | inr f ↦ absurd (ground (arith, f, h))
      ]
      | inr (s, e) ↦ elim (Bool-cases (leb s max_units)) [
        | inl w ↦
            let f = charged path items s e (leb→le s max_units w) in
            (ground (arith, e, f, h), ground (arith, f, h, w))
        | inr w ↦
            let f = spend_total-over path items 0 s e (omega arith) (ground (arith, w)) in
            absurd (ground (arith, f, h))
      ]
    ]

    backward :
        (stated_sum path items ≡ some n) × (n ≤ max_units)
        → spend_total path 0 items ≡ Outcome.known n
    backward (e, h) = charged path items n e h

-- A request with at least one governed item is priced at `n` exactly if `n` is what its governed
-- items ask for together and is at most MAX_UNITS: nothing wraps, is rounded, or is left out.
pub price_lem :
    (gate : Gate) (item : Value) (items : List Value) (n : ℕ)
    → (price gate (item ∷ items) ≡ Outcome.known n)
      ↔ (IsAsked gate (item ∷ items) n × (n ≤ max_units))
unfolding price IsAsked
price_lem gate item items n = elim (Contribution-cases gate.contribution) [
  | inl e ↦ rw (e, price) (per_item_total_lem gate.fixed_weight (length (item ∷ items)) n)
  | inr (inl e) ↦ rw (e, price) (per_item_total_lem gate.estimated_tokens (length (item ∷ items)) n)
  | inr (inr e) ↦ rw (e, price) (spend_total_lem gate.spend_amount_field (item ∷ items) n)
]
