-- ===== src/Gate/Price/Classify.antt =====
-- What the gate lets pass without a price: only what it can positively read as ungoverned.
use mathlib.Core.Path.{subst}
use agent_governance_policie.Prelude.{
  ℕ, ◌+◌, ◌≡◌, ◌≢◌, ◌⊎◌, ap, refl, inl, inr, Option, none, some, Option-cases, true, false,
  Bool-cases, List, [], ◌∷◌, All, String, leb, leb→le, checked_mul, arith,
}
use agent_governance_policie.Gate.Json.{
  Items, nil, cons, items_of, Value, null, bool, number, string, array, object, Fields, member,
  member_is, no_duplicates,
}
use agent_governance_policie.Gate.Policy.{max_units, Gate, mem_text}
use agent_governance_policie.Gate.Price.Exact.{amount_at, step-none, step-within, step-over}
use agent_governance_policie.Gate.Price.Law.{Contribution-cases}
use agent_governance_policie.Gate.Price.{
  RawBody, Outcome, per_item_total, is_jsonrpc_response, method_governed, is_governed, spend_total,
  price, batch_items, governed_items, compute_contribution,
}

per_item_total-governed : (w k : ℕ) → per_item_total w k ≢ Outcome.ungoverned
unfolding per_item_total checked_mul
per_item_total-governed w k h = ground (arith, h)

spend_total-governed :
    (path : List String) (items : List Value) (total : ℕ)
    → spend_total path total items ≢ Outcome.ungoverned
unfolding spend_total
spend_total-governed path [] total h = ground (arith, h)
spend_total-governed path (item ∷ items) total h = elim (Option-cases (amount_at path item)) [
  | inl e ↦ ground (arith, step-none path total item items e, h)
  | inr (a, e) ↦ elim (Bool-cases (leb (total + a) max_units)) [
    | inl w ↦
        spend_total-governed path items (total + a)
          (rw (step-within path total item items a e (leb→le (total + a) max_units w)) at h)
    | inr w ↦ ground (arith, step-over path total item items a e (ground (arith, w)), h)
  ]
]

price-governed :
    (gate : Gate) (item : Value) (items : List Value)
    → price gate (item ∷ items) ≢ Outcome.ungoverned
unfolding price
price-governed gate item items h = elim (Contribution-cases gate.contribution) [
  | inl e ↦ per_item_total-governed gate.fixed_weight _ (rw (e, price) at h)
  | inr (inl e) ↦ per_item_total-governed gate.estimated_tokens _ (rw (e, price) at h)
  | inr (inr e) ↦ spend_total-governed gate.spend_amount_field (item ∷ items) 0 (rw (e, price) at h)
]

-- The elements of an array.
abbrev pub elements : Items → List Value
elements nil = []
elements (cons v vs) = v ∷ elements vs

items_of-elements : (vs : Items) → items_of vs ≡ elements vs
items_of-elements nil = refl
items_of-elements (cons v vs) = ap (λ (l : List Value). v ∷ l) (items_of-elements vs)

-- A JSON-RPC 2.0 message that names another method, or a JSON-RPC response.
unfoldable pub IsUngoverned : List String → Value → Type 0
IsUngoverned methods item =
    (fs : Fields) × (item ≡ object fs)
    × (member_is fs "jsonrpc" "2.0" ≡ true)
    × (((m : String) × (member "method" fs ≡ some (string m)) × (mem_text m methods ≡ false))
        ⊎ ((member "method" fs ≡ none) × (is_jsonrpc_response item ≡ true)))

method_governed_lem :
    (methods : List String) (item : Value) (method : Option Value)
    → method_governed methods item method ≡ false
    → ((m : String) × (method ≡ some (string m)) × (mem_text m methods ≡ false))
      ⊎ ((method ≡ none) × (is_jsonrpc_response item ≡ true))
unfolding method_governed
method_governed_lem methods item none h = inr (refl, ground (arith, h))
method_governed_lem methods item (some (string m)) h = inl (m, refl, h)
method_governed_lem methods item (some null) h = absurd (ground (arith, h))
method_governed_lem methods item (some (bool b)) h = absurd (ground (arith, h))
method_governed_lem methods item (some (number n)) h = absurd (ground (arith, h))
method_governed_lem methods item (some (array vs)) h = absurd (ground (arith, h))
method_governed_lem methods item (some (object fs)) h = absurd (ground (arith, h))

is_governed-false :
    (methods : List String) (item : Value)
    → is_governed methods item ≡ false
    → IsUngoverned methods item
unfolding is_governed IsUngoverned
is_governed-false methods (object fs) h = elim (Bool-cases (member_is fs "jsonrpc" "2.0")) [
  | inl e ↦ (
    fs,
    refl,
    e,
    method_governed_lem methods (object fs) (member "method" fs) (rw (e, is_governed) at h),
  )
  | inr e ↦ absurd (ground (arith, rw (e, is_governed) at h))
]
is_governed-false methods null h = absurd (ground (arith, h))
is_governed-false methods (bool b) h = absurd (ground (arith, h))
is_governed-false methods (number n) h = absurd (ground (arith, h))
is_governed-false methods (string s) h = absurd (ground (arith, h))
is_governed-false methods (array vs) h = absurd (ground (arith, h))

governed_items-empty :
    (methods : List String) (items : List Value)
    → governed_items methods items ≡ []
    → All (IsUngoverned methods) items
unfolding governed_items
governed_items-empty methods [] h = tt
governed_items-empty methods (item ∷ items) h = elim (Bool-cases (is_governed methods item)) [
  | inl e ↦ absurd (ground (arith, rw (e, governed_items) at h))
  | inr e ↦ (
    is_governed-false methods item e,
    governed_items-empty methods items (rw (e, governed_items) at h),
  )
]

price-ungoverned :
    (gate : Gate) (items : List Value) → price gate items ≡ Outcome.ungoverned → items ≡ []
price-ungoverned gate [] h = refl
price-ungoverned gate (item ∷ items) h = absurd (price-governed gate item items h)

-- The messages of a document: each element of an array that is not empty, and any other document
-- itself.
abbrev pub messages : Value → List Value
messages (array nil) = array nil ∷ []
messages (array (cons v vs)) = elements (cons v vs)
messages v = v ∷ []

batch_items-messages : (root : Value) → batch_items root ≡ messages root
unfolding batch_items
batch_items-messages (array nil) = refl
batch_items-messages (array (cons v vs)) = ap (λ (l : List Value). v ∷ l) (items_of-elements vs)
batch_items-messages (object fs) = refl
batch_items-messages null = refl
batch_items-messages (bool b) = refl
batch_items-messages (number n) = refl
batch_items-messages (string s) = refl

-- `compute_contribution` finds a request ungoverned only if it has no body, or its body is JSON in
-- which no object names a member twice and each message of which is a JSON-RPC 2.0 message with a
-- method that is not governed, or a JSON-RPC response.
pub ungoverned_lem :
    (parse : List ℕ → Option Value) (gate : Gate) (raw : RawBody)
    → compute_contribution parse gate raw ≡ Outcome.ungoverned
    → (raw ≡ RawBody.no_body)
      ⊎ ((bytes : List ℕ) × (root : Value) × (raw ≡ RawBody.present bytes)
          × (parse bytes ≡ some root)
          × (no_duplicates root ≡ true)
          × All (IsUngoverned gate.governed_methods) (messages root))
unfolding compute_contribution
ungoverned_lem parse gate RawBody.no_body h = inl refl
ungoverned_lem parse gate RawBody.uninspectable h = absurd (ground (arith, h))
ungoverned_lem parse gate (RawBody.present bytes) h = elim (Option-cases (parse bytes)) [
  | inl e ↦ absurd (ground (arith, rw (e, compute_contribution) at h))
  | inr (root, e) ↦ elim (Bool-cases (no_duplicates root)) [
    | inl f ↦ inr (
      bytes,
      root,
      refl,
      e,
      f,
      subst (All (IsUngoverned gate.governed_methods)) (batch_items-messages root) (
          governed_items-empty gate.governed_methods (batch_items root)
            (price-ungoverned gate _ (rw (e, f, compute_contribution) at h))),
    )
    | inr f ↦ absurd (ground (arith, rw (e, f, compute_contribution) at h))
  ]
]
