-- ===== src/Gate/Price.antt =====
-- The price of a request: `compute_contribution` and what it calls in aggregate-risk-gate/src/lib.rs.
pub mod Exact
pub mod Law
pub mod Classify
use agent_governance_policie.Prelude.{
  ℕ, Option, none, some, Bool, true, false, not, ◌&&◌, List, [], ◌∷◌, is_empty, length, String,
  string_discrete, ite, if◌then◌else◌, leb, checked_add, checked_mul, Result, ok, err,
}
use agent_governance_policie.Gate.Json.{
  Value, array, object, string, Items, nil, cons, Fields, items_of, member, contains_key, as_object,
  as_u64, member_is, no_duplicates,
}
use agent_governance_policie.Gate.Policy.{max_units, Contribution, Gate, mem_text}

pub data RawBody : Type 0 where
  no_body uninspectable : RawBody
  present : List ℕ → RawBody

-- `RawBody::as_bytes`.
unfoldable pub as_bytes : RawBody → Option (List ℕ)
as_bytes (present bytes) = some bytes
as_bytes _ = none

pub data Outcome : Type 0 where
  known : ℕ → Outcome
  unpriceable out_of_range ungoverned : Outcome

-- The member that a path's segments lead to, through objects only.
unfoldable pub dot_path_value : Value → List String → Option Value
unfolding member
dot_path_value current [] = some current
dot_path_value current (segment ∷ path) =
    ite (string_discrete segment "") none (elim (as_object current) [
      | none ↦ none
      | some fs ↦ elim (member segment fs) [ none ↦ none | some v ↦ dot_path_value v path ]
    ])

unfoldable pub exact_minor_units : Value → Option (Result ℕ (Unit {0}))
exact_minor_units v = elim (as_u64 v) [
  | none ↦ none
  | some units ↦ some (if leb units max_units then ok units else err tt)
]

unfoldable pub per_item_total : ℕ → ℕ → Outcome
unfolding checked_mul
per_item_total per_item items = elim (checked_mul per_item items) [
  | none ↦ Outcome.out_of_range
  | some total ↦ if leb total max_units then Outcome.known total else Outcome.out_of_range
]

-- Whether exactly one of two holds.
unfoldable pub differ : Bool → Bool → Bool
differ true b = not b
differ false b = b

unfoldable pub is_jsonrpc_response : Value → Bool
unfolding member_is contains_key differ
is_jsonrpc_response item = elim (as_object item) [
  | none ↦ false
  | some fs ↦
      member_is fs "jsonrpc" "2.0"
      && not (contains_key "method" fs)
      && contains_key "id" fs
      && differ (contains_key "result" fs) (contains_key "error" fs)
]

-- The match on `method`, for an object that says it is JSON-RPC 2.0.
unfoldable pub method_governed : List String → Value → Option Value → Bool
unfolding mem_text is_jsonrpc_response
method_governed methods item none = not (is_jsonrpc_response item)
method_governed methods item (some (string method)) = mem_text method methods
method_governed methods item (some _) = true

unfoldable pub is_governed : List String → Value → Bool
unfolding method_governed member_is member
is_governed methods item = elim (as_object item) [
  | none ↦ true
  | some fs ↦
      if member_is fs "jsonrpc" "2.0"
      then method_governed methods item (member "method" fs)
      else true
]

-- The loop over the governed items of a spend.
unfoldable pub spend_total : List String → ℕ → List Value → Outcome
unfolding dot_path_value exact_minor_units checked_add
spend_total path total [] = Outcome.known total
spend_total path total (item ∷ items) = elim (dot_path_value item path) [
  | none ↦ Outcome.unpriceable
  | some v ↦ elim (exact_minor_units v) [
    | none ↦ Outcome.unpriceable
    | some (err _) ↦ Outcome.out_of_range
    | some (ok amount) ↦ elim (checked_add total amount) [
      | none ↦ Outcome.out_of_range
      | some sum ↦ elim (leb sum max_units) [
        | true ↦ spend_total path sum items
        | false ↦ Outcome.out_of_range
      ]
    ]
  ]
]

unfoldable pub price : Gate → List Value → Outcome
unfolding per_item_total spend_total
price gate [] = Outcome.ungoverned
price gate (item ∷ items) = elim gate.contribution [
  | Contribution.fixed_weight ↦ per_item_total gate.fixed_weight (length (item ∷ items))
  | Contribution.estimated_token_weight ↦
      per_item_total gate.estimated_tokens (length (item ∷ items))
  | Contribution.spend_amount ↦ spend_total gate.spend_amount_field 0 (item ∷ items)
]

-- The items of a document: those of a batch that is not empty, or the document itself.
unfoldable pub batch_items : Value → List Value
batch_items (array (cons v vs)) = v ∷ items_of vs
batch_items v = v ∷ []

unfoldable pub governed_items : List String → List Value → List Value
unfolding is_governed
governed_items methods [] = []
governed_items methods (v ∷ vs) =
    let rest = governed_items methods vs in if is_governed methods v then v ∷ rest else rest

-- `parse` is `serde_json::from_slice`.
unfoldable pub compute_contribution : (List ℕ → Option Value) → Gate → RawBody → Outcome
unfolding no_duplicates governed_items batch_items price
compute_contribution parse gate RawBody.uninspectable = Outcome.unpriceable
compute_contribution parse gate RawBody.no_body = Outcome.ungoverned
compute_contribution parse gate (RawBody.present bytes) = elim (parse bytes) [
  | none ↦ Outcome.unpriceable
  | some root ↦
      if no_duplicates root
      then price gate (governed_items gate.governed_methods (batch_items root))
      else Outcome.unpriceable
]
