-- ===== src/Gate/Reason.antt =====
-- Why a call is denied, and how the stamp and the message say it: `DenyReason` of
-- aggregate-risk-gate/src/lib.rs.
use agent_governance_policie.Prelude.{[], ◌∷◌, String}
use agent_governance_policie.Scope.Types.{Denial, Refusal}
use agent_governance_policie.Gate.Text.{concat, show}

pub data DenyReason : Type 0 where
  missing_identity invalid_identity scope_capacity scope_saturated ledger_contention : DenyReason
  ledger_unavailable stale_admission unpriceable out_of_range : DenyReason
  budget_exceeded : Denial → DenyReason

unfoldable pub label : DenyReason → String
label DenyReason.missing_identity = "missing-identity"
label DenyReason.invalid_identity = "invalid-identity"
label DenyReason.scope_capacity = "scope-capacity"
label DenyReason.scope_saturated = "scope-saturated"
label DenyReason.ledger_contention = "ledger-contention"
label DenyReason.ledger_unavailable = "ledger-unavailable"
label DenyReason.stale_admission = "stale-admission"
label DenyReason.unpriceable = "unpriceable"
label DenyReason.out_of_range = "out-of-range"
label (DenyReason.budget_exceeded _) = "budget-exceeded"

unfoldable pub plain_stamp : String → DenyReason → String
unfolding concat label
plain_stamp scope reason = concat ("denied;scope=" ∷ scope ∷ ";reason=" ∷ label reason ∷ [])

unfoldable pub stamp : DenyReason → String → String → String
unfolding concat show plain_stamp
stamp (DenyReason.budget_exceeded denial) scope unit = concat (
    "denied;scope="
    ∷ scope
    ∷ ";would-be-total="
    ∷ show denial.would_be_total
    ∷ ";budget="
    ∷ show denial.budget
    ∷ ";unit="
    ∷ unit
    ∷ [])
stamp reason scope unit = plain_stamp scope reason

-- A message that names its scope between two texts.
unfoldable pub scoped : String → String → String → String
unfolding concat
scoped before scope after =
    concat ("aggregate risk gate: " ∷ before ∷ "\"" ∷ scope ∷ "\"" ∷ after ∷ [])

unfoldable pub message : DenyReason → String → String → String
unfolding concat show scoped
message DenyReason.missing_identity scope unit =
    scoped "no verified identity for budget scope " scope ""
message DenyReason.invalid_identity scope unit =
    scoped "malformed, oversized, or ambiguous identity for budget scope " scope ""
message DenyReason.scope_capacity scope unit = scoped "no capacity to track a new scope " scope ""
message DenyReason.scope_saturated scope unit =
    scoped "too many reservations in flight for scope " scope ""
message DenyReason.ledger_contention scope unit =
    scoped "the shared ledger stayed contended for scope " scope ""
message DenyReason.ledger_unavailable scope unit =
    scoped "the shared ledger is unavailable for scope " scope ""
message DenyReason.stale_admission scope unit =
    scoped "the call's admission time for scope " scope " is already past its reservation timeout"
message DenyReason.unpriceable scope unit = scoped "call could not be priced for scope " scope ""
message DenyReason.out_of_range scope unit =
    scoped "call contribution for scope " scope
      (concat (" exceeds the maximum of 9007199254740991 " ∷ unit ∷ []))
message (DenyReason.budget_exceeded denial) scope unit = scoped "call would compose scope " scope (
    concat (
      " to "
      ∷ show denial.would_be_total
      ∷ " "
      ∷ unit
      ∷ ", over its aggregate budget of "
      ∷ show denial.budget
      ∷ []))

-- The reason that a refusal of the ledger gives.
unfoldable pub reason_of : Refusal → DenyReason
reason_of (Refusal.over_budget denial) = DenyReason.budget_exceeded denial
reason_of Refusal.at_capacity = DenyReason.scope_capacity
reason_of Refusal.saturated = DenyReason.scope_saturated
reason_of Refusal.contention = DenyReason.ledger_contention
reason_of Refusal.unavailable = DenyReason.ledger_unavailable
reason_of Refusal.stale = DenyReason.stale_admission

unfoldable pub refusal_label : Refusal → String
unfolding label
refusal_label (Refusal.over_budget _) = "budget-exceeded"
refusal_label Refusal.at_capacity = label DenyReason.scope_capacity
refusal_label Refusal.saturated = label DenyReason.scope_saturated
refusal_label Refusal.contention = label DenyReason.ledger_contention
refusal_label Refusal.unavailable = label DenyReason.ledger_unavailable
refusal_label Refusal.stale = label DenyReason.stale_admission
