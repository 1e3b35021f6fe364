-- ===== src/Gate/Decide.antt =====
-- The decision on a request and the settlement of its response: `decide`, `admit`, `refuse` and the
-- filters of aggregate-risk-gate/src/lib.rs, over any `LedgerStore`. `parse` is
-- `serde_json::from_slice`, `digest` the hexadecimal text of the keyed or plain hash.
pub mod Block
pub mod Monitor
pub mod Worker
use agent_governance_policie.Prelude.{
  ℕ, Option, none, some, Bool, true, false, ◌&&◌, ◌||◌, List, [], ◌∷◌, is_empty, length, String,
  ltb, leb, if◌then◌else◌, Result, ok, err,
}
use agent_governance_policie.Scope.Types.{Reservation, Settlement, settlement_label}
use agent_governance_policie.Gate.Text.{concat, show, contains}
use agent_governance_policie.Gate.Json.{Value}
use agent_governance_policie.Gate.Policy.{Mode, Disclosure, Gate}
use agent_governance_policie.Gate.Price.{RawBody, as_bytes, Outcome, compute_contribution}
use agent_governance_policie.Gate.Rpc.{Response, deny_response, max_inspect_bytes}
use agent_governance_policie.Gate.Reason.{
  DenyReason, label, stamp, message, reason_of, refusal_label,
}
use agent_governance_policie.Gate.Store.{LedgerStore}

-- Who the call is charged to.
pub data Identity : Type 0 where
  scope : String → Identity
  missing invalid : Identity

-- What the request leaves for the response: a stamp, and a reservation to settle.
pub data Ticket : Type 0 where
  unreserved : String → Ticket
  reserved : String → Reservation → Ticket

pub data Flow : Type 0 where
  continue : Ticket → Flow
  break : Response → Flow

-- What a request does: the ledger that it leaves, whether it reports a violation, and its flow.
pub record Decision (S : Type 0) : Type 0 where
  pub ledger : S
  pub violation : Bool
  pub flow : Flow

unfoldable pub is_success : ℕ → Bool
is_success status = leb 200 status && ltb status 400

module _ (store : LedgerStore) (parse : List ℕ → Option Value)
    (digest : List ℕ → String → String) where
  -- A shared key, or one with a space, carries no identity.
  unfoldable pub display_scope : Gate → String → String
  unfolding concat contains
  display_scope gate key = if gate.shared || contains key " " then key else (elim gate.disclosure [
    | Disclosure.raw ↦ key
    | Disclosure.hidden ↦ gate.budget_scope
    | Disclosure.digest secret ↦ concat (
        gate.budget_scope
        ∷ ":"
        ∷ (if is_empty secret then "sha256" else "hmac")
        ∷ "-"
        ∷ digest secret key
        ∷ [])
  ])

  unfoldable pub refuse : Gate → DenyReason → String → Option (List ℕ) → Flow
  unfolding deny_response stamp message
  refuse gate reason shown echo = Flow.break (
      deny_response parse gate.on_deny echo (stamp reason shown gate.unit)
        (message reason shown gate.unit))

  unfoldable pub monitor_stamp : String → String → String
  unfolding concat
  monitor_stamp shown why = concat ("monitor;scope=" ∷ shown ∷ ";reason=" ∷ why ∷ [])

  -- The stamp of a call that goes through with a reservation.
  unfoldable pub allowed_stamp : Gate → String → String → ℕ → ℕ → String
  unfolding concat show
  allowed_stamp gate verb shown contribution total = concat (
      verb
      ∷ ";scope="
      ∷ shown
      ∷ ";contribution="
      ∷ show contribution
      ∷ ";total="
      ∷ show total
      ∷ "/"
      ∷ show gate.aggregate_budget
      ∷ ";unit="
      ∷ gate.unit
      ∷ [])

  unfoldable pub admit_block :
      Gate → String → ℕ → ℕ → ℕ → Option (List ℕ) → store.State → Decision store.State
  unfolding refuse allowed_stamp display_scope reason_of
  admit_block gate key contribution clock now echo state =
      let shown = display_scope gate key in
      let (after, result) = store.reserve state clock key contribution gate.aggregate_budget now in
      elim result [
        | ok reservation ↦ record {
          ledger = after;
          violation = false;
          flow = Flow.continue (
              Ticket.reserved (allowed_stamp gate "allowed" shown contribution reservation.total)
                reservation);
        }
        | err refusal ↦ record {
          ledger = after;
          violation = true;
          flow = refuse gate (reason_of refusal) shown echo;
        }
      ]

  unfoldable pub admit_monitor : Gate → String → ℕ → ℕ → ℕ → store.State → Decision store.State
  unfolding monitor_stamp allowed_stamp display_scope refusal_label
  admit_monitor gate key contribution clock now state =
      let shown = display_scope gate key in
      let (after, result) =
        store.force_reserve_checked state clock key contribution gate.aggregate_budget now in
      elim result [
        | ok (reservation, breached) ↦ record {
          ledger = after;
          violation = breached;
          flow = Flow.continue (
              Ticket.reserved (allowed_stamp gate "monitor" shown contribution reservation.total)
                reservation);
        }
        | err refusal ↦ record {
          ledger = after;
          violation = true;
          flow = Flow.continue (Ticket.unreserved (monitor_stamp shown (refusal_label refusal)));
        }
      ]

  unfoldable pub admit :
      Gate → String → ℕ → ℕ → ℕ → Option (List ℕ) → store.State → Decision store.State
  unfolding admit_block admit_monitor
  admit gate key contribution clock now echo state = elim gate.mode [
    | Mode.block ↦ admit_block gate key contribution clock now echo state
    | Mode.monitor ↦ admit_monitor gate key contribution clock now state
  ]

  -- The key that a call is charged to, or the reason why block mode refuses it.
  unfoldable pub charge_key : Gate → Identity → Result String DenyReason
  unfolding concat
  charge_key gate (Identity.scope key) = ok key
  charge_key gate Identity.missing = elim gate.mode [
    | Mode.block ↦ err DenyReason.missing_identity
    | Mode.monitor ↦ ok (concat (gate.budget_scope ∷ " (missing)" ∷ []))
  ]
  charge_key gate Identity.invalid = elim gate.mode [
    | Mode.block ↦ err DenyReason.invalid_identity
    | Mode.monitor ↦ ok (concat (gate.budget_scope ∷ " (invalid)" ∷ []))
  ]

  -- A governed call that has no price.
  unfoldable pub unpriced :
      Gate → DenyReason → String → Option (List ℕ) → store.State → Decision store.State
  unfolding refuse monitor_stamp display_scope label
  unpriced gate reason key echo state =
      let shown = display_scope gate key in
      record {
        ledger = state;
        violation = false;
        flow = (elim gate.mode [
          | Mode.block ↦ refuse gate reason shown echo
          | Mode.monitor ↦ Flow.continue (Ticket.unreserved (monitor_stamp shown (label reason)))
        ]);
      }

  -- The match on the outcome, for a call that is charged to `key`; an ungoverned one has returned.
  unfoldable pub decide_key :
      Gate → Outcome → String → ℕ → ℕ → Option (List ℕ) → store.State → Decision store.State
  unfolding admit unpriced
  decide_key gate (Outcome.known amount) key clock now echo state =
      admit gate key amount clock now echo state
  decide_key gate Outcome.out_of_range key clock now echo state =
      unpriced gate DenyReason.out_of_range key echo state
  decide_key gate _ key clock now echo state = unpriced gate DenyReason.unpriceable key echo state

  -- `decide` from the outcome on.
  unfoldable pub decide_outcome :
      Gate → Outcome → Identity → ℕ → ℕ → Option (List ℕ) → store.State → Decision store.State
  unfolding charge_key decide_key refuse
  decide_outcome gate Outcome.ungoverned identity clock now echo state = record {
    ledger = state;
    violation = false;
    flow = Flow.continue (Ticket.unreserved "pass;reason=ungoverned-method");
  }
  decide_outcome gate outcome identity clock now echo state = elim (charge_key gate identity) [
    | err reason ↦ record {
      ledger = state;
      violation = false;
      flow = refuse gate reason gate.budget_scope echo;
    }
    | ok key ↦ decide_key gate outcome key clock now echo state
  ]

  unfoldable pub decide : Gate → Identity → ℕ → ℕ → RawBody → store.State → Decision store.State
  unfolding compute_contribution decide_outcome as_bytes
  decide gate identity clock now raw state =
      decide_outcome gate (compute_contribution parse gate raw) identity clock now (as_bytes raw)
        state

  -- What the request filter gives to `decide`: the body it may read, once it is in.
  unfoldable pub raw_body : Bool → Bool → List ℕ → RawBody
  raw_body has_body inspectable bytes =
      if has_body
      then (if inspectable && leb (length bytes) max_inspect_bytes
          then RawBody.present bytes
          else RawBody.uninspectable)
      else RawBody.no_body

  -- The response filter: a reservation is settled by the status alone.
  unfoldable pub settle_ticket : Ticket → ℕ → ℕ → store.State → store.State × String
  unfolding is_success concat settlement_label
  settle_ticket (Ticket.unreserved shown) status now state = (state, shown)
  settle_ticket (Ticket.reserved shown reservation) status now state =
      let (after, settlement) =
        (if is_success status
          then store.commit state reservation now
          else store.release state reservation now) in
      (after, concat (shown ∷ ";settlement=" ∷ settlement_label settlement ∷ []))
