-- ===== src/Tests/Gate.antt =====
-- The gate of aggregate-risk-gate/src/lib.rs at concrete inputs.
use agent_governance_policie.Prelude.{
  ℕ, zero, suc, ◌+◌, ◌≤◌, ◌≡◌, ◌⊎◌, ◌↔◌, refl, true, false, Option, none, some, List, [], ◌∷◌,
  String, All, length, sat_add, sat_mul, checked_add, wrap_add, string_discrete, ℕ_discrete, arith,
}
use agent_governance_policie.Prelude.Assoc.{get, insert, remove, retain}
use agent_governance_policie.Scope.Types.{Timeout}
use agent_governance_policie.Scope.{
  ScopeState, is_idle, idle_at, latest_drop, window_end, reclaim, check, at_period, saturated,
  total, roll, roll_to, expire, expire_all, expire_held, expired, kept, reservation, set_aside,
}
use agent_governance_policie.Scope
use agent_governance_policie.Scope.Idle.{period}
use agent_governance_policie.Ledger.Stats.{no_stats, count_reclaim}
use agent_governance_policie.Ledger.Index.{compare_entry, add_entry, remove_entry}
use agent_governance_policie.Ledger.{
  Ledger, empty, find, reindex, reindex_state, state_of, refresh, store, run_body, make_room,
  with_state, reserve_body, expired_on_arrival, reserve, hold,
}
use agent_governance_policie.Ledger.Run.{Call, run}
use agent_governance_policie.Gate.Json.{
  Value, string, number, Number, object, field, end, member, member_is, no_duplicates, contains_key,
  text_is,
}
use agent_governance_policie.Gate.Text.{concat, show, contains, digits}
use agent_governance_policie.Gate.Policy.{
  Mode, OnDeny, Contribution, Disclosure, Gate, max_units, mem_text,
}
use agent_governance_policie.Gate.Price.{
  RawBody, as_bytes, Outcome, price, is_governed, method_governed, governed_items, batch_items,
  spend_total, dot_path_value, exact_minor_units, compute_contribution,
}
use agent_governance_policie.Gate.Price.Law.{IsAsked, price_lem}
use agent_governance_policie.Gate.Price.Classify.{IsUngoverned, messages, ungoverned_lem}
use agent_governance_policie.Gate.Rpc.{deny_response}
use agent_governance_policie.Gate.Rpc.Denial.{IsSilent, IsEcho, deny_response-cases}
use agent_governance_policie.Gate.Store.{worker}
use agent_governance_policie.Gate.Decide.{
  Identity, Ticket, Flow, decide, decide_outcome, decide_key, charge_key, admit, admit_block,
  display_scope, allowed_stamp,
}
use agent_governance_policie.Gate.Decide.Block.{IsReserved, block_forwards}
use agent_governance_policie.Gate.Decide.Monitor.{GoesOn, monitor_never_denies}
use agent_governance_policie.Gate.Decide.Worker.{
  Event, requests, gate_step, gate_run, gate_run-run, gate_within_budget,
}

abbrev ledger : Ledger
ledger = record { max_scopes = 2; ttl = 500; timeout = Timeout.commit; window = some 60000 }

abbrev gate_in : Mode → Gate
gate_in mode = record {
  budget_scope = "agent";
  shared = false;
  disclosure = Disclosure.raw;
  aggregate_budget = 50;
  contribution = Contribution.spend_amount;
  unit = "USD-minor";
  fixed_weight = 1;
  governed_methods = "tools/call" ∷ [];
  spend_amount_field = "params" ∷ "amount" ∷ [];
  estimated_tokens = 1;
  mode = mode;
  on_deny = OnDeny.rpc_error;
}

abbrev gate : Gate
gate = gate_in Mode.block

-- A call that asks for 30, and a `ping`.
abbrev call : Value
call = object (
    field "jsonrpc" (string "2.0") (
      field "method" (string "tools/call") (
        field "params" (object (field "amount" (number (Number.unsigned 30)) end))
          (field "id" (number (Number.unsigned 1)) end))))

abbrev ping : Value
ping = object (field "jsonrpc" (string "2.0") (field "method" (string "ping") end))

-- A parser that reads the byte 1 as the call and anything else as the `ping`.
abbrev parse : List ℕ → Option Value
parse (suc zero ∷ []) = some call
parse _ = some ping

abbrev digest : List ℕ → String → String
digest key text = text

price_lem_example :
    (price gate (call ∷ call ∷ []) ≡ Outcome.known 60)
    ↔ (IsAsked gate (call ∷ call ∷ []) 60 × (60 ≤ max_units))
price_lem_example = price_lem gate call (call ∷ []) 60

ping_is_free : compute_contribution parse gate (RawBody.present (2 ∷ [])) ≡ Outcome.ungoverned
unfolding compute_contribution no_duplicates governed_items is_governed member_is member
    method_governed mem_text contains_key batch_items price string_discrete text_is
ping_is_free = refl

ungoverned_lem_example :
    (RawBody.present (2 ∷ []) ≡ RawBody.no_body)
    ⊎ ((bytes : List ℕ) × (root : Value) × (RawBody.present (2 ∷ []) ≡ RawBody.present bytes)
        × (parse bytes ≡ some root)
        × (no_duplicates root ≡ true)
        × All (IsUngoverned gate.governed_methods) (messages root))
ungoverned_lem_example = ungoverned_lem parse gate (RawBody.present (2 ∷ [])) ping_is_free

monitor_never_denies_example :
    GoesOn
      (decide
        (worker ledger)
        parse
        digest
        (gate_in Mode.monitor)
        Identity.missing
        0
        1000
        RawBody.uninspectable
        empty).flow
monitor_never_denies_example =
    monitor_never_denies (worker ledger) parse digest (gate_in Mode.monitor) Identity.missing 0 1000
      RawBody.uninspectable empty refl

abbrev ticket : Ticket
ticket =
    Ticket.reserved "allowed;scope=agent:a;contribution=30;total=30/50;unit=USD-minor" (record {
      id = 1;
      scope = "agent:a";
      contribution = 30;
      created_at = 1000;
      expires_at = 1500;
      total = 30;
    })

goes_on :
    (decide
      (worker ledger)
      parse
      digest
      gate
      (Identity.scope "agent:a")
      0
      1000
      (RawBody.present (1 ∷ []))
      empty).flow
    ≡ Flow.continue ticket
unfolding decide decide_outcome decide_key charge_key admit admit_block display_scope allowed_stamp
    concat show contains digits compute_contribution no_duplicates governed_items is_governed
    member_is member method_governed mem_text contains_key batch_items price string_discrete text_is
    spend_total dot_path_value exact_minor_units checked_add as_bytes get empty reindex insert check
    sat_add reclaim retain roll state_of at_period period hold Scope.hold remove idle_at ℕ_discrete
    add_entry compare_entry remove_entry count_reclaim no_stats expired_on_arrival make_room refresh
    reindex_state reserve reserve_body run_body store with_state sat_mul wrap_add expire expire_all
    expire_held expired is_idle kept latest_drop reservation roll_to saturated set_aside total
    window_end
goes_on = refl

block_forwards_example :
    let raw = RawBody.present (1 ∷ []) in
    let d = decide (worker ledger) parse digest gate (Identity.scope "agent:a") 0 1000 raw empty in
    ((compute_contribution parse gate raw ≡ Outcome.ungoverned) × (d.ledger ≡ empty))
    ⊎ ((key : String) × (amount : ℕ) × (compute_contribution parse gate raw ≡ Outcome.known amount)
        × (Identity.scope "agent:a" ≡ Identity.scope key)
        × IsReserved (worker ledger) gate key amount 0 1000 empty ticket d.ledger)
block_forwards_example =
    block_forwards (worker ledger) parse digest gate (Identity.scope "agent:a") 0 1000
      (RawBody.present (1 ∷ [])) empty ticket refl goes_on

abbrev events : List Event
events = requests (Identity.scope "agent:a") 0 1000 (RawBody.present (1 ∷ [])) ∷ []

gate_run-run_example :
    (calls : List Call) × (length calls ≤ length events)
    × (gate_run gate ledger parse digest empty events
        ≡ run ledger gate.aggregate_budget empty calls)
gate_run-run_example = gate_run-run gate ledger parse digest empty events refl

abbrev final_scope : ScopeState
final_scope = record {
  period = 0;
  committed = 0;
  reserved = 30;
  active = (1, record { contribution = 30; expires_at = 1500; provisional_period = none }) ∷ [];
  reclaimed = [];
  indexed_at = some 2000;
}

events_end :
    find "agent:a" (gate_run gate ledger parse digest empty events).scopes ≡ some final_scope
unfolding gate_run gate_step decide decide_outcome decide_key charge_key admit admit_block
    display_scope allowed_stamp concat show contains digits compute_contribution no_duplicates
    governed_items is_governed member_is member method_governed mem_text contains_key batch_items
    price string_discrete text_is spend_total dot_path_value exact_minor_units checked_add as_bytes
    get empty reindex insert check sat_add reclaim retain roll state_of at_period period hold
    Scope.hold remove idle_at ℕ_discrete add_entry compare_entry remove_entry count_reclaim no_stats
    expired_on_arrival make_room refresh reindex_state reserve reserve_body run_body store
    with_state sat_mul wrap_add expire expire_all expire_held expired is_idle kept latest_drop
    reservation roll_to saturated set_aside total window_end
events_end = refl

gate_within_budget_example : final_scope.committed + final_scope.reserved ≤ 50
gate_within_budget_example =
    gate_within_budget gate ledger parse digest events "agent:a" final_scope refl refl (omega arith)
      (omega arith) events_end

deny_response-cases_example :
    let r = deny_response parse OnDeny.rpc_error (some (1 ∷ [])) "denied" "over the budget" in
    (IsSilent r ⊎ IsEcho parse (some (1 ∷ [])) "over the budget" r)
deny_response-cases_example =
    deny_response-cases parse OnDeny.rpc_error (some (1 ∷ [])) "denied" "over the budget"
