-- ===== src/Tests/Binding.antt =====
-- The approval policy of approval-execution-binding/src/lib.rs at concrete inputs.
use agent_governance_policie.Prelude.{
  ℕ, ◌≡◌, refl, Bool, true, false, Option, none, some, List, [], ◌∷◌, String, string_discrete, ite,
  ok, arith,
}
use agent_governance_policie.Prelude.Assoc.{get}
use agent_governance_policie.Gate.Json.{
  Number, Value, string, number, object, Fields, field, end, member, member_is, get_member,
  contains_key, no_duplicates, text_is,
}
use agent_governance_policie.Binding.Predicates.{Predicate, contains, parse, as_str, parse-as_str}
use agent_governance_policie.Binding.Record.{ApprovalRecord, Attestation, Envelope, Binding}
use agent_governance_policie.Binding.Request.{
  JsonRpcCall, ParsedRequest, id_well_typed, arguments_of, text_of, tools_call_of, method_of,
  request_of, message_of, parse_strict_json, parse_single_jsonrpc,
}
use agent_governance_policie.Binding.Request.Bound.{IsBound, tools_call-IsBound}
use agent_governance_policie.Binding.Freshness.{
  IsFresh, later, past_deadline, within_lifetime, check_instant, check_freshness_at,
  check_freshness_at_lem,
}
use agent_governance_policie.Binding.Evaluate.{
  contains_ref_object, fields_contain_ref, present, is_approval, approvals, payload_of,
  check_attestation, check_all, check_approvals, check_separate_attester, digest_matches,
  check_action_and_arguments, Verdict, check_nonce_length, check_p5, check_p6, check_p1_p2,
  check_p4, check_envelope, evaluate,
}
use agent_governance_policie.Binding.Evaluate.Allowed.{IsAllowed, evaluate-allow}

-- A digest, a verification, and dates that are easy to see: the text `late` is 9 seconds in.
abbrev digest : Value → Option String
digest v = some "0f"

unfoldable authenticates : List ℕ → Value → String → Bool
authenticates key payload mac = ite (string_discrete mac "a1") true false

unfoldable parse_instant : String → Option ℕ
parse_instant raw = ite (string_discrete raw "late") (some 9000000000) none

abbrev last : ℕ
last = 100000000000000000000

abbrev approval : ApprovalRecord
approval = record {
  scope = record { action = "transfer"; arguments_digest = "0f" };
  not_after = some "late";
  nonce = some "n1";
}

abbrev attestations : List Attestation
attestations = record { claim = some "approval"; authority = "bank-risk"; mac = "a1" } ∷ []

abbrev envelope : Envelope
envelope = record { approval = approval; attestations = attestations }

abbrev binding : Binding
binding = record {
  required = record { at_p1 = true; at_p2 = true; at_p4 = true; at_p5 = true; at_p6 = true };
  attester_keys = ("bank-risk", 7 ∷ []) ∷ [];
  expected_audience = "gw";
  expected_tenant = "t1";
  expected_environment = "prod";
  clock_skew_seconds = 2;
  max_approval_lifetime_seconds = some 60;
}

abbrev fields : Fields
fields = field "jsonrpc" (string "2.0") (
    field "method" (string "tools/call") (
      field "params" (object (field "name" (string "transfer") end))
        (field "id" (number (Number.unsigned 4)) end)))

abbrev call : JsonRpcCall
call = record {
  root = object fields;
  id = some (number (Number.unsigned 4));
  action = "transfer";
  arguments = object end;
}

abbrev from_slice : List ℕ → Option Value
from_slice body = some (object fields)

parse-as_str_example : parse (as_str Predicate.p4) ≡ some Predicate.p4
parse-as_str_example = parse-as_str Predicate.p4

its_method : member "method" fields ≡ some (string "tools/call")
unfolding member string_discrete
its_method = refl

it_parses : parse_single_jsonrpc from_slice (1 ∷ []) ≡ ok (ParsedRequest.tools_call call)
unfolding parse_single_jsonrpc parse_strict_json no_duplicates message_of member_is member
    get_member contains_key text_is id_well_typed request_of text_of method_of tools_call_of
    arguments_of string_discrete
it_parses = refl

tools_call-IsBound_example : IsBound fields (ParsedRequest.tools_call call)
tools_call-IsBound_example =
    tools_call-IsBound from_slice (1 ∷ []) fields (ParsedRequest.tools_call call) refl its_method
      it_parses

it_is_fresh : check_freshness_at last parse_instant approval 2 (some 60) 10000000000 ≡ ok tt
unfolding check_freshness_at check_instant past_deadline within_lifetime later parse_instant
    string_discrete
it_is_fresh = refl

check_freshness_at_lem_example :
    (raw : String) × (not_after : ℕ) × (approval.not_after ≡ some raw)
    × (parse_instant raw ≡ some not_after)
    × IsFresh last parse_instant not_after 2 (some 60) 10000000000
check_freshness_at_lem_example =
    check_freshness_at_lem last parse_instant approval 2 (some 60) 10000000000 (omega arith)
      it_is_fresh

it_is_allowed :
    evaluate digest authenticates last parse_instant binding call
      (some envelope)
      "agent-7"
      true
      10000000000
    ≡ Verdict.allow
unfolding evaluate check_envelope check_nonce_length check_p5 check_p6 check_p1_p2 check_p4 contains
    check_action_and_arguments digest_matches contains_ref_object fields_contain_ref contains_key
    member check_separate_attester present approvals is_approval check_approvals check_all
    check_attestation payload_of authenticates get string_discrete check_freshness_at check_instant
    past_deadline within_lifetime later parse_instant
it_is_allowed = refl

evaluate-allow_example :
    (read : Envelope) × (some envelope ≡ some read)
    × IsAllowed digest authenticates last parse_instant binding call read "agent-7" true 10000000000
evaluate-allow_example =
    evaluate-allow digest authenticates last parse_instant binding call (some envelope) "agent-7"
      true 10000000000 (omega arith) it_is_allowed
