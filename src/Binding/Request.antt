-- ===== src/Binding/Request.antt =====
-- The reading of one JSON-RPC message: `parse_single_jsonrpc` and `check_jsonrpc_response` of
-- approval-execution-binding/src/lib.rs, from the document that `parse_strict_json` accepted.
pub mod Bound
use agent_governance_policie.Prelude.{
  ℕ, ◌≡◌, ◌≢◌, ◌⊎◌, refl, inl, inr, Bool, true, false, not, ◌&&◌, ◌||◌, Bool-cases, Option, none,
  some, Option-cases, List, [], ◌∷◌, String, string_discrete, ite, if◌then◌else◌, Result, ok, err,
  Result-cases, ◌>>=◌, ◌>>◌, ltb, leb,
}
use agent_governance_policie.Gate.Json.{
  Number, Value, null, number, string, object, Fields, end, field, member, contains_key, as_object,
  as_str, get_member, member_is, no_duplicates,
}
use agent_governance_policie.Gate.Policy.{mem_text}

pub record JsonRpcCall : Type 0 where
  pub root : Value
  pub id : Option Value
  pub action : String
  pub arguments : Value

pub data ParsedRequest : Type 0 where
  tools_call : JsonRpcCall → ParsedRequest
  out_of_scope : String → ParsedRequest
  response : ParsedRequest

pub data Malformed : Type 0 where
  duplicate_member not_an_object version id_type method_type : Malformed
  unexpected_member both_outcomes no_outcome null_id no_id error_type error_code error_message :
      Malformed
  request_with_outcome missing_name arguments_type : Malformed

abbrev pub response_members : List String
response_members = "jsonrpc" ∷ "id" ∷ "result" ∷ "error" ∷ []

unfoldable pub has_extra : Fields → Bool
unfolding mem_text
has_extra end = false
has_extra (field k v fs) = not (mem_text k response_members) || has_extra fs

-- `as_i64` gives a number: an unsigned one below 2^63, or a negative one.
unfoldable pub is_i64 : Value → Bool
is_i64 (number (Number.unsigned n)) = ltb n 9223372036854775808
is_i64 (number (Number.negative n)) = leb n 9223372036854775808
is_i64 _ = false

unfoldable pub is_string : Value → Bool
is_string (string _) = true
is_string _ = false

-- The member `result` or `error` of a response: which of the two it carries.
unfoldable pub outcome_of : Fields → Result (Option Value) Malformed
unfolding member
outcome_of fs = elim (member "result" fs) [
  | some _ ↦ elim (member "error" fs) [ none ↦ ok none | some _ ↦ err Malformed.both_outcomes ]
  | none ↦ elim (member "error" fs) [ none ↦ err Malformed.no_outcome | some e ↦ ok (some e) ]
]

unfoldable pub check_id : Option Value → Option Value → Result (Unit {0}) Malformed
check_id (some (string _)) error = ok tt
check_id (some (number _)) error = ok tt
check_id (some null) (some _) = ok tt
check_id (some null) none = err Malformed.null_id
check_id _ error = err Malformed.no_id

unfoldable pub check_error : Option Value → Result (Unit {0}) Malformed
unfolding member is_i64 is_string
check_error none = ok tt
check_error (some e) = elim (as_object e) [
  | none ↦ err Malformed.error_type
  | some fs ↦
      if elim (member "code" fs) [ none ↦ false | some code ↦ is_i64 code ]
      then (if elim (member "message" fs) [ none ↦ false | some m ↦ is_string m ]
          then ok tt
          else err Malformed.error_message)
      else err Malformed.error_code
]

unfoldable pub check_jsonrpc_response : Fields → Result (Unit {0}) Malformed
unfolding has_extra outcome_of check_id check_error member
check_jsonrpc_response fs =
    if has_extra fs
    then err Malformed.unexpected_member
    else (do error ← outcome_of fs; _ ← check_id (member "id" fs) error; check_error error)

-- An id that is absent, or of a type that JSON-RPC allows.
unfoldable pub id_well_typed : Option Value → Bool
id_well_typed none = true
id_well_typed (some (string _)) = true
id_well_typed (some (number _)) = true
id_well_typed (some null) = true
id_well_typed (some _) = false

-- `params.arguments`, which is an object or absent.
unfoldable pub arguments_of : Option Value → Result Value Malformed
arguments_of none = ok (object end)
arguments_of (some (object fs)) = ok (object fs)
arguments_of (some _) = err Malformed.arguments_type

unfoldable pub text_of : Malformed → Option Value → Result String Malformed
text_of fault none = err fault
text_of fault (some (string s)) = ok s
text_of fault (some _) = err fault

unfoldable pub tools_call_of : Value → Fields → Result ParsedRequest Malformed
unfolding text_of arguments_of get_member member
tools_call_of root fs =
    let params : Value = (elim (member "params" fs) [ none ↦ object end | some p ↦ p ]) in
    do
      name ← text_of Malformed.missing_name (get_member params "name")
      arguments ← arguments_of (get_member params "arguments")
      ok (
          ParsedRequest.tools_call
            (record { root = root; id = member "id" fs; action = name; arguments = arguments }))

-- A request that carries no outcome, by its method.
unfoldable pub method_of : Value → Fields → String → Result ParsedRequest Malformed
unfolding tools_call_of
method_of root fs name =
    ite (string_discrete name "tools/call") (tools_call_of root fs)
      (ok (ParsedRequest.out_of_scope name))

-- A message with a `method`.
unfoldable pub request_of : Value → Fields → Value → Result ParsedRequest Malformed
unfolding text_of contains_key method_of
request_of root fs method = do
  name ← text_of Malformed.method_type (some method)
  if contains_key "result" fs || contains_key "error" fs
      then err Malformed.request_with_outcome
      else method_of root fs name

unfoldable pub message_of : Value → Fields → Result ParsedRequest Malformed
unfolding member_is member id_well_typed check_jsonrpc_response request_of
message_of root fs =
    if not (member_is fs "jsonrpc" "2.0")
    then err Malformed.version
    else (if not (id_well_typed (member "id" fs))
        then err Malformed.id_type
        else elim (member "method" fs) [
          | some method ↦ request_of root fs method
          | none ↦ (do _ ← check_jsonrpc_response fs; ok ParsedRequest.response)
        ])

-- `parse_strict_json`; `from_slice` is `serde_json::from_slice`. The check for duplicate members reads the
-- body first, and reports a body that is not JSON in its own words.
unfoldable pub parse_strict_json : (List ℕ → Option Value) → List ℕ → Result Value Malformed
unfolding no_duplicates
parse_strict_json from_slice body = elim (from_slice body) [
  | none ↦ err Malformed.duplicate_member
  | some root ↦ if no_duplicates root then ok root else err Malformed.duplicate_member
]

unfoldable pub parse_single_jsonrpc :
    (List ℕ → Option Value) → List ℕ → Result ParsedRequest Malformed
unfolding parse_strict_json message_of
parse_single_jsonrpc from_slice body = do
  root ← parse_strict_json from_slice body
  elim (as_object root) [ none ↦ err Malformed.not_an_object | some fs ↦ message_of root fs ]
