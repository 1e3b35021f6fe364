-- ===== src/Binding/Request/Bound.antt =====
-- A tool call never goes by unbound.
use agent_governance_policie.Prelude.{
  ℕ, ◌≡◌, refl, inl, inr, true, false, ◌||◌, Bool-cases, Option, none, some, List, string_discrete,
  Result, ok, err, Result-cases, arith,
}
use agent_governance_policie.Gate.Json.{
  Value, string, object, end, Fields, member, contains_key, get_member, member_is, no_duplicates,
}
use agent_governance_policie.Binding.Request.{
  JsonRpcCall, ParsedRequest, Malformed, id_well_typed, arguments_of, text_of, tools_call_of,
  method_of, request_of, message_of, parse_strict_json, parse_single_jsonrpc,
}

unfoldable pub IsBound : Fields → ParsedRequest → Type 0
IsBound fs parsed =
    (call : JsonRpcCall) × (parsed ≡ ParsedRequest.tools_call call)
    × (call.root ≡ object fs)
    × (call.id ≡ member "id" fs)

tools_call_of-IsBound :
    (fs : Fields) (r : ParsedRequest) → tools_call_of (object fs) fs ≡ ok r → IsBound fs r
unfolding tools_call_of IsBound
tools_call_of-IsBound fs r h =
    let params : Value = (elim (member "params" fs) [ none ↦ object end | some p ↦ p ]) in
    elim (Result-cases (text_of Malformed.missing_name (get_member params "name"))) [
      | inr (e, f) ↦ absurd (ground (arith, rw (f, tools_call_of) at h))
      | inl (name, f) ↦ elim (Result-cases (arguments_of (get_member params "arguments"))) [
        | inr (e, g) ↦ absurd (ground (arith, rw (f, g, tools_call_of) at h))
        | inl (arguments, g) ↦ (_, ok_of (rw (f, g, tools_call_of) at h), refl, refl)
      ]
    ]
  where
    ok_of : {p q : ParsedRequest} → Path (Result ParsedRequest Malformed) (ok p) (ok q) → q ≡ p
    ok_of e = cc

request_of-IsBound :
    (fs : Fields) (r : ParsedRequest)
    → request_of (object fs) fs (string "tools/call") ≡ ok r
    → IsBound fs r
unfolding request_of text_of method_of string_discrete
request_of-IsBound fs r h =
    elim (Bool-cases (contains_key "result" fs || contains_key "error" fs)) [
      | inl e ↦ absurd (ground (arith, rw (e, request_of) at h))
      | inr e ↦ tools_call_of-IsBound fs r (rw (e, request_of) at h)
    ]

message_of-IsBound :
    (fs : Fields) (r : ParsedRequest)
    → member "method" fs ≡ some (string "tools/call")
    → message_of (object fs) fs ≡ ok r
    → IsBound fs r
unfolding message_of
message_of-IsBound fs r m h = elim (Bool-cases (member_is fs "jsonrpc" "2.0")) [
  | inr e ↦ absurd (ground (arith, rw (e, message_of) at h))
  | inl e ↦ elim (Bool-cases (id_well_typed (member "id" fs))) [
    | inr f ↦ absurd (ground (arith, rw (e, f, message_of) at h))
    | inl f ↦ request_of-IsBound fs r (rw (e, f, m, message_of) at h)
  ]
]

module _ (from_slice : List ℕ → Option Value) (body : List ℕ) (root : Value)
    (e : from_slice body ≡ some root) where
  strict-ok : no_duplicates root ≡ true → parse_strict_json from_slice body ≡ ok root
  unfolding parse_strict_json
  strict-ok f = rw (e, f, parse_strict_json)

  strict-err :
      no_duplicates root ≡ false
      → parse_strict_json from_slice body ≡ err Malformed.duplicate_member
  unfolding parse_strict_json
  strict-err f = rw (e, f, parse_strict_json)

-- A body that is a JSON object whose `method` is `tools/call` is either refused as malformed or read
-- as a tool call, with the whole body as its root and the body's own id: it is never forwarded as
-- out of scope, nor as a response.
pub tools_call-IsBound :
    (from_slice : List ℕ → Option Value) (body : List ℕ) (fs : Fields) (r : ParsedRequest)
    → from_slice body ≡ some (object fs)
    → member "method" fs ≡ some (string "tools/call")
    → parse_single_jsonrpc from_slice body ≡ ok r
    → IsBound fs r
unfolding parse_single_jsonrpc
tools_call-IsBound from_slice body fs r e m h = elim (Bool-cases (no_duplicates (object fs))) [
  | inl f ↦
      message_of-IsBound fs r m (rw (strict-ok from_slice body _ e f, parse_single_jsonrpc) at h)
  | inr f ↦
      absurd (ground (arith, rw (strict-err from_slice body _ e f, parse_single_jsonrpc) at h))
]
