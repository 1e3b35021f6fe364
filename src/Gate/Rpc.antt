-- ===== src/Gate/Rpc.antt =====
-- JSON-RPC parsing and the shape of a refusal: `parse_jsonrpc_request` and `deny_response` of
-- aggregate-risk-gate/src/lib.rs. `parse` is `serde_json::from_slice`.
pub mod Denial
use agent_governance_policie.Prelude.{
  ℕ, Option, none, some, Bool, true, false, ◌&&◌, List, [], ◌∷◌, map, length, String, leb,
  if◌then◌else◌,
}
use agent_governance_policie.Gate.Json.{
  Number, Value, null, number, string, array, object, cons, end, field, array_of, items_of,
  as_object, as_str, member_is, get_member, no_duplicates,
}
use agent_governance_policie.Gate.Policy.{OnDeny}
use agent_governance_policie.Gate.Price.{is_jsonrpc_response}

abbrev pub max_inspect_bytes : ℕ
max_inspect_bytes = 65536

pub record ParsedJsonRpcRequest : Type 0 where
  pub is_batch : Bool
  pub response_ids : List Value

-- An id that JSON-RPC allows.
unfoldable pub id_allowed : Value → Bool
id_allowed (string _) = true
id_allowed (number _) = true
id_allowed null = true
id_allowed _ = false

-- Whether an item is a JSON-RPC 2.0 request or notification.
unfoldable pub is_call : Value → Bool
unfolding member_is get_member id_allowed
is_call item = elim (as_object item) [
  | none ↦ false
  | some fs ↦
      member_is fs "jsonrpc" "2.0"
      && (elim (get_member item "method") [
        | none ↦ false
        | some m ↦ elim (as_str m) [ none ↦ false | some _ ↦ true ]
      ])
      && (elim (get_member item "id") [ none ↦ true | some id ↦ id_allowed id ])
]

unfoldable pub all_calls : List Value → Bool
unfolding is_call
all_calls [] = true
all_calls (item ∷ items) = is_call item && all_calls items

unfoldable pub without_responses : List Value → List Value
unfolding is_jsonrpc_response
without_responses [] = []
without_responses (item ∷ items) =
    let rest = without_responses items in if is_jsonrpc_response item then rest else item ∷ rest

unfoldable pub ids_of : List Value → List Value
unfolding get_member
ids_of [] = []
ids_of (item ∷ items) =
    let rest = ids_of items in elim (get_member item "id") [ none ↦ rest | some id ↦ id ∷ rest ]

-- The items that a reply answers, and whether they came as a batch.
unfoldable pub reply_items : Value → Option (Bool × List Value)
unfolding without_responses
reply_items (array (cons v vs)) = some (true, without_responses (v ∷ items_of vs))
reply_items (object fs) = some (false, object fs ∷ [])
reply_items _ = none

unfoldable pub parse_jsonrpc_request :
    (List ℕ → Option Value) → List ℕ → Option ParsedJsonRpcRequest
unfolding no_duplicates all_calls ids_of reply_items
parse_jsonrpc_request parse body =
    if leb (length body) max_inspect_bytes
    then (elim (parse body) [
      | none ↦ none
      | some root ↦
          if no_duplicates root
          then (elim (reply_items root) [
            | none ↦ none
            | some (is_batch, items) ↦
                if all_calls items
                then some (record { is_batch = is_batch; response_ids = ids_of items })
                else none
          ])
          else none
    ])
    else none

pub record Response : Type 0 where
  pub status : ℕ
  pub json : Bool
  pub stamp : String
  pub body : Option Value

-- One in-band error. The code is -32008.
unfoldable pub error_for : String → Value → Value
error_for message id = object (
    field "jsonrpc" (string "2.0") (
      field "id" id (
        field "error"
          (object
            (field "code" (number (Number.negative 32008)) (field "message" (string message) end)))
          end)))

unfoldable pub empty_forbidden : String → Response
empty_forbidden stamp = record { status = 403; json = false; stamp = stamp; body = none }

-- The reply to a request whose ids are known; a notification has none.
unfoldable pub rpc_denial : ParsedJsonRpcRequest → String → String → Response
unfolding error_for
rpc_denial parsed stamp message = elim parsed.response_ids [
  | [] ↦ record { status = 202; json = false; stamp = stamp; body = none }
  | id ∷ ids ↦ record {
    status = 200;
    json = true;
    stamp = stamp;
    body = some (
        if parsed.is_batch
        then array (array_of (map (error_for message) (id ∷ ids)))
        else error_for message id);
  }
]

unfoldable pub deny_response :
    (List ℕ → Option Value) → OnDeny → Option (List ℕ) → String → String → Response
unfolding parse_jsonrpc_request rpc_denial empty_forbidden
deny_response parse OnDeny.empty_forbidden body stamp message = empty_forbidden stamp
deny_response parse OnDeny.rpc_error none stamp message = empty_forbidden stamp
deny_response parse OnDeny.rpc_error (some bytes) stamp message =
    elim (parse_jsonrpc_request parse bytes) [
      | none ↦ empty_forbidden stamp
      | some parsed ↦ rpc_denial parsed stamp message
    ]
