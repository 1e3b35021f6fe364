-- ===== src/Gate/Rpc/Denial.antt =====
-- What a refusal tells the caller.
use mathlib.Core.Path.{subst}
use agent_governance_policie.Prelude.{
  ℕ, ◌≡◌, ◌⊎◌, refl, sym, ◌∙◌, inl, inr, Bool, true, false, Bool-cases, Option, none, some,
  Option-cases, List, [], ◌∷◌, map, String, leb, length, if◌then◌else◌, arith,
}
use agent_governance_policie.Gate.Json.{
  Number, Value, null, bool, number, string, array, object, Items, nil, cons, items_of, array_of,
  Fields, end, field, member, get_member, no_duplicates,
}
use agent_governance_policie.Gate.Price.{is_jsonrpc_response}
use agent_governance_policie.Gate.Policy.{OnDeny}
use agent_governance_policie.Gate.Rpc.{
  empty_forbidden as empty_denial, max_inspect_bytes, ParsedJsonRpcRequest, Response, all_calls,
  ids_of, without_responses, reply_items, error_for, rpc_denial, parse_jsonrpc_request,
  deny_response,
}

-- No id is told: an empty 403, or an empty 202 for a notification.
unfoldable pub IsSilent : Response → Type 0
IsSilent r = (r.body ≡ none) × ((r.status ≡ 403) ⊎ (r.status ≡ 202))

-- The id that an item names.
abbrev pub own_id : Value → Option Value
own_id (object fs) = member "id" fs
own_id _ = none

-- The ids of items, in their order; an item without one is a notification.
pub data Names : List Value → List Value → Type 0 where
  nothing : Names [] []
  unnamed :
      {item : Value} {items ids : List Value}
      → own_id item ≡ none
      → Names items ids
      → Names (item ∷ items) ids
  named :
      {item id : Value} {items ids : List Value}
      → own_id item ≡ some id
      → Names items ids
      → Names (item ∷ items) (id ∷ ids)

-- The items of a batch without the client's own responses.
pub data Answers : List Value → List Value → Type 0 where
  no_more : Answers [] []
  left_out :
      {item : Value} {items rest : List Value}
      → is_jsonrpc_response item ≡ true
      → Answers items rest
      → Answers (item ∷ items) rest
  answered :
      {item : Value} {items rest : List Value}
      → is_jsonrpc_response item ≡ false
      → Answers items rest
      → Answers (item ∷ items) (item ∷ rest)

-- The items that a reply to a document answers: those of a batch, or the one object.
abbrev pub IsReplied : Value → Bool → List Value → Type 0
IsReplied root is_batch items =
    ((fs : Fields) × (root ≡ object fs) × (is_batch ≡ false) × (items ≡ object fs ∷ []))
    ⊎ ((v : Value) × (vs : Items) × (root ≡ array (cons v vs))
        × (is_batch ≡ true)
        × Answers (v ∷ items_of vs) items)

-- The error for one id, in full.
abbrev pub error_with : String → Value → Value
error_with message id = object (
    field "jsonrpc" (string "2.0") (
      field "id" id (
        field "error"
          (object
            (field "code" (number (Number.negative 32008)) (field "message" (string message) end)))
          end)))

-- The ids told are those of the items that a reply answers, in their order: the items of one JSON
-- document without duplicate members, each of them a JSON-RPC request or notification.
unfoldable pub IsEcho : (List ℕ → Option Value) → Option (List ℕ) → String → Response → Type 0
IsEcho parse body message r =
    (bytes : List ℕ) × (root : Value) × (is_batch : Bool) × (items : List Value) × (body
      ≡ some bytes)
    × (parse bytes ≡ some root)
    × (no_duplicates root ≡ true)
    × IsReplied root is_batch items
    × (all_calls items ≡ true)
    × (r.status ≡ 200)
    × ((id : Value) × (ids : List Value) × Names items (id ∷ ids)
        × (r.body
            ≡ some (
                if is_batch
                then array (array_of (map (error_with message) (id ∷ ids)))
                else error_with message id)))

ids_of-Names : (items : List Value) → Names items (ids_of items)
unfolding ids_of get_member
ids_of-Names [] = nothing
ids_of-Names (object fs ∷ items) = elim (Option-cases (member "id" fs)) [
  | inl e ↦ rw (e, ids_of, get_member) (unnamed e (ids_of-Names items))
  | inr (id, e) ↦ rw (e, ids_of, get_member) (named e (ids_of-Names items))
]
ids_of-Names (null ∷ items) = unnamed refl (ids_of-Names items)
ids_of-Names (bool b ∷ items) = unnamed refl (ids_of-Names items)
ids_of-Names (number n ∷ items) = unnamed refl (ids_of-Names items)
ids_of-Names (string s ∷ items) = unnamed refl (ids_of-Names items)
ids_of-Names (array vs ∷ items) = unnamed refl (ids_of-Names items)

without_responses-Answers : (items : List Value) → Answers items (without_responses items)
unfolding without_responses
without_responses-Answers [] = no_more
without_responses-Answers (item ∷ items) = elim (Bool-cases (is_jsonrpc_response item)) [
  | inl e ↦ rw (e, without_responses) (left_out e (without_responses-Answers items))
  | inr e ↦ rw (e, without_responses) (answered e (without_responses-Answers items))
]

reply_items-IsReplied :
    (root : Value) (is_batch : Bool) (items : List Value)
    → reply_items root ≡ some (is_batch, items)
    → IsReplied root is_batch items
unfolding reply_items
reply_items-IsReplied (object fs) is_batch items h =
    inl (fs, refl, ground (arith, h), ground (arith, h))
reply_items-IsReplied (array (cons v vs)) is_batch items h = inr (
  v,
  vs,
  refl,
  ground (arith, h),
  subst (Answers (v ∷ items_of vs)) (ground (arith, h))
      (without_responses-Answers (v ∷ items_of vs)),
)
reply_items-IsReplied (array nil) is_batch items h = absurd (ground (arith, h))
reply_items-IsReplied null is_batch items h = absurd (ground (arith, h))
reply_items-IsReplied (bool b) is_batch items h = absurd (ground (arith, h))
reply_items-IsReplied (number n) is_batch items h = absurd (ground (arith, h))
reply_items-IsReplied (string s) is_batch items h = absurd (ground (arith, h))

module _ (parse : List ℕ → Option Value) where
  parse_jsonrpc_request_lem :
      (body : List ℕ) (parsed : ParsedJsonRpcRequest)
      → parse_jsonrpc_request parse body ≡ some parsed
      → (root : Value) × (is_batch : Bool) × (items : List Value) × (parse body ≡ some root)
        × (no_duplicates root ≡ true)
        × (reply_items root ≡ some (is_batch, items))
        × (all_calls items ≡ true)
        × (parsed.is_batch ≡ is_batch)
        × (parsed.response_ids ≡ ids_of items)
  unfolding parse_jsonrpc_request
  parse_jsonrpc_request_lem body parsed h =
      elim (Bool-cases (leb (length body) max_inspect_bytes)) [
        | inr e ↦ absurd (ground (arith, rw (e, parse_jsonrpc_request) at h))
        | inl e ↦ elim (Option-cases (parse body)) [
          | inl f ↦ absurd (ground (arith, rw (e, f, parse_jsonrpc_request) at h))
          | inr (root, f) ↦ elim (Bool-cases (no_duplicates root)) [
            | inr g ↦ absurd (ground (arith, rw (e, f, g, parse_jsonrpc_request) at h))
            | inl g ↦ elim (Option-cases (reply_items root)) [
              | inl k ↦ absurd (ground (arith, rw (e, f, g, k, parse_jsonrpc_request) at h))
              | inr ((is_batch, items), k) ↦ elim (Bool-cases (all_calls items)) [
                | inr m ↦ absurd (ground (arith, rw (e, f, g, k, m, parse_jsonrpc_request) at h))
                | inl m ↦
                    let same = rw (e, f, g, k, m, parse_jsonrpc_request) at h in
                    (root, is_batch, items, f, g, k, m, ground (arith, same), ground (arith, same))
              ]
            ]
          ]
        ]
      ]

  rpc_denial-cases :
      (bytes : List ℕ) (parsed : ParsedJsonRpcRequest) (told : List Value) (stamp message : String)
      → parsed.response_ids ≡ told
      → parse_jsonrpc_request parse bytes ≡ some parsed
      → let r = rpc_denial parsed stamp message in
        (IsSilent r ⊎ IsEcho parse (some bytes) message r)
  unfolding rpc_denial error_for IsSilent IsEcho
  rpc_denial-cases bytes parsed [] stamp message e h = rw (e, rpc_denial) (inl (refl, inr refl))
  rpc_denial-cases bytes parsed (id ∷ ids) stamp message e h =
      let (root, is_batch, items, f, g, k, m, same, known) =
        parse_jsonrpc_request_lem bytes parsed h in
      rw (e, same, rpc_denial)
        (inr (
          bytes,
          root,
          is_batch,
          items,
          refl,
          f,
          g,
          reply_items-IsReplied root is_batch items k,
          m,
          refl,
          (id, ids, subst (Names items) (sym known ∙ e) (ids_of-Names items), refl),
        ))

  -- A refusal is silent, or it echoes ids: and then only those of the requests of the caller's own
  -- document, which parsed and names no member twice. A client's responses, whose ids are the
  -- server's, are not among them.
  pub deny_response-cases :
      (on_deny : OnDeny) (body : Option (List ℕ)) (stamp message : String)
      → let r = deny_response parse on_deny body stamp message in
        (IsSilent r ⊎ IsEcho parse body message r)
  unfolding deny_response empty_denial IsSilent
  deny_response-cases OnDeny.empty_forbidden body stamp message = inl (refl, inl refl)
  deny_response-cases OnDeny.rpc_error none stamp message = inl (refl, inl refl)
  deny_response-cases OnDeny.rpc_error (some bytes) stamp message =
      elim (Option-cases (parse_jsonrpc_request parse bytes)) [
        | inl e ↦ rw (e, deny_response) (inl (refl, inl refl))
        | inr (parsed, e) ↦
            rw (e, deny_response)
              (rpc_denial-cases bytes parsed parsed.response_ids stamp message refl e)
      ]
