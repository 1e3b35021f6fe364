-- ===== src/Binding/Evaluate.antt =====
-- The evaluation of an approval: `evaluate`, `check_separate_attester` and
-- `check_action_and_arguments` of approval-execution-binding/src/lib.rs. `digest` is `digest_value`,
-- of which only equality is asked, `authenticates` the verification of an HMAC over the canonical form
-- of the payload, and `fresh` the outcome of P4 on the approval.
pub mod Attested
pub mod Allowed
use agent_governance_policie.Prelude.{
  ℕ, Bool, true, false, not, ◌&&◌, ◌||◌, Option, none, some, List, [], ◌∷◌, String, string_discrete,
  ite, if◌then◌else◌, ltb, leb, Result, ok, err, ◌>>=◌, ◌>>◌,
}
use Prim.Native.String.{len}
use agent_governance_policie.Prelude.Assoc.{get}
use agent_governance_policie.Gate.Json.{
  Value, null, bool, number, string, array, object, Items, nil, cons, Fields, end, field,
  contains_key,
}
use agent_governance_policie.Binding.Predicates.{Predicate, PredicateSet, contains, first}
use agent_governance_policie.Binding.Record.{
  ApprovalScope, ApprovalRecord, Attestation, Envelope, Binding,
}
use agent_governance_policie.Binding.Request.{JsonRpcCall}
use agent_governance_policie.Binding.Freshness.{check_freshness_at}

abbrev pub max_nonce_bytes : ℕ
max_nonce_bytes = 128

-- An object with a `$ref` member, at any depth.
unfoldable mutual
  unfolding contains_key

  pub contains_ref_object : Value → Bool
  contains_ref_object (object fs) = contains_key "$ref" fs || fields_contain_ref fs
  contains_ref_object (array vs) = items_contain_ref vs
  contains_ref_object _ = false

  pub items_contain_ref : Items → Bool
  items_contain_ref nil = false
  items_contain_ref (cons v vs) = contains_ref_object v || items_contain_ref vs

  pub fields_contain_ref : Fields → Bool
  fields_contain_ref end = false
  fields_contain_ref (field k v fs) = contains_ref_object v || fields_contain_ref fs

unfoldable pub mcp_v1_payload :
    String → String → String → String → String → String → String → String → String → Value
mcp_v1_payload iss aud tenant env sub action arguments_digest not_after nonce = object (
    field "v" (string "mcp-v1") (
      field "iss" (string iss) (
        field "aud" (string aud) (
          field "tenant" (string tenant) (
            field "env" (string env) (
              field "sub" (string sub) (
                field "action" (string action) (
                  field "arguments_digest" (string arguments_digest) (
                    field "not_after" (string not_after) (field "nonce" (string nonce) end))))))))))

-- A member that is there and is not empty.
unfoldable pub present : Option String → Option String
present none = none
present (some s) = ite (string_discrete s "") none (some s)

unfoldable pub is_approval : Option String → Bool
is_approval none = false
is_approval (some claim) = ite (string_discrete claim "approval") true false

unfoldable pub approvals : List Attestation → List Attestation
unfolding is_approval
approvals [] = []
approvals (a ∷ as_) = let rest = approvals as_ in if is_approval a.claim then a ∷ rest else rest

unfoldable pub digest_matches : Option String → String → Bool
digest_matches none approved = false
digest_matches (some d) approved = ite (string_discrete d approved) true false

unfoldable pub check_nonce_length : Option String → Result (Unit {0}) (Option Predicate)
check_nonce_length none = ok tt
check_nonce_length (some nonce) = if ltb max_nonce_bytes (len nonce) then err none else ok tt

pub data AttesterError : Type 0 where
  no_executor no_end no_nonce no_attestation self_attested unknown_authority unauthentic :
      AttesterError

module _ (digest : Value → Option String) (authenticates : List ℕ → Value → String → Bool) where
  unfoldable pub payload_of : Binding → ApprovalRecord → String → String → String → String → Value
  unfolding mcp_v1_payload
  payload_of binding approval executor not_after nonce authority =
      mcp_v1_payload authority binding.expected_audience binding.expected_tenant
        binding.expected_environment executor approval.scope.action approval.scope.arguments_digest
        not_after nonce

  -- The body of the loop over the approval attestations.
  unfoldable pub check_attestation :
      Binding
      → ApprovalRecord
      → String
      → String
      → String
      → Attestation
      → Result (Unit {0}) AttesterError
  unfolding payload_of get
  check_attestation binding approval executor not_after nonce a =
      ite (string_discrete a.authority executor) (err AttesterError.self_attested)
        (elim (get string_discrete a.authority binding.attester_keys) [
          | none ↦ err AttesterError.unknown_authority
          | some key ↦
              if authenticates key
                (payload_of binding approval executor not_after nonce a.authority) a.mac
              then ok tt
              else err AttesterError.unauthentic
        ])

  unfoldable pub check_all :
      Binding
      → ApprovalRecord
      → String
      → String
      → String
      → List Attestation
      → Result (Unit {0}) AttesterError
  unfolding check_attestation
  check_all binding approval executor not_after nonce [] = ok tt
  check_all binding approval executor not_after nonce (a ∷ as_) = do
    _ ← check_attestation binding approval executor not_after nonce a
    check_all binding approval executor not_after nonce as_

  unfoldable pub check_approvals :
      Binding
      → ApprovalRecord
      → String
      → String
      → String
      → List Attestation
      → Result (Unit {0}) AttesterError
  unfolding check_all
  check_approvals binding approval executor not_after nonce [] = err AttesterError.no_attestation
  check_approvals binding approval executor not_after nonce (a ∷ as_) =
      check_all binding approval executor not_after nonce (a ∷ as_)

  unfoldable pub check_separate_attester :
      Binding → ApprovalRecord → List Attestation → String → Result (Unit {0}) AttesterError
  unfolding present approvals check_approvals
  check_separate_attester binding approval attestations executor =
      ite (string_discrete executor "") (err AttesterError.no_executor)
        (elim (present approval.not_after) [
          | none ↦ err AttesterError.no_end
          | some not_after ↦ elim (present approval.nonce) [
            | none ↦ err AttesterError.no_nonce
            | some nonce ↦
                check_approvals binding approval executor not_after nonce (approvals attestations)
          ]
        ])

  -- P1 and P2; the error names the predicate.
  unfoldable pub check_action_and_arguments :
      ApprovalScope → String → Value → PredicateSet → Result (Unit {0}) Predicate
  unfolding contains contains_ref_object digest_matches
  check_action_and_arguments scope action arguments required =
      if contains required Predicate.p1 && ite (string_discrete action scope.action) false true
      then err Predicate.p1
      else (if not (contains required Predicate.p2)
          then ok tt
          else (if contains_ref_object arguments
              then err Predicate.p2
              else (if digest_matches (digest arguments) scope.arguments_digest
                  then ok tt
                  else err Predicate.p2)))

-- A denial names its predicate; the reason, which only the log reads, is left out.
pub data Verdict : Type 0 where
  allow : Verdict
  deny : Option Predicate → Verdict

module _ (digest : Value → Option String) (authenticates : List ℕ → Value → String → Bool)
    (last : ℕ) (parse_instant : String → Option ℕ) where
  unfoldable pub check_p5 :
      Binding → Envelope → String → Bool → Result (Unit {0}) (Option Predicate)
  unfolding contains check_separate_attester
  check_p5 binding envelope executor verified =
      if contains binding.required Predicate.p5
      then (if verified
          then (elim (check_separate_attester digest authenticates binding envelope.approval
              envelope.attestations executor) [ ok _ ↦ ok tt | err _ ↦ err (some Predicate.p5) ])
          else err (some Predicate.p5))
      else ok tt

  unfoldable pub check_p6 : Binding → Envelope → Result (Unit {0}) (Option Predicate)
  unfolding contains present
  check_p6 binding envelope =
      if contains binding.required Predicate.p6
      then (elim (present envelope.approval.nonce) [
        | some _ ↦ ok tt
        | none ↦ err (some Predicate.p6)
      ])
      else ok tt

  unfoldable pub check_p1_p2 :
      Binding → Envelope → JsonRpcCall → Result (Unit {0}) (Option Predicate)
  unfolding contains check_action_and_arguments
  check_p1_p2 binding envelope call =
      if contains binding.required Predicate.p1 || contains binding.required Predicate.p2
      then (elim (check_action_and_arguments digest authenticates envelope.approval.scope
          call.action call.arguments binding.required) [ ok _ ↦ ok tt | err p ↦ err (some p) ])
      else ok tt

  unfoldable pub check_p4 : Binding → Envelope → ℕ → Result (Unit {0}) (Option Predicate)
  unfolding contains check_freshness_at
  check_p4 binding envelope now =
      if contains binding.required Predicate.p4
      then (elim (check_freshness_at last parse_instant envelope.approval binding.clock_skew_seconds
          binding.max_approval_lifetime_seconds now) [
            | ok _ ↦ ok tt
            | err _ ↦ err (some Predicate.p4)
          ])
      else ok tt

  -- The checks on an envelope, in the order of the code.
  unfoldable pub check_envelope :
      Binding → JsonRpcCall → Envelope → String → Bool → ℕ → Result (Unit {0}) (Option Predicate)
  unfolding check_nonce_length check_p5 check_p6 check_p1_p2 check_p4
  check_envelope binding call envelope executor verified now = do
    _ ← check_nonce_length envelope.approval.nonce
    _ ← check_p5 binding envelope executor verified
    _ ← check_p6 binding envelope
    _ ← check_p1_p2 binding envelope call
    check_p4 binding envelope now

  -- The predicate that a call without an envelope is denied under.
  unfoldable pub missing_predicate : Binding → Option Predicate
  unfolding contains first
  missing_predicate binding =
      if contains binding.required Predicate.p5 then some Predicate.p5 else first binding.required

  -- An envelope that could not be read is `none`.
  unfoldable pub evaluate : Binding → JsonRpcCall → Option Envelope → String → Bool → ℕ → Verdict
  unfolding check_envelope missing_predicate
  evaluate binding call none executor verified now = Verdict.deny (missing_predicate binding)
  evaluate binding call (some envelope) executor verified now =
      elim (check_envelope binding call envelope executor verified now) [
        | ok _ ↦ Verdict.allow
        | err p ↦ Verdict.deny p
      ]
