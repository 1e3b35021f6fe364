-- ===== src/Binding/Evaluate/Attested.antt =====
-- P5: what an approval that passes `check_separate_attester` is attested by.
use agent_governance_policie.Prelude.{
  ℕ, ◌≡◌, ◌≢◌, ◌⊎◌, inl, inr, Bool, true, Bool-cases, Option, none, some, Option-cases, List, [],
  ◌∷◌, All, String, string_discrete, ite, if_pos, if_neg, if◌then◌else◌, Result, ok, err,
  Result-cases, arith,
}
use agent_governance_policie.Prelude.Assoc.{get}
use agent_governance_policie.Gate.Json.{Value, string, object, end, field}
use agent_governance_policie.Binding.Record.{ApprovalRecord, Attestation, Binding}
use agent_governance_policie.Binding.Evaluate.{
  mcp_v1_payload, present, approvals, AttesterError, payload_of, check_attestation, check_all,
  check_approvals, check_separate_attester,
}

pub text-cases : (s t : String) → (s ≡ t) ⊎ (s ≢ t)
text-cases s t = elim (string_discrete s t) [ yes e ↦ inl e | no n ↦ inr n ]

pub present-some : (o : Option String) (s : String) → present o ≡ some s → (o ≡ some s) × (s ≢ "")
unfolding present
present-some none s h = absurd (ground (arith, h))
present-some (some t) s h =
    elim (string_discrete t "")
        as (λ d. ite d none (some t) ≡ some s → (some t ≡ some s) × (s ≢ "")) [
          | yes e ↦ λ g. absurd (ground (arith, g))
          | no n ↦ λ g. (g, λ e. n (ground (arith, g, e)))
        ]
      h

module _ (digest : Value → Option String) (authenticates : List ℕ → Value → String → Bool) where
  -- What an attester signs, member by member: the format, the attester, the deployment's audience,
  -- tenant and environment, the executor, and of the approval its action, the digest of its
  -- arguments, its end and its nonce.
  abbrev pub signed : String → Binding → String → ApprovalRecord → String → String → Value
  signed attester binding executor approval not_after nonce = object (
      field "v" (string "mcp-v1") (
        field "iss" (string attester) (
          field "aud" (string binding.expected_audience) (
            field "tenant" (string binding.expected_tenant) (
              field "env" (string binding.expected_environment) (
                field "sub" (string executor) (
                  field "action" (string approval.scope.action) (
                    field "arguments_digest" (string approval.scope.arguments_digest) (
                      field "not_after" (string not_after)
                        (field "nonce" (string nonce) end))))))))))

  -- An attestation by another party, whose configured key authenticates it over that.
  unfoldable pub IsAuthentic :
      Binding → ApprovalRecord → String → String → String → Attestation → Type 0
  IsAuthentic binding approval executor not_after nonce a =
      (a.authority ≢ executor)
      × ((key : List ℕ) × (get string_discrete a.authority binding.attester_keys ≡ some key)
          × (authenticates key (signed a.authority binding executor approval not_after nonce) a.mac
              ≡ true))

  check_attestation-IsAuthentic :
      (binding : Binding) (approval : ApprovalRecord) (executor not_after nonce : String)
      (a : Attestation)
      → check_attestation digest authenticates binding approval executor not_after nonce a ≡ ok tt
      → IsAuthentic binding approval executor not_after nonce a
  unfolding check_attestation IsAuthentic payload_of mcp_v1_payload
  check_attestation-IsAuthentic binding approval executor not_after nonce a h =
      elim (text-cases a.authority executor) [
        | inl e ↦ absurd (ground (arith, rw (if_pos (string_discrete a.authority executor) e) at h))
        | inr n ↦ (n, keyed (rw (if_neg (string_discrete a.authority executor) n) at h))
      ]
    where
      keyed :
          (elim (get string_discrete a.authority binding.attester_keys)
              as (λ _. Result (Unit {0}) AttesterError) [
                | none ↦ err AttesterError.unknown_authority
                | some key ↦
                    if authenticates key
                      (payload_of digest authenticates binding approval executor not_after nonce
                        a.authority)
                      a.mac
                    then ok tt
                    else err AttesterError.unauthentic
              ])
            ≡ ok tt
          → (key : List ℕ) × (get string_discrete a.authority binding.attester_keys ≡ some key)
            × (authenticates key
                  (payload_of digest authenticates binding approval executor not_after nonce
                    a.authority)
                  a.mac
                ≡ true)
      keyed g = elim (Option-cases (get string_discrete a.authority binding.attester_keys)) [
        | inl e ↦ absurd (ground (arith, rw e at g))
        | inr (key, e) ↦
            elim (Bool-cases (
              authenticates key
                (payload_of digest authenticates binding approval executor not_after nonce
                  a.authority)
                a.mac)) [ inl f ↦ (key, e, f) | inr f ↦ absurd (ground (arith, rw (e, f) at g)) ]
      ]

  check_all-All :
      (binding : Binding) (approval : ApprovalRecord) (executor not_after nonce : String)
      (as_ : List Attestation)
      → check_all digest authenticates binding approval executor not_after nonce as_ ≡ ok tt
      → All (IsAuthentic binding approval executor not_after nonce) as_
  unfolding check_all
  check_all-All binding approval executor not_after nonce [] h = tt
  check_all-All binding approval executor not_after nonce (a ∷ as_) h =
      elim (Result-cases
        (check_attestation digest authenticates binding approval executor not_after nonce a)) [
          | inl (_, e) ↦ (
            check_attestation-IsAuthentic binding approval executor not_after nonce a e,
            check_all-All binding approval executor not_after nonce as_ (rw (e, check_all) at h),
          )
          | inr (fault, e) ↦ absurd (ground (arith, rw (e, check_all) at h))
        ]

  -- The executor is known, the approval names its end and its nonce, neither empty, and it is
  -- attested: there is an approval attestation, and each of them is authentic.
  unfoldable pub IsAttested : Binding → ApprovalRecord → List Attestation → String → Type 0
  unfolding approvals
  IsAttested binding approval attestations executor =
      (executor ≢ "")
      × ((not_after : String) × (nonce : String) × (approval.not_after ≡ some not_after)
          × (approval.nonce ≡ some nonce)
          × (not_after ≢ "")
          × (nonce ≢ "")
          × (approvals attestations ≢ [])
          × All (IsAuthentic binding approval executor not_after nonce) (approvals attestations))

  check_approvals-All :
      (binding : Binding) (approval : ApprovalRecord) (executor not_after nonce : String)
      (as_ : List Attestation)
      → check_approvals digest authenticates binding approval executor not_after nonce as_ ≡ ok tt
      → (as_ ≢ []) × All (IsAuthentic binding approval executor not_after nonce) as_
  unfolding check_approvals
  check_approvals-All binding approval executor not_after nonce [] h = absurd (ground (arith, h))
  check_approvals-All binding approval executor not_after nonce (a ∷ as_) h =
      (λ e. ground (arith, e), check_all-All binding approval executor not_after nonce (a ∷ as_) h)

  pub check_separate_attester_lem :
      (binding : Binding) (approval : ApprovalRecord) (attestations : List Attestation)
      (executor : String)
      → check_separate_attester digest authenticates binding approval attestations executor ≡ ok tt
      → IsAttested binding approval attestations executor
  unfolding check_separate_attester IsAttested
  check_separate_attester_lem binding approval attestations executor h =
      elim (text-cases executor "") [
        | inl e ↦ absurd (ground (arith, rw (if_pos (string_discrete executor "") e) at h))
        | inr n ↦ (n, ends (rw (if_neg (string_discrete executor "") n) at h))
      ]
    where
      ends :
          (elim (present approval.not_after) as (λ _. Result (Unit {0}) AttesterError) [
            | none ↦ err AttesterError.no_end
            | some not_after ↦
                elim (present approval.nonce) as (λ _. Result (Unit {0}) AttesterError) [
                  | none ↦ err AttesterError.no_nonce
                  | some nonce ↦
                      check_approvals digest authenticates binding approval executor not_after nonce
                        (approvals attestations)
                ]
          ])
            ≡ ok tt
          → (not_after : String) × (nonce : String) × (approval.not_after ≡ some not_after)
            × (approval.nonce ≡ some nonce)
            × (not_after ≢ "")
            × (nonce ≢ "")
            × (approvals attestations ≢ [])
            × All (IsAuthentic binding approval executor not_after nonce) (approvals attestations)
      ends g = elim (Option-cases (present approval.not_after)) [
        | inl e ↦ absurd (ground (arith, rw e at g))
        | inr (not_after, e) ↦ elim (Option-cases (present approval.nonce)) [
          | inl f ↦ absurd (ground (arith, rw (e, f) at g))
          | inr (nonce, f) ↦
              let all =
                check_approvals-All binding approval executor not_after nonce
                  (approvals attestations) (rw (e, f) at g) in
              let ended = present-some approval.not_after not_after e in
              let named = present-some approval.nonce nonce f in
              (not_after, nonce, ended.0, named.0, ended.1, named.1, all.0, all.1)
        ]
      ]
