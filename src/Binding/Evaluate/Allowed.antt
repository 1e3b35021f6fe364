-- ===== src/Binding/Evaluate/Allowed.antt =====
-- What an allowed call has been through.
use agent_governance_policie.Prelude.{
  ℕ, ◌≤◌, ◌≡◌, ◌≢◌, refl, inl, inr, Bool, true, false, ◌&&◌, ◌||◌, Bool-cases, Option, none, some,
  Option-cases, List, String, string_discrete, ite, if_neg, ok, Result-cases, arith,
}
use agent_governance_policie.Gate.Json.{Value}
use agent_governance_policie.Binding.Predicates.{Predicate, PredicateSet, contains}
use agent_governance_policie.Binding.Record.{ApprovalScope, Envelope, Binding}
use agent_governance_policie.Binding.Request.{JsonRpcCall}
use agent_governance_policie.Binding.Freshness.{IsFresh, check_freshness_at, check_freshness_at_lem}
use agent_governance_policie.Binding.Evaluate.Attested.{
  text-cases, present-some, IsAttested, check_separate_attester_lem,
}
use agent_governance_policie.Binding.Evaluate.{
  contains_ref_object, present, check_separate_attester, digest_matches, check_action_and_arguments,
  Verdict, check_nonce_length, check_p5, check_p6, check_p1_p2, check_p4, check_envelope, evaluate,
}

digest_matches-eq : (d : Option String) (s : String) → digest_matches d s ≡ true → d ≡ some s
unfolding digest_matches
digest_matches-eq none s h = absurd (ground (arith, h))
digest_matches-eq (some d) s h = elim (text-cases d s) [
  | inl e ↦ rw e
  | inr n ↦ absurd (ground (arith, rw (if_neg (string_discrete d s) n) at h))
]

differs-eq : (s t : String) → ite (string_discrete s t) false true ≡ false → s ≡ t
differs-eq s t h = elim (text-cases s t) [
  | inl e ↦ e
  | inr n ↦ absurd (ground (arith, rw (if_neg (string_discrete s t) n) at h))
]

and-false : (a b : Bool) → a && b ≡ false → a ≡ true → b ≡ false
and-false true b h e = h
and-false false b h e = absurd (ground (arith, e))

module _ (digest : Value → Option String) (authenticates : List ℕ → Value → String → Bool)
    (last : ℕ) (parse_instant : String → Option ℕ) where
  -- What the check of each required predicate promises of an allowed call. That a nonce is used once is
  -- not decided here but by its reservation.
  pub record IsAllowed (binding : Binding) (call : JsonRpcCall) (envelope : Envelope)
      (executor : String) (verified : Bool) (now : ℕ) : Type 0 where
    pub nonce_length : check_nonce_length envelope.approval.nonce ≡ ok tt
    pub attested :
        contains binding.required Predicate.p5 ≡ true
        → (verified ≡ true)
          × IsAttested digest authenticates binding envelope.approval envelope.attestations executor
    pub has_nonce :
        contains binding.required Predicate.p6 ≡ true
        → (nonce : String) × (envelope.approval.nonce ≡ some nonce) × (nonce ≢ "")
    pub same_action :
        contains binding.required Predicate.p1 ≡ true → call.action ≡ envelope.approval.scope.action
    pub same_arguments :
        contains binding.required Predicate.p2 ≡ true
        → (contains_ref_object call.arguments ≡ false)
          × (digest call.arguments ≡ some envelope.approval.scope.arguments_digest)
    pub fresh :
        contains binding.required Predicate.p4 ≡ true
        → (raw : String) × (not_after : ℕ) × (envelope.approval.not_after ≡ some raw)
          × (parse_instant raw ≡ some not_after)
          × IsFresh last parse_instant not_after binding.clock_skew_seconds
              binding.max_approval_lifetime_seconds now

  check_p5_lem :
      (binding : Binding) (envelope : Envelope) (executor : String) (verified : Bool)
      → check_p5 digest authenticates last parse_instant binding envelope executor verified ≡ ok tt
      → contains binding.required Predicate.p5 ≡ true
      → (verified ≡ true)
        × IsAttested digest authenticates binding envelope.approval envelope.attestations executor
  unfolding check_p5
  check_p5_lem binding envelope executor false h r = absurd (ground (arith, rw (r, check_p5) at h))
  check_p5_lem binding envelope executor true h r =
      elim (Result-cases (
        check_separate_attester digest authenticates binding envelope.approval envelope.attestations
          executor)) [
            | inl (_, e) ↦ (
              refl,
              check_separate_attester_lem digest authenticates binding envelope.approval
                  envelope.attestations executor e,
            )
            | inr (fault, e) ↦ absurd (ground (arith, rw (r, e, check_p5) at h))
          ]

  check_p6_lem :
      (binding : Binding) (envelope : Envelope)
      → check_p6 digest authenticates last parse_instant binding envelope ≡ ok tt
      → contains binding.required Predicate.p6 ≡ true
      → (nonce : String) × (envelope.approval.nonce ≡ some nonce) × (nonce ≢ "")
  unfolding check_p6
  check_p6_lem binding envelope h r = elim (Option-cases (present envelope.approval.nonce)) [
    | inl e ↦ absurd (ground (arith, rw (r, e, check_p6) at h))
    | inr (nonce, e) ↦
        let named = present-some envelope.approval.nonce nonce e in (nonce, named.0, named.1)
  ]

  check_p4_lem :
      (binding : Binding) (envelope : Envelope) (now : ℕ)
      → now ≤ last
      → check_p4 digest authenticates last parse_instant binding envelope now ≡ ok tt
      → contains binding.required Predicate.p4 ≡ true
      → (raw : String) × (not_after : ℕ) × (envelope.approval.not_after ≡ some raw)
        × (parse_instant raw ≡ some not_after)
        × IsFresh last parse_instant not_after binding.clock_skew_seconds
            binding.max_approval_lifetime_seconds now
  unfolding check_p4
  check_p4_lem binding envelope now top h r =
      elim (Result-cases (
        check_freshness_at last parse_instant envelope.approval binding.clock_skew_seconds
          binding.max_approval_lifetime_seconds now)) [
            | inl (_, e) ↦
                check_freshness_at_lem last parse_instant envelope.approval
                  binding.clock_skew_seconds binding.max_approval_lifetime_seconds now top e
            | inr (fault, e) ↦ absurd (ground (arith, rw (r, e, check_p4) at h))
          ]

  -- P1 and P2, from the check of both.
  action_lem :
      (scope : ApprovalScope) (action : String) (arguments : Value) (required : PredicateSet)
      → check_action_and_arguments digest authenticates scope action arguments required ≡ ok tt
      → (contains required Predicate.p1 ≡ true → action ≡ scope.action)
        × (contains required Predicate.p2 ≡ true
            → (contains_ref_object arguments ≡ false)
              × (digest arguments ≡ some scope.arguments_digest))
  unfolding check_action_and_arguments
  action_lem scope action arguments required h =
      elim (Bool-cases
        (contains required Predicate.p1 && ite (string_discrete action scope.action) false true)) [
          | inl e ↦ absurd (ground (arith, rw (e, check_action_and_arguments) at h))
          | inr e ↦ (
            λ r. differs-eq action scope.action (and-false _ _ e r),
            λ r. elim (Bool-cases (contains_ref_object arguments)) [
              | inl f ↦ absurd (ground (arith, rw (e, r, f, check_action_and_arguments) at h))
              | inr f ↦
                  elim (Bool-cases (digest_matches (digest arguments) scope.arguments_digest)) [
                    | inl g ↦ (f, digest_matches-eq (digest arguments) scope.arguments_digest g)
                    | inr g ↦
                        absurd (ground (arith, rw (e, r, f, g, check_action_and_arguments) at h))
                  ]
            ],
          )
        ]

  check_p1_p2_lem :
      (binding : Binding) (envelope : Envelope) (call : JsonRpcCall)
      → check_p1_p2 digest authenticates last parse_instant binding envelope call ≡ ok tt
      → (contains binding.required Predicate.p1 || contains binding.required Predicate.p2) ≡ true
      → check_action_and_arguments digest authenticates envelope.approval.scope call.action
          call.arguments binding.required
        ≡ ok tt
  unfolding check_p1_p2
  check_p1_p2_lem binding envelope call h r =
      elim (Result-cases (
        check_action_and_arguments digest authenticates envelope.approval.scope call.action
          call.arguments binding.required)) [
            | inl (_, e) ↦ e
            | inr (p, e) ↦ absurd (ground (arith, rw (r, e, check_p1_p2) at h))
          ]

  or-left : (a b : Bool) → a ≡ true → (a || b) ≡ true
  or-left a b e = rw e refl

  or-right : (a b : Bool) → b ≡ true → (a || b) ≡ true
  or-right true b e = refl
  or-right false b e = e

  check_envelope_lem :
      (binding : Binding) (call : JsonRpcCall) (envelope : Envelope) (executor : String)
      (verified : Bool) (now : ℕ)
      → now ≤ last
      → check_envelope digest authenticates last parse_instant binding call envelope executor
          verified now
        ≡ ok tt
      → IsAllowed binding call envelope executor verified now
  unfolding check_envelope
  check_envelope_lem binding call envelope executor verified now top h =
      elim (Result-cases (check_nonce_length envelope.approval.nonce)) [
        | inr (p, e) ↦ absurd (ground (arith, rw (e, check_envelope) at h))
        | inl (_, e) ↦
            elim (Result-cases (
              check_p5 digest authenticates last parse_instant binding envelope executor
                verified)) [
                  | inr (p, f) ↦ absurd (ground (arith, rw (e, f, check_envelope) at h))
                  | inl (_, f) ↦
                      elim (Result-cases
                        (check_p6 digest authenticates last parse_instant binding envelope)) [
                          | inr (p, g) ↦ absurd (ground (arith, rw (e, f, g, check_envelope) at h))
                          | inl (_, g) ↦
                              elim (Result-cases (
                                check_p1_p2 digest authenticates last parse_instant binding envelope
                                  call)) [
                                    | inr (p, k) ↦
                                        absurd
                                          (ground (arith, rw (e, f, g, k, check_envelope) at h))
                                    | inl (_, k) ↦
                                        let p1 = contains binding.required Predicate.p1 in
                                        let p2 = contains binding.required Predicate.p2 in
                                        let both =
                                          action_lem envelope.approval.scope call.action
                                            call.arguments binding.required in
                                        record {
                                          nonce_length = e;
                                          attested =
                                              check_p5_lem binding envelope executor verified f;
                                          has_nonce = check_p6_lem binding envelope g;
                                          same_action = λ r.
                                              (both (
                                                  check_p1_p2_lem binding envelope call k
                                                    (or-left p1 p2 r))).0
                                                r;
                                          same_arguments = λ r.
                                              (both (
                                                  check_p1_p2_lem binding envelope call k
                                                    (or-right p1 p2 r))).1
                                                r;
                                          fresh =
                                              check_p4_lem binding envelope now top
                                                (rw (e, f, g, k, check_envelope) at h);
                                        }
                                  ]
                        ]
                ]
      ]

  -- A call that `evaluate` allows, at an instant that chrono has, has an envelope that passed the check
  -- of each predicate that the operator requires: P5, the executor is verified and another party
  -- attested the envelope's approval, which need not be of this call's action unless P1 is required,
  -- nor of its arguments unless P2 is; P6, the approval has a nonce that is not empty, which may have
  -- been used before; P1, the call's action is the approved one; P2, its arguments have no references
  -- and their digest is the approved one; P4, freshness. The nonce is within the length bound.
  pub evaluate-allow :
      (binding : Binding) (call : JsonRpcCall) (approved : Option Envelope) (executor : String)
      (verified : Bool) (now : ℕ)
      → now ≤ last
      → evaluate digest authenticates last parse_instant binding call approved executor verified now
        ≡ Verdict.allow
      → (envelope : Envelope) × (approved ≡ some envelope)
        × IsAllowed binding call envelope executor verified now
  unfolding evaluate
  evaluate-allow binding call none executor verified now top h = absurd (ground (arith, h))
  evaluate-allow binding call (some envelope) executor verified now top h =
      elim (Result-cases (
        check_envelope digest authenticates last parse_instant binding call envelope executor
          verified now)) [
            | inl (_, e) ↦ (
              envelope,
              refl,
              check_envelope_lem binding call envelope executor verified now top e,
            )
            | inr (p, e) ↦ absurd (ground (arith, rw (e, evaluate) at h))
          ]
