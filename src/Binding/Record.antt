-- ===== src/Binding/Record.antt =====
-- What an approval says and what the operator requires: the records of
-- approval-execution-binding/src/lib.rs. A text's bytes are its UTF-8.
use agent_governance_policie.Prelude.{ℕ, Option, List, String}
use agent_governance_policie.Binding.Predicates.{PredicateSet}

pub record ApprovalScope : Type 0 where
  pub action : String
  pub arguments_digest : String

pub record ApprovalRecord : Type 0 where
  pub scope : ApprovalScope
  pub not_after : Option String
  pub nonce : Option String

pub record Attestation : Type 0 where
  pub claim : Option String
  pub authority : String
  pub mac : String

pub record Envelope : Type 0 where
  pub approval : ApprovalRecord
  pub attestations : List Attestation

-- The settings that the evaluation reads. The skew is the seconds that the configuration bounded.
pub record Binding : Type 0 where
  pub required : PredicateSet
  pub attester_keys : List (String × List ℕ)
  pub expected_audience : String
  pub expected_tenant : String
  pub expected_environment : String
  pub clock_skew_seconds : ℕ
  pub max_approval_lifetime_seconds : Option ℕ
