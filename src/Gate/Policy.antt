-- ===== src/Gate/Policy.antt =====
-- The compiled settings of aggregate-risk-gate/src/lib.rs (`Gate`), and the checks that make them.
use agent_governance_policie.Prelude.{
  ℕ, Option, none, some, Bool, true, false, ◌&&◌, List, [], ◌∷◌, String, string_discrete, ite,
  if◌then◌else◌, leb, Result, ok, err, ◌>>=◌,
}
use agent_governance_policie.Scope.Types.{Timeout}

abbrev pub max_units : ℕ
max_units = 9007199254740991

pub data Mode : Type 0 where
  block monitor : Mode

pub data OnDeny : Type 0 where
  rpc_error empty_forbidden : OnDeny

pub data Contribution : Type 0 where
  estimated_token_weight spend_amount fixed_weight : Contribution

pub data Disclosure : Type 0 where
  digest : List ℕ → Disclosure
  hidden raw : Disclosure

-- `spend_amount_field` is the path's segments, between its dots; `shared` is whether the identity
-- source is `Shared`, which is all that the decision asks of it.
pub record Gate : Type 0 where
  pub budget_scope : String
  pub shared : Bool
  pub disclosure : Disclosure
  pub aggregate_budget : ℕ
  pub contribution : Contribution
  pub unit : String
  pub fixed_weight : ℕ
  pub governed_methods : List String
  pub spend_amount_field : List String
  pub estimated_tokens : ℕ
  pub mode : Mode
  pub on_deny : OnDeny

-- An `i64` of the configuration.
pub data ℤ : Type 0 where
  pos : ℕ → ℤ
  negsuc : ℕ → ℤ

-- `u64::try_from(value).ok().filter(..)`, for a range of amounts.
unfoldable pub in_range : ℕ → ℕ → ℤ → Option ℕ
in_range low high (pos n) = if leb low n && leb n high then some n else none
in_range low high (negsuc n) = none

unfoldable pub config_units : ℤ → Option ℕ
unfolding in_range
config_units value = in_range 0 max_units value

pub data Backend : Type 0 where
  worker node : Backend

pub data MethodsError : Type 0 where
  no_method blank_or_padded wildcard repeated : MethodsError

unfoldable pub mem_text : String → List String → Bool
mem_text t [] = false
mem_text t (s ∷ ss) = ite (string_discrete s t) true (mem_text t ss)

-- The checks on `governedMethods`; `trim` is the standard library's, and `seen` the methods before.
module _ (trim : String → String) where
  unfoldable pub check_methods : List String → List String → Result (Unit {0}) MethodsError
  unfolding mem_text
  check_methods seen [] = ok tt
  check_methods seen (m ∷ ms) =
      ite (string_discrete (trim m) "") (err MethodsError.blank_or_padded) (
        ite (string_discrete (trim m) m)
          (ite (string_discrete m "*") (err MethodsError.wildcard)
            (if mem_text m seen then err MethodsError.repeated else check_methods (m ∷ seen) ms))
          (err MethodsError.blank_or_padded))

  unfoldable pub governed_methods : List String → Result (List String) MethodsError
  unfolding check_methods
  governed_methods [] = err MethodsError.no_method
  governed_methods (m ∷ ms) = do _ ← check_methods [] (m ∷ ms); ok (m ∷ ms)

-- `on_reservation_timeout`, which is `auto` where it is absent.
unfoldable pub reservation_timeout : Option String → Mode → Option Timeout
reservation_timeout none Mode.block = some Timeout.commit
reservation_timeout none Mode.monitor = some Timeout.release
reservation_timeout (some t) mode =
    ite (string_discrete t "auto")
      (elim mode [ Mode.block ↦ some Timeout.commit | Mode.monitor ↦ some Timeout.release ])
      (ite (string_discrete t "commit") (some Timeout.commit)
        (ite (string_discrete t "release") (some Timeout.release) none))

unfoldable pub window_of : String → ℤ → Option (Option ℕ)
unfolding in_range
window_of kind ms =
    ite (string_discrete kind "fixed-period")
      (elim (in_range 60000 31622400000 ms) [ none ↦ none | some w ↦ some (some w) ])
      (ite (string_discrete kind "worker-lifetime") (some none) none)
