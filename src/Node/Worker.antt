-- ===== src/Node/Worker.antt =====
-- One worker of the node ledger: its settings and its own state, which no other worker sees, and the
-- steps that its methods are made of: aggregate-risk-gate/src/node_ledger.rs (`NodeLedger`).
use Prim.Native.String.{◌++◌, slice}
use agent_governance_policie.Prelude.{
  ℕ, zero, suc, ◌+◌, ◌*◌, ◌/◌, ◌%◌, ◌^◌, Bool, true, false, Option, List, [], ◌∷◌, String,
  if◌then◌else◌, wrap_add, Result, ok, err,
}
use agent_governance_policie.Scope.Types.{Timeout, Reservation, Settlement}
use agent_governance_policie.Ledger.Stats.{LedgerStats, no_stats, count_reclaim, count_settlement}
use agent_governance_policie.Node.Store.{
  Put, Cell, Answer, Found, Program, return, get, put, delete, keys, now, then_run, decoded,
}

-- A commit queued on the worker.
pub record Pending : Type 0 where
  pub reservation : Reservation
  pub persisted : Bool
  pub missing_record_attempts : ℕ
  pub marker_cap_blocked : Bool

-- The settings. `hmac` is the hexadecimal text of the keyed hash of a scope, `prefix` the
-- configuration fingerprint that every key starts with.
pub record NodeLedger : Type 0 where
  pub hmac : String → String
  pub prefix : String
  pub max_scopes : ℕ
  pub ttl : ℕ
  pub timeout : Timeout
  pub window : Option ℕ
  pub id_prefix : ℕ

-- The cells that change.
pub record Worker : Type 0 where
  pub next_id : ℕ
  pub stats : LedgerStats
  pub pending : List Pending
  pub next_gc_check : ℕ
  pub marker_cap_refused : Bool

unfoldable pub new_worker : Worker
unfolding no_stats
new_worker = record {
  next_id = 1;
  stats = no_stats;
  pending = [];
  next_gc_check = 0;
  marker_cap_refused = false;
}

abbrev pub reserve_retries : ℕ
reserve_retries = 12

abbrev pub settle_retries : ℕ
settle_retries = 64

abbrev pub drain_retries : ℕ
drain_retries = 8

abbrev pub drain_per_call : ℕ
drain_per_call = 16

abbrev pub pending_limit : ℕ
pending_limit = 256

abbrev pub missing_record_limit : ℕ
missing_record_limit = 3

abbrev pub grace_ms : ℕ
grace_ms = 30000

abbrev pub recover_ms : ℕ
recover_ms = 600000

abbrev pub min_rescan_ms : ℕ
min_rescan_ms = 1000

abbrev pub max_rescan_ms : ℕ
max_rescan_ms = 30000

abbrev pub gc_interval_ms : ℕ
gc_interval_ms = 60000

abbrev pub marker_retries : ℕ
marker_retries = 4

abbrev pub sweep_budget : ℕ
sweep_budget = 256

-- A step of a worker: a program that also carries the worker's state.
abbrev pub Step : Type 0 → Type 0
Step A = Worker → Program (Worker × A)

unfoldable pub pure : {A : Type 0} → A → Step A
pure a w = return (w, a)

infixl 5 ◌>>=◌
unfoldable pub ◌>>=◌ : {A B : Type 0} → Step A → (A → Step B) → Step B
unfolding then_run
(m >>= f) w = then_run (m w) (λ p. f p.1 p.0)

unfoldable pub store_get : String → Step (Answer (Found Cell))
store_get key w = get key (λ answer. return (w, answer))

unfoldable pub store_put : String → Put → Cell → Step (Answer (Unit {0}))
store_put key mode cell w = put key mode cell (λ answer. return (w, answer))

unfoldable pub store_delete : String → Step (Answer (Unit {0}))
store_delete key w = delete key (λ answer. return (w, answer))

unfoldable pub store_keys : Step (Answer (List String))
store_keys w = keys (λ answer. return (w, answer))

unfoldable pub store_now : Step ℕ
store_now w = now (λ time. return (w, time))

-- A read whose value is decoded.
unfoldable pub get_as : {A : Type 0} → (Cell → Answer A) → String → Step (Answer (Found A))
unfolding decoded
get_as f key w = get key (λ answer. return (w, decoded f answer))

-- To read a part of the worker's state, and to change it.
unfoldable pub ask : {A : Type 0} → (Worker → A) → Step A
ask f w = return (w, f w)

unfoldable pub change : (Worker → Worker) → Step (Unit {0})
change f w = return (f w, tt)

-- A branch between steps.
infix 1 when◌then◌else◌
unfoldable pub when◌then◌else◌ : {A : Type 0} → Bool → Step A → Step A → Step A
(when true then m else n) w = m w
(when false then m else n) w = n w

-- A branch of a result that another step gave.
unfoldable pub on_ok :
    {A B E : Type 0} → Step (Result A E) → (A → Step (Result B E)) → Step (Result B E)
unfolding ◌>>=◌ pure
on_ok m f = m >>= λ r. elim r [ ok a ↦ f a | err e ↦ pure (err e) ]

unfoldable pub hex_digits : ℕ → ℕ → String
hex_digits zero n = ""
hex_digits (suc k) n = hex_digits k (n / 16) ++ slice "0123456789abcdef" (n % 16) (n % 16 + 1)

module _ (ledger : NodeLedger) where
  unfoldable pub scope_prefix : String
  scope_prefix = ledger.prefix ++ "s:"

  unfoldable pub marker_prefix : String
  marker_prefix = ledger.prefix ++ "c:"

  unfoldable pub key : String → String
  unfolding scope_prefix
  key scope = scope_prefix ++ ledger.hmac scope

  unfoldable pub count_key : String
  count_key = ledger.prefix ++ "n"

  unfoldable pub marker_count_key : String
  marker_count_key = ledger.prefix ++ "m"

  unfoldable pub sweep_key : String
  sweep_key = ledger.prefix ++ "sweep"

  -- The id in 32 hexadecimal digits.
  unfoldable pub marker_key : ℕ → String
  unfolding marker_prefix hex_digits
  marker_key id = marker_prefix ++ hex_digits 32 id

  -- The worker's prefix in the high half of the id, and its counter, which wraps, in the low one.
  unfoldable pub next_id : Step ℕ
  next_id w =
      return (record w { next_id = wrap_add w.next_id 1 }, ledger.id_prefix * 2 ^ 64 + w.next_id)

-- `count_reclaim`, and the commits that a touch charged.
unfoldable pub count_touch : (ℕ × ℕ × ℕ) → ℕ → Step (Unit {0})
unfolding change count_reclaim
count_touch reclaimed charged = change (λ w.
    let stats = count_reclaim w.stats reclaimed in
    record w { stats = record stats { late_committed = wrap_add stats.late_committed charged } })

unfoldable pub count_outcome : Settlement → Step (Unit {0})
unfolding change count_settlement
count_outcome outcome = change (λ w. record w { stats = count_settlement w.stats outcome })

-- The queued commits whose marker could not be written.
unfoldable pub unpersisted : List Pending → ℕ
unpersisted [] = 0
unpersisted (entry ∷ entries) =
    let rest = unpersisted entries in if entry.persisted then rest else suc rest
