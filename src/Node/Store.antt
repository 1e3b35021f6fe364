-- ===== src/Node/Store.antt =====
-- The shared store as a worker sees it, and the values that it keeps there:
-- aggregate-risk-gate/src/node_ledger.rs. The store is the host's: a worker's code is the tree of the
-- calls that it makes, with a branch for each answer that the host may give.
use agent_governance_policie.Prelude.{ℕ, Option, none, some, List, String, Result, ok, err}
use agent_governance_policie.Scope.{ScopeState}

pub data StoreError : Type 0 where
  cas_mismatch failed : StoreError

-- The only modes of a write: create the key, or replace the version read.
pub data Put : Type 0 where
  absent : Put
  cas : String → Put

-- A scope key's value.
pub data Record : Type 0 where
  scope : ScopeState → Record
  vacant : (since period : ℕ) → Record
  doomed : (at period : ℕ) → Record

pub record Sweep : Type 0 where
  pub not_before : ℕ
  pub next_gc : ℕ
  pub cursor : Option String
  pub next_foreign_log : ℕ

pub data Mark : Type 0 where
  commit expired dropped provisional collecting : Mark

pub record Marker : Type 0 where
  pub mark : Mark
  pub key : String
  pub id : ℕ
  pub expires_at : ℕ

-- A stored value by the type that it decodes to; bytes that decode to none of them are unreadable.
pub data Cell : Type 0 where
  record_cell : Record → Cell
  marker_cell : Marker → Cell
  sweep_cell : Sweep → Cell
  count_cell : ℕ → Cell
  unreadable : Cell

abbrev pub Answer : Type 0 → Type 0
Answer A = Result A StoreError

-- A value that was read, and its version.
abbrev pub Found : Type 0 → Type 0
Found A = Option (A × String)

pub data Program (A : Type 0) : Type 0 where
  return : A → Program A
  get : String → (Answer (Found Cell) → Program A) → Program A
  put : String → Put → Cell → (Answer (Unit {0}) → Program A) → Program A
  delete : String → (Answer (Unit {0}) → Program A) → Program A
  keys : (Answer (List String) → Program A) → Program A
  now : (ℕ → Program A) → Program A

unfoldable pub then_run : {A B : Type 0} → Program A → (A → Program B) → Program B
then_run (return a) f = f a
then_run (get key next) f = get key (λ answer. then_run (next answer) f)
then_run (put key mode cell next) f = put key mode cell (λ answer. then_run (next answer) f)
then_run (delete key next) f = delete key (λ answer. then_run (next answer) f)
then_run (keys next) f = keys (λ answer. then_run (next answer) f)
then_run (now next) f = now (λ time. then_run (next time) f)

-- `decode`, at each type.
unfoldable pub as_record : Cell → Answer Record
as_record (record_cell r) = ok r
as_record _ = err StoreError.failed

unfoldable pub as_marker : Cell → Answer Marker
as_marker (marker_cell m) = ok m
as_marker _ = err StoreError.failed

unfoldable pub as_sweep : Cell → Answer Sweep
as_sweep (sweep_cell s) = ok s
as_sweep _ = err StoreError.failed

unfoldable pub as_count : Cell → Answer ℕ
as_count (count_cell n) = ok n
as_count _ = err StoreError.failed

-- What a value decodes to, with its version.
unfoldable pub found_as : {A : Type 0} → String → Answer A → Answer (Found A)
found_as version (ok a) = ok (some (a, version))
found_as version (err e) = err e

-- `None` stays, and a value is decoded.
unfoldable pub decoded : {A : Type 0} → (Cell → Answer A) → Answer (Found Cell) → Answer (Found A)
unfolding found_as
decoded f (err e) = err e
decoded f (ok none) = ok none
decoded f (ok (some (cell, version))) = found_as version (f cell)

-- `cas.map_or(Put::Absent, Put::Cas)`.
unfoldable pub mode_of : Option String → Put
mode_of none = Put.absent
mode_of (some version) = Put.cas version
