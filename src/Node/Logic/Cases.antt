-- ===== src/Node/Logic/Cases.antt =====
-- Rules for what a program does with an answer, case by case, and for the reads that decode.
use agent_governance_policie.Prelude.{
  ℕ, Bool, true, false, Option, none, some, String, ◌≡◌, refl, Result, ok, err,
}
use agent_governance_policie.Scope.{ScopeState}
use agent_governance_policie.Node.Store.{
  StoreError, Record, Marker, Sweep, Cell, Answer, Found, record_cell, marker_cell, sweep_cell,
  count_cell, unreadable, as_record, as_marker, as_sweep, as_count, found_as, decoded,
}
use agent_governance_policie.Node.Worker.{Step, ◌>>=◌, get_as}
use agent_governance_policie.Node.Marker.{Read, new, live, is_doomed}
use agent_governance_policie.Node.Logic.{Protocol, Keeps, IsFaithful, IsSafe, >>=-Keeps}

module _ {protocol : Protocol} {A B : Type 0} {Q : B → Type 0} where
  pub then_answer :
      {E : Type 0} {m : Step (Result A E)} {P : Result A E → Type 0} (f : Result A E → Step B)
      → Keeps protocol m P
      → ((a : A) → P (ok a) → Keeps protocol (f (ok a)) Q)
      → ((e : E) → P (err e) → Keeps protocol (f (err e)) Q)
      → Keeps protocol (m >>= f) Q
  then_answer {P = P} f first ok_case on_err =
      >>=-Keeps first
        λ r. elim r as (λ r. P r → Keeps protocol (f r) Q) [ ok a ↦ ok_case a | err e ↦ on_err e ]

  pub then_found :
      {E : Type 0} {m : Step (Result (Option A) E)} {P : Result (Option A) E → Type 0}
      (f : Result (Option A) E → Step B)
      → Keeps protocol m P
      → ((a : A) → P (ok (some a)) → Keeps protocol (f (ok (some a))) Q)
      → (P (ok none) → Keeps protocol (f (ok none)) Q)
      → ((e : E) → P (err e) → Keeps protocol (f (err e)) Q)
      → Keeps protocol (m >>= f) Q
  then_found {P = P} f first on_some on_none on_err = >>=-Keeps first λ r.
      elim r as (λ r. P r → Keeps protocol (f r) Q) [
        | ok (some a) ↦ on_some a
        | ok none ↦ on_none
        | err e ↦ on_err e
      ]

  pub then_versioned :
      {E : Type 0} {m : Step (Result (A × Option String) E)}
      {P : Result (A × Option String) E → Type 0} (f : Result (A × Option String) E → Step B)
      → Keeps protocol m P
      → ((a : A) (version : String)
          → P (ok (a, some version))
          → Keeps protocol (f (ok (a, some version))) Q)
      → ((a : A) → P (ok (a, none)) → Keeps protocol (f (ok (a, none))) Q)
      → ((e : E) → P (err e) → Keeps protocol (f (err e)) Q)
      → Keeps protocol (m >>= f) Q
  then_versioned {P = P} f first some_case none_case err_case = >>=-Keeps first λ r.
      elim r as (λ r. P r → Keeps protocol (f r) Q) [
        | ok (a, some version) ↦ some_case a version
        | ok (a, none) ↦ none_case a
        | err e ↦ err_case e
      ]

  pub then_write :
      {m : Step (Answer A)} {P : Answer A → Type 0} (f : Answer A → Step B)
      → Keeps protocol m P
      → ((a : A) → P (ok a) → Keeps protocol (f (ok a)) Q)
      → (P (err StoreError.cas_mismatch) → Keeps protocol (f (err StoreError.cas_mismatch)) Q)
      → (P (err StoreError.failed) → Keeps protocol (f (err StoreError.failed)) Q)
      → Keeps protocol (m >>= f) Q
  then_write {P = P} f first ok_case on_mismatch on_failed = >>=-Keeps first λ r.
      elim r as (λ r. P r → Keeps protocol (f r) Q) [
        | ok a ↦ ok_case a
        | err StoreError.cas_mismatch ↦ on_mismatch
        | err StoreError.failed ↦ on_failed
      ]

module _ {protocol : Protocol} {B : Type 0} {Q : B → Type 0} where
  pub then_asked :
      {E : Type 0} {m : Step (Result Bool E)} {P : Result Bool E → Type 0}
      (f : Result Bool E → Step B)
      → Keeps protocol m P
      → (P (ok true) → Keeps protocol (f (ok true)) Q)
      → (P (ok false) → Keeps protocol (f (ok false)) Q)
      → ((e : E) → P (err e) → Keeps protocol (f (err e)) Q)
      → Keeps protocol (m >>= f) Q
  then_asked {P = P} f first true_case false_case err_case = >>=-Keeps first λ r.
      elim r as (λ r. P r → Keeps protocol (f r) Q) [
        | ok true ↦ true_case
        | ok false ↦ false_case
        | err e ↦ err_case e
      ]

  pub then_some :
      {A : Type 0} {m : Step (Option A)} {P : Option A → Type 0} (f : Option A → Step B)
      → Keeps protocol m P
      → ((a : A) → P (some a) → Keeps protocol (f (some a)) Q)
      → (P none → Keeps protocol (f none) Q)
      → Keeps protocol (m >>= f) Q
  then_some {P = P} f first some_case none_case =
      >>=-Keeps first λ r. elim r as (λ r. P r → Keeps protocol (f r) Q) [
        | some a ↦ some_case a
        | none ↦ none_case
      ]

  pub then_record :
      {E : Type 0} {m : Step (Result (Option (Record × String)) E)}
      {P : Result (Option (Record × String)) E → Type 0}
      (f : Result (Option (Record × String)) E → Step B)
      → Keeps protocol m P
      → ((state : ScopeState) (version : String)
          → P (ok (some (Record.scope state, version)))
          → Keeps protocol (f (ok (some (Record.scope state, version)))) Q)
      → ((since period : ℕ) (version : String)
          → P (ok (some (Record.vacant since period, version)))
          → Keeps protocol (f (ok (some (Record.vacant since period, version)))) Q)
      → ((at period : ℕ) (version : String)
          → P (ok (some (Record.doomed at period, version)))
          → Keeps protocol (f (ok (some (Record.doomed at period, version)))) Q)
      → (P (ok none) → Keeps protocol (f (ok none)) Q)
      → ((e : E) → P (err e) → Keeps protocol (f (err e)) Q)
      → Keeps protocol (m >>= f) Q
  then_record {P = P} f first scope_case vacant_case doomed_case none_case err_case =
      >>=-Keeps first λ r. elim r as (λ r. P r → Keeps protocol (f r) Q) [
        | ok (some (Record.scope state, version)) ↦ scope_case state version
        | ok (some (Record.vacant since period, version)) ↦ vacant_case since period version
        | ok (some (Record.doomed at period, version)) ↦ doomed_case at period version
        | ok none ↦ none_case
        | err e ↦ err_case e
      ]

  pub then_read :
      {E : Type 0} {m : Step (Result Read E)} {P : Result Read E → Type 0}
      (f : Result Read E → Step B)
      → Keeps protocol m P
      → ((state : ScopeState) (version : String)
          → P (ok (live state version))
          → Keeps protocol (f (ok (live state version))) Q)
      → ((version : Option String) (period : ℕ)
          → P (ok (new version period))
          → Keeps protocol (f (ok (new version period))) Q)
      → (P (ok is_doomed) → Keeps protocol (f (ok is_doomed)) Q)
      → ((e : E) → P (err e) → Keeps protocol (f (err e)) Q)
      → Keeps protocol (m >>= f) Q
  then_read {P = P} f first live_case new_case doomed_case err_case = >>=-Keeps first λ r.
      elim r as (λ r. P r → Keeps protocol (f r) Q) [
        | ok (live state version) ↦ live_case state version
        | ok (new version period) ↦ new_case version period
        | ok is_doomed ↦ doomed_case
        | err e ↦ err_case e
      ]

-- What a read that decodes has found.
unfoldable pub WasFound : {A : Type 0} → Protocol → (A → Cell) → String → Answer (Found A) → Type 0
WasFound protocol as_cell key (ok (some (a, version))) =
    (as_cell a ≡ protocol.content key version) × protocol.IsValid key (as_cell a)
WasFound protocol as_cell key _ = Unit

as_record-back : (cell : Cell) (a : Record) → as_record cell ≡ ok a → cell ≡ record_cell a
unfolding as_record
as_record-back (record_cell x) a e = cc
as_record-back (marker_cell x) a e = cc
as_record-back (sweep_cell x) a e = cc
as_record-back (count_cell x) a e = cc
as_record-back unreadable a e = cc

as_marker-back : (cell : Cell) (a : Marker) → as_marker cell ≡ ok a → cell ≡ marker_cell a
unfolding as_marker
as_marker-back (record_cell x) a e = cc
as_marker-back (marker_cell x) a e = cc
as_marker-back (sweep_cell x) a e = cc
as_marker-back (count_cell x) a e = cc
as_marker-back unreadable a e = cc

as_sweep-back : (cell : Cell) (a : Sweep) → as_sweep cell ≡ ok a → cell ≡ sweep_cell a
unfolding as_sweep
as_sweep-back (record_cell x) a e = cc
as_sweep-back (marker_cell x) a e = cc
as_sweep-back (sweep_cell x) a e = cc
as_sweep-back (count_cell x) a e = cc
as_sweep-back unreadable a e = cc

as_count-back : (cell : Cell) (a : ℕ) → as_count cell ≡ ok a → cell ≡ count_cell a
unfolding as_count
as_count-back (record_cell x) a e = cc
as_count-back (marker_cell x) a e = cc
as_count-back (sweep_cell x) a e = cc
as_count-back (count_cell x) a e = cc
as_count-back unreadable a e = cc

module _ (protocol : Protocol) (key : String) where
  found_at :
      {A : Type 0} (f : Cell → Answer A) (as_cell : A → Cell)
      → ((cell : Cell) (a : A) → f cell ≡ ok a → cell ≡ as_cell a)
      → (cell : Cell) (version : String) (r : Answer A) → f cell ≡ r
      → IsFaithful protocol key (ok (some (cell, version)))
      → WasFound protocol as_cell key (found_as version r)
  unfolding WasFound IsFaithful found_as
  found_at f as_cell back cell version (ok a) e faithful = rw (back cell a e) at faithful
  found_at f as_cell back cell version (err e) same faithful = tt

  decoded_found :
      {A : Type 0} (f : Cell → Answer A) (as_cell : A → Cell)
      → ((cell : Cell) (a : A) → f cell ≡ ok a → cell ≡ as_cell a)
      → (answer : Answer (Found Cell)) → IsFaithful protocol key answer
      → WasFound protocol as_cell key (decoded f answer)
  unfolding decoded WasFound found_as
  decoded_found f as_cell back (err e) faithful = tt
  decoded_found f as_cell back (ok none) faithful = tt
  decoded_found f as_cell back (ok (some (cell, version))) faithful =
      found_at f as_cell back cell version (f cell) refl faithful

module _ {protocol : Protocol} (key : String) where
  get_as-Keeps :
      {A : Type 0} (f : Cell → Answer A) (as_cell : A → Cell)
      → ((cell : Cell) (a : A) → f cell ≡ ok a → cell ≡ as_cell a)
      → Keeps protocol (get_as f key) (WasFound protocol as_cell key)
  unfolding IsSafe get_as
  get_as-Keeps f as_cell back = record {
    at = λ w answer faithful. decoded_found protocol key f as_cell back answer faithful;
  }

  pub get_record-Keeps : Keeps protocol (get_as as_record key) (WasFound protocol record_cell key)
  get_record-Keeps = get_as-Keeps as_record record_cell as_record-back

  pub get_marker-Keeps : Keeps protocol (get_as as_marker key) (WasFound protocol marker_cell key)
  get_marker-Keeps = get_as-Keeps as_marker marker_cell as_marker-back

  pub get_sweep-Keeps : Keeps protocol (get_as as_sweep key) (WasFound protocol sweep_cell key)
  get_sweep-Keeps = get_as-Keeps as_sweep sweep_cell as_sweep-back

  pub get_count-Keeps : Keeps protocol (get_as as_count key) (WasFound protocol count_cell key)
  get_count-Keeps = get_as-Keeps as_count count_cell as_count-back
