-- ===== src/Binding/Nonce.antt =====
-- P6: the reservation of an approval's nonce, `reserve_nonce` of
-- approval-execution-binding/src/lib.rs. A second of an `i64` is the number of seconds since `i64::MIN`. The
-- store is the host's: the code is the tree of its calls, with a branch for every answer.
pub mod Key
pub mod Single
pub mod World
use agent_governance_policie.Prelude.{
  ℕ, suc, ◌+◌, ◌-◌, ◌/◌, ◌^◌, Bool, true, false, Option, none, some, List, [], ◌∷◌, String, ltb,
  leb, if◌then◌else◌, Result, ok, err,
}
use agent_governance_policie.Binding.Predicates.{Predicate, PredicateSet, contains}
use agent_governance_policie.Binding.Record.{Binding}

pub data ReserveRefusal : Type 0 where
  replay at_capacity unavailable : ReserveRefusal

abbrev pub max_reserved_nonces : ℕ
max_reserved_nonces = 10000

abbrev pub sweep_low_water : ℕ
sweep_low_water = max_reserved_nonces / 10

abbrev pub rescan_backoff_seconds : ℕ
rescan_backoff_seconds = 60

abbrev pub i64_top : ℕ
i64_top = 2 ^ 64 - 1

abbrev pub nonce_never_expires : ℕ
nonce_never_expires = i64_top

-- `i64::saturating_add` of a number that is not negative.
unfoldable pub add_i64 : ℕ → ℕ → ℕ
add_i64 a b = if leb (a + b) i64_top then a + b else i64_top

unfoldable pub least : ℕ → ℕ → ℕ
least a b = if leb a b then a else b

unfoldable pub most : ℕ → ℕ → ℕ
most a b = if leb a b then b else a

unfoldable pub nonce_sweep_due : ℕ → ℕ → Bool
unfolding add_i64
nonce_sweep_due now expiry = ltb (add_i64 expiry 1) now

-- `deadline` parses an RFC 3339 text to its whole seconds.
unfoldable pub nonce_expiry : (String → Option ℕ) → Binding → Option String → ℕ
nonce_expiry deadline binding not_after =
    if contains binding.required Predicate.p4
    then (elim not_after [
      | none ↦ nonce_never_expires
      | some raw ↦ elim (deadline raw) [
        | none ↦ nonce_never_expires
        | some seconds ↦
            if leb (seconds + binding.clock_skew_seconds) i64_top
            then seconds + binding.clock_skew_seconds
            else nonce_never_expires
      ]
    ])
    else nonce_never_expires

pub record NonceCap : Type 0 where
  pub since_sweep : ℕ
  pub full_until : ℕ

unfoldable pub new_cap : NonceCap
new_cap = record { since_sweep = 0; full_until = 0 }

-- What `get::<i64>` answers: an expiry, nothing, or a value that does not decode.
pub data Stored : Type 0 where
  expiring : ℕ → Stored
  absent undecodable : Stored

-- What `store(.., Absent, ..)` answers.
pub data Inserted : Type 0 where
  inserted taken not_stored : Inserted

pub data Program (A : Type 0) : Type 0 where
  return : A → Program A
  get : String → (Stored → Program A) → Program A
  insert : String → ℕ → (Inserted → Program A) → Program A
  delete : String → (Bool → Program A) → Program A
  keys : (Option (List String) → Program A) → Program A
  clock : (ℕ → Program A) → Program A
  -- The worker's own cell, which its other calls may change between two calls of the store.
  look : (NonceCap → Program A) → Program A
  note : NonceCap → Program A → Program A

-- What a sweep has kept so far, or nothing if a delete failed.
abbrev pub Kept : Type 0
Kept = Option (ℕ × ℕ)

unfoldable pub after_delete : {A : Type 0} → Program A → (Kept → Program A) → Bool → Program A
after_delete again next true = again
after_delete again next false = next none

-- A key of a sweep, by what `get` answers; `again` is the rest, from what is kept then.
unfoldable pub sweep_found :
    {A : Type 0}
    → ℕ
    → String
    → ℕ
    → ℕ
    → (ℕ → ℕ → Program A)
    → (Kept → Program A)
    → Stored
    → Program A
unfolding after_delete
sweep_found now key remaining earliest again next absent = again remaining earliest
sweep_found now key remaining earliest again next undecodable =
    again (remaining + 1) (least earliest (add_i64 now rescan_backoff_seconds))
sweep_found now key remaining earliest again next (expiring expiry) =
    if nonce_sweep_due now expiry
    then delete key (after_delete (again remaining earliest) next)
    else again (remaining + 1) (least earliest (most expiry now))

unfoldable pub sweep : {A : Type 0} → ℕ → List String → ℕ → ℕ → (Kept → Program A) → Program A
unfolding sweep_found
sweep now [] remaining earliest next = next (some (remaining, earliest))
sweep now (key ∷ rest) remaining earliest next = get key (
    sweep_found now key remaining earliest
      (λ kept least_expiry. sweep now rest kept least_expiry next) next)

abbrev pub Reserved : Type 0
Reserved = Result (Unit {0}) ReserveRefusal

unfoldable pub insert_answer : ℕ → Inserted → Program Reserved
insert_answer expiry inserted = look λ cap.
    note (record { since_sweep = cap.since_sweep + 1; full_until = least cap.full_until expiry })
      (return (ok tt))
insert_answer expiry taken = return (err ReserveRefusal.replay)
insert_answer expiry not_stored = return (err ReserveRefusal.unavailable)

unfoldable pub insert_nonce : String → ℕ → Program Reserved
unfolding insert_answer
insert_nonce nonce expiry = insert nonce expiry (insert_answer expiry)

-- After the sweep, by what it has kept.
unfoldable pub swept : String → ℕ → Kept → Program Reserved
unfolding insert_nonce
swept nonce expiry none = return (err ReserveRefusal.unavailable)
swept nonce expiry (some (remaining, earliest)) =
    if leb max_reserved_nonces remaining
    then note (record { since_sweep = remaining; full_until = earliest })
        (return (err ReserveRefusal.at_capacity))
    else note
        (record {
          since_sweep = remaining;
          full_until =
              if ltb (max_reserved_nonces - remaining) sweep_low_water then earliest else 0;
        })
        (insert_nonce nonce expiry)

unfoldable pub listed_keys : String → ℕ → ℕ → Option (List String) → Program Reserved
unfolding sweep swept
listed_keys nonce expiry now none = return (err ReserveRefusal.unavailable)
listed_keys nonce expiry now (some ks) = sweep now ks 0 nonce_never_expires (swept nonce expiry)

-- The worker has made as many reservations as the store may hold.
unfoldable pub at_cap : String → ℕ → NonceCap → ℕ → Program Reserved
unfolding listed_keys
at_cap nonce expiry cap now =
    if leb now cap.full_until
    then return (err ReserveRefusal.at_capacity)
    else keys (listed_keys nonce expiry now)

unfoldable pub reserve_found : String → ℕ → Stored → Program Reserved
unfolding at_cap insert_nonce
reserve_found nonce expiry (expiring _) = return (err ReserveRefusal.replay)
reserve_found nonce expiry undecodable = return (err ReserveRefusal.unavailable)
reserve_found nonce expiry absent = look λ cap.
    if leb max_reserved_nonces cap.since_sweep
    then clock (at_cap nonce expiry cap)
    else insert_nonce nonce expiry

unfoldable pub reserve_nonce : String → ℕ → Program Reserved
unfolding reserve_found
reserve_nonce nonce expiry = get nonce (reserve_found nonce expiry)
