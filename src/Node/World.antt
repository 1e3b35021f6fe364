-- ===== src/Node/World.antt =====
-- Any number of workers on one store: aggregate-risk-gate/src/node_ledger.rs. A version names what was
-- written under it, a write lands only if the key still is as its mode says, and an answer may be
-- lost. Between two calls of one worker, the others may make any calls.
pub mod Safe
pub mod Kept
use agent_governance_policie.Prelude.{
  ℕ, Bool, true, false, Option, none, some, List, [], ◌∷◌, String, string_discrete, ite, ◌≡◌, ◌⊎◌,
  refl, Result, ok, err,
}
use agent_governance_policie.Scope.Types.{Reservation}
use agent_governance_policie.Node.Store.{
  StoreError, Put, Cell, Answer, Found, Program, return, get, put, delete, keys, now,
}
use agent_governance_policie.Node.Worker.{NodeLedger, Worker, Step, pure, ◌>>=◌}
use agent_governance_policie.Node.Methods.{
  reserve, force_reserve, force_reserve_checked, commit, release,
}
use agent_governance_policie.Node.Evolve.{Evolves, IsDoomed, IsPlaced}

-- A call that the gate makes.
pub data Call : Type 0 where
  reserving : (scope : String) (contribution budget time : ℕ) → Call
  forcing : (scope : String) (contribution time : ℕ) → Call
  checking : (scope : String) (contribution budget time : ℕ) → Call
  committing : (reservation : Reservation) (time : ℕ) → Call
  releasing : (reservation : Reservation) (time : ℕ) → Call

unfoldable pub forget : {A : Type 0} → Step A → Step (Unit {0})
forget m = m >>= λ a. pure tt

unfoldable pub call : NodeLedger → Call → Step (Unit {0})
unfolding forget
call ledger (reserving scope contribution budget time) =
    forget (reserve ledger scope contribution budget time)
call ledger (forcing scope contribution time) =
    forget (force_reserve ledger scope contribution time)
call ledger (checking scope contribution budget time) =
    forget (force_reserve_checked ledger scope contribution budget time)
call ledger (committing reservation time) = forget (commit ledger reservation time)
call ledger (releasing reservation time) = forget (release ledger reservation time)

-- The calls of one worker.
unfoldable pub session : NodeLedger → List Call → Step (Unit {0})
session ledger [] = pure tt
session ledger (c ∷ cs) = call ledger c >>= λ a. session ledger cs

-- The version that each key has.
abbrev pub Versions : Type 0
Versions = String → Option String

abbrev pub Running : Type 0
Running = Program (Worker × Unit {0})

unfoldable pub write_at : String → Option String → Versions → Versions
write_at key version s k = ite (string_discrete key k) version (s k)

unfoldable pub Accepts : Versions → String → Put → Type 0
Accepts s key Put.absent = s key ≡ none
Accepts s key (Put.cas version) = s key ≡ some version

module _ (content : String → String → Cell) where
  pub data Reads (s : Versions) (key : String) : Answer (Found Cell) → Type 0 where
    present :
        {version : String}
        → s key ≡ some version
        → Reads s key (ok (some (content key version, version)))
    -- There is no value, or the host reports one that it cannot read as none.
    missing : Reads s key (ok none)
    unread : {e : StoreError} → Reads s key (err e)

  unfoldable pub held_under : String → Option String → Option Cell
  held_under key none = none
  held_under key (some version) = some (content key version)

  unfoldable pub held_at : Versions → String → Option Cell
  unfolding held_under
  held_at s key = held_under key (s key)

  -- Every value lies under a key of its own kind.
  abbrev pub AllPlaced : NodeLedger → Versions → Type 0
  AllPlaced ledger s =
      (key version : String) → s key ≡ some version → IsPlaced ledger key (content key version)

-- `Landed` says of a version that a write under it has landed.
module _ (content : String → String → Cell) (Landed : String → String → Type 0) where
  -- A write that lands may still be answered by a failure.
  pub data Writes (s : Versions) (key : String) (mode : Put) (cell : Cell)
      : Answer (Unit {0}) → Versions → Type 0 where
    landed :
        {answer : Answer (Unit {0})} {t : Versions} (version : String)
        → Accepts s key mode
        → content key version ≡ cell
        → Landed key version
        → t ≡ write_at key (some version) s
        → (answer ≡ ok tt) ⊎ (answer ≡ err StoreError.failed)
        → Writes s key mode cell answer t
    not_written : {e : StoreError} {t : Versions} → t ≡ s → Writes s key mode cell (err e) t

  pub data Deletes (s : Versions) (key : String) : Versions → Type 0 where
    deleted : {t : Versions} → t ≡ write_at key none s → Deletes s key t
    not_deleted : {t : Versions} → t ≡ s → Deletes s key t

  -- One call of a program on the store.
  unfoldable pub Turn : Versions → Running → Versions → Running → Type 0
  Turn s (return a) t q = ⊥
  Turn s (get key next) t q =
      (answer : Answer (Found Cell)) × Reads content s key answer × (t ≡ s) × (q ≡ next answer)
  Turn s (put key mode cell next) t q =
      (answer : Answer (Unit {0})) × Writes s key mode cell answer t × (q ≡ next answer)
  Turn s (delete key next) t q = (answer : Answer (Unit {0})) × Deletes s key t × (q ≡ next answer)
  Turn s (keys next) t q = (answer : Answer (List String)) × (t ≡ s) × (q ≡ next answer)
  Turn s (now next) t q = (time : ℕ) × (t ≡ s) × (q ≡ next time)

  -- One of the workers takes a turn.
  pub data Moved : Versions → List Running → Versions → List Running → Type 0 where
    here :
        {s t : Versions} {p q : Running} {ps : List Running}
        → Turn s p t q
        → Moved s (p ∷ ps) t (q ∷ ps)
    there :
        {s t : Versions} {p : Running} {ps qs : List Running}
        → Moved s ps t qs
        → Moved s (p ∷ ps) t (p ∷ qs)

  pub data Reached (s : Versions) (ps : List Running) : Versions → List Running → Type 0 where
    begun : Reached s ps s ps
    moved :
        {t u : Versions} {qs rs : List Running}
        → Reached s ps t qs
        → Moved t qs u rs
        → Reached s ps u rs

  -- A cell that was written at the key.
  unfoldable pub Written : String → Cell → Type 0
  Written key cell = (version : String) × Landed key version × (content key version ≡ cell)

  -- What a turn may do to a key: nothing, replace its value, or delete it.
  pub data Changed (ledger : NodeLedger) (key : String) (s t : Versions) : Type 0 where
    kept : t key ≡ s key → Changed ledger key s t
    evolved :
        (cell : Cell)
        → held_at content t key ≡ some cell
        → Evolves ledger (Written key) (held_at content s key) cell
        → Changed ledger key s t
    removed : t key ≡ none → IsDoomed (Written key) → Changed ledger key s t
