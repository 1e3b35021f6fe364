-- ===== src/Node/Logic.antt =====
-- A logic for the programs of aggregate-risk-gate/src/node_ledger.rs that quantifies over everything
-- the shared store may answer. A version names what was written under it; that is all that is
-- known of the store.
pub mod Cases
use agent_governance_policie.Prelude.{
  ℕ, Bool, true, false, if◌then◌else◌, Option, none, some, List, String, ◌≡◌, refl, Result, ok, err,
}
use agent_governance_policie.Node.Store.{
  StoreError, Put, Cell, Answer, Found, Program, return, get, put, delete, keys, now, then_run,
}
use agent_governance_policie.Node.Worker.{
  Worker, Step, pure, ◌>>=◌, when◌then◌else◌, store_get, store_put, store_delete, store_keys,
  store_now, ask, change,
}

-- `content key version` is what was written at the key under the version; `Done key cell` says that the
-- program has written the cell, `IsValid` that a cell may lie under a key; `MayPut` and `MayDelete`
-- are what a program is allowed to do.
pub record Protocol : Type 1 where
  pub content : String → String → Cell
  pub Done : String → Cell → Type 0
  pub IsValid : String → Cell → Type 0
  pub MayPut : String → Put → Cell → Type 0
  pub MayDelete : String → Type 0

-- A value that is read under a version is the one that was written under it.
unfoldable pub IsFaithful : Protocol → String → Answer (Found Cell) → Type 0
IsFaithful protocol key (ok (some (cell, version))) =
    (cell ≡ protocol.content key version) × protocol.IsValid key cell
IsFaithful protocol key _ = Unit

-- Whatever the store answers, each call of the program is allowed, and its result meets `Q`.
unfoldable pub IsSafe : {A : Type 0} → Protocol → Program A → (A → Type 0) → Type 0
unfolding IsFaithful
IsSafe protocol (return a) Q = Q a
IsSafe protocol (get key next) Q =
    (answer : Answer (Found Cell))
    → IsFaithful protocol key answer
    → IsSafe protocol (next answer) Q
IsSafe protocol (put key mode cell next) Q =
    protocol.MayPut key mode cell
    × ((answer : Answer (Unit {0}))
        → (answer ≡ ok tt → protocol.Done key cell)
        → IsSafe protocol (next answer) Q)
IsSafe protocol (delete key next) Q =
    protocol.MayDelete key × ((answer : Answer (Unit {0})) → IsSafe protocol (next answer) Q)
IsSafe protocol (keys next) Q = (answer : Answer (List String)) → IsSafe protocol (next answer) Q
IsSafe protocol (now next) Q = (time : ℕ) → IsSafe protocol (next time) Q

-- The same for a step of a worker, whatever the worker's own state.
pub record Keeps {A : Type 0} (protocol : Protocol) (m : Step A) (Q : A → Type 0) : Type 0 where
  pub at : (w : Worker) → IsSafe protocol (m w) (λ p. Q p.1)

pub then_run-IsSafe :
    {A B : Type 0} (protocol : Protocol) (p : Program A) (f : A → Program B) (P : A → Type 0)
    (Q : B → Type 0)
    → IsSafe protocol p P
    → ((a : A) → P a → IsSafe protocol (f a) Q)
    → IsSafe protocol (then_run p f) Q
unfolding IsSafe then_run
then_run-IsSafe protocol (return a) f P Q safe rest = rest a safe
then_run-IsSafe protocol (get key next) f P Q safe rest =
    λ answer faithful. then_run-IsSafe protocol (next answer) f P Q (safe answer faithful) rest
then_run-IsSafe protocol (put key mode cell next) f P Q safe rest =
    (safe.0, λ answer done. then_run-IsSafe protocol (next answer) f P Q (safe.1 answer done) rest)
then_run-IsSafe protocol (delete key next) f P Q safe rest =
    (safe.0, λ answer. then_run-IsSafe protocol (next answer) f P Q (safe.1 answer) rest)
then_run-IsSafe protocol (keys next) f P Q safe rest =
    λ answer. then_run-IsSafe protocol (next answer) f P Q (safe answer) rest
then_run-IsSafe protocol (now next) f P Q safe rest =
    λ time. then_run-IsSafe protocol (next time) f P Q (safe time) rest

pub weaken-IsSafe :
    {A : Type 0} (protocol : Protocol) (p : Program A) (P Q : A → Type 0)
    → IsSafe protocol p P
    → ((a : A) → P a → Q a)
    → IsSafe protocol p Q
unfolding IsSafe
weaken-IsSafe protocol (return a) P Q safe weaker = weaker a safe
weaken-IsSafe protocol (get key next) P Q safe weaker =
    λ answer faithful. weaken-IsSafe protocol (next answer) P Q (safe answer faithful) weaker
weaken-IsSafe protocol (put key mode cell next) P Q safe weaker =
    (safe.0, λ answer done. weaken-IsSafe protocol (next answer) P Q (safe.1 answer done) weaker)
weaken-IsSafe protocol (delete key next) P Q safe weaker =
    (safe.0, λ answer. weaken-IsSafe protocol (next answer) P Q (safe.1 answer) weaker)
weaken-IsSafe protocol (keys next) P Q safe weaker =
    λ answer. weaken-IsSafe protocol (next answer) P Q (safe answer) weaker
weaken-IsSafe protocol (now next) P Q safe weaker =
    λ time. weaken-IsSafe protocol (next time) P Q (safe time) weaker

-- A result of which nothing is said.
abbrev pub Any : {A : Type 0} → A → Type 0
Any a = Unit {0}

module _ {protocol : Protocol} where
  module _ {A B : Type 0} {P : A → Type 0} {Q : B → Type 0} where
    pub >>=-Keeps :
        {m : Step A} {f : A → Step B}
        → Keeps protocol m P
        → ((a : A) → P a → Keeps protocol (f a) Q)
        → Keeps protocol (m >>= f) Q
    unfolding ◌>>=◌
    >>=-Keeps {m = m} {f = f} first rest = record {
      at = λ w.
          then_run-IsSafe protocol (m w) (λ p. f p.1 p.0) (λ p. P p.1) (λ p. Q p.1) (first.at w)
            (λ p h. (rest p.1 h).at p.0);
    }

  module _ {A : Type 0} where
    pub pure-Keeps : {Q : A → Type 0} (a : A) → Q a → Keeps protocol (pure a) Q
    unfolding IsSafe pure
    pure-Keeps a h = record { at = λ w. h }

    pub weaken :
        {m : Step A} {P Q : A → Type 0}
        → Keeps protocol m P
        → ((a : A) → P a → Q a)
        → Keeps protocol m Q
    weaken {m = m} {P = P} {Q = Q} safe weaker = record {
      at =
          λ w. weaken-IsSafe protocol (m w) (λ p. P p.1) (λ p. Q p.1) (safe.at w) (λ p. weaker p.1);
    }

    pub weaken-Any : {m : Step A} {P : A → Type 0} → Keeps protocol m P → Keeps protocol m Any
    weaken-Any safe = weaken safe λ a h. tt

    pub ask-Keeps : (f : Worker → A) → Keeps protocol (ask f) Any
    unfolding IsSafe ask
    ask-Keeps f = record { at = λ w. tt }

    pub when-Keeps :
        {m n : Step A} {Q : A → Type 0} (b : Bool)
        → (b ≡ true → Keeps protocol m Q)
        → (b ≡ false → Keeps protocol n Q)
        → Keeps protocol (when b then m else n) Q
    unfolding when◌then◌else◌
    when-Keeps true yes_case no_case = record { at = λ w. (yes_case refl).at w }
    when-Keeps false yes_case no_case = record { at = λ w. (no_case refl).at w }

  pub change-Keeps : (f : Worker → Worker) → Keeps protocol (change f) Any
  unfolding IsSafe change
  change-Keeps f = record { at = λ w. tt }

  pub get-Keeps : (key : String) → Keeps protocol (store_get key) (IsFaithful protocol key)
  unfolding IsSafe store_get
  get-Keeps key = record { at = λ w answer faithful. faithful }

  pub keys-Keeps : Keeps protocol store_keys Any
  unfolding IsSafe store_keys
  keys-Keeps = record { at = λ w answer. tt }

  pub now-Keeps : Keeps protocol store_now Any
  unfolding IsSafe store_now
  now-Keeps = record { at = λ w time. tt }

  pub put-Keeps :
      (key : String) (mode : Put) (cell : Cell)
      → protocol.MayPut key mode cell
      → Keeps protocol (store_put key mode cell) (λ answer. answer ≡ ok tt → protocol.Done key cell)
  unfolding IsSafe store_put
  put-Keeps key mode cell may = record { at = λ w. (may, λ answer done. done) }

  pub delete-Keeps : (key : String) → protocol.MayDelete key → Keeps protocol (store_delete key) Any
  unfolding IsSafe store_delete
  delete-Keeps key may = record { at = λ w. (may, λ answer. tt) }
