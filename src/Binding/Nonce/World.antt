-- ===== src/Binding/Nonce/World.antt =====
-- Any number of reservations on one store of nonces: approval-execution-binding/src/lib.rs. Between two
-- calls of one reservation, the others may make any calls; a read may miss a nonce, and an answer
-- may be lost.
pub mod Turns
pub mod Once
use mathlib.Core.Path.{subst}
use agent_governance_policie.Prelude.{
  ℕ, ◌≤◌, Bool, true, Option, none, some, Option-cases, List, [], ◌∷◌, All, String, string_discrete,
  ite, if_pos, if_neg, ltb→lt, ◌≡◌, ◌≢◌, ◌⊎◌, ◌∙◌, sym, ap, inl, inr, refl, ok, arith,
}
use agent_governance_policie.Binding.Nonce.{
  NonceCap, Stored, expiring, absent, undecodable, Inserted, inserted, taken, not_stored, Program,
  return, get, insert, delete, keys, clock, look, note, Reserved, reserve_nonce, nonce_sweep_due,
  add_i64,
}
use agent_governance_policie.Binding.Nonce.Single.{IsFound, IsSafe, IsStored, reserve_nonce-IsSafe}

-- The nonces that the store holds, each with the expiry that it was stored with.
abbrev pub Nonces : Type 0
Nonces = String → Option ℕ

unfoldable pub mark_at : String → Option ℕ → Nonces → Nonces
mark_at key stored s k = ite (string_discrete key k) stored (s k)

-- The store takes a nonce only if it does not hold it.
pub data Inserts (s : Nonces) (key : String) (expiry : ℕ) : Inserted → Nonces → Type 0 where
  stored :
      {answer : Inserted} {t : Nonces}
      → s key ≡ none
      → t ≡ mark_at key (some expiry) s
      → (answer ≡ inserted) ⊎ (answer ≡ not_stored)
      → Inserts s key expiry answer t
  held : {t : Nonces} → t ≡ s → Inserts s key expiry taken t
  failed : {t : Nonces} → t ≡ s → Inserts s key expiry not_stored t

-- What a read answers: the expiry that is stored, or that there is none, or that it cannot be read.
unfoldable pub Reads : Nonces → String → Stored → Type 0
Reads s key (expiring expiry) = s key ≡ some expiry
Reads s key _ = Unit

-- Calls of `reserve_nonce`, each with the nonce and the expiry that it is made with.
abbrev pub Calls : Type 0
Calls = List (String × ℕ)

unfoldable pub programs : Calls → List (Program Reserved)
programs [] = []
programs (c ∷ cs) = reserve_nonce c.0 c.1 ∷ programs cs

-- No call that reserves the nonce has been granted it, and at most one has.
abbrev pub NoneGranted : String → Calls → List (Program Reserved) → Type 0
NoneGranted once [] qs = Unit
NoneGranted once (c ∷ cs) [] = Unit
NoneGranted once (c ∷ cs) (q ∷ qs) = (c.0 ≡ once → q ≢ return (ok tt)) × NoneGranted once cs qs

abbrev pub OneGranted : String → Calls → List (Program Reserved) → Type 0
OneGranted once [] qs = Unit
OneGranted once (c ∷ cs) [] = Unit
OneGranted once (c ∷ cs) (q ∷ qs) =
    (c.0 ≡ once → q ≡ return (ok tt) → NoneGranted once cs qs) × OneGranted once cs qs

-- `latest` is a bound on the seconds that the clock shows.
module _ (latest : ℕ) where
  unfoldable pub Turn : Nonces → Program Reserved → Nonces → Program Reserved → Type 0
  unfolding Reads
  Turn s (return a) t q = ⊥
  Turn s (get key next) t q = (found : Stored) × Reads s key found × (t ≡ s) × (q ≡ next found)
  Turn s (insert key expiry next) t q =
      (answer : Inserted) × Inserts s key expiry answer t × (q ≡ next answer)
  Turn s (delete key next) t q =
      (deleted : Bool) × ((t ≡ mark_at key none s) ⊎ (t ≡ s)) × (q ≡ next deleted)
  Turn s (keys next) t q = (listed : Option (List String)) × (t ≡ s) × (q ≡ next listed)
  Turn s (clock next) t q = (now : ℕ) × (now ≤ latest) × (t ≡ s) × (q ≡ next now)
  Turn s (look next) t q = (cap : NonceCap) × (t ≡ s) × (q ≡ next cap)
  Turn s (note cap rest) t q = (t ≡ s) × (q ≡ rest)

  pub data Moved
      : Nonces → List (Program Reserved) → Nonces → List (Program Reserved) → Type 0 where
    here :
        {s t : Nonces} {p q : Program Reserved} {ps : List (Program Reserved)}
        → Turn s p t q
        → Moved s (p ∷ ps) t (q ∷ ps)
    there :
        {s t : Nonces} {p : Program Reserved} {ps qs : List (Program Reserved)}
        → Moved s ps t qs
        → Moved s (p ∷ ps) t (p ∷ qs)

  pub data Reached (s : Nonces) (ps : List (Program Reserved))
      : Nonces → List (Program Reserved) → Type 0 where
    begun : Reached s ps s ps
    moved :
        {t u : Nonces} {qs rs : List (Program Reserved)}
        → Reached s ps t qs
        → Moved t qs u rs
        → Reached s ps u rs

  -- The clock does not pass the second after the expiry.
  abbrev pub IsLive : ℕ → Type 0
  IsLive expiry = latest ≤ add_i64 expiry 1

  module _ (once : String) where
    -- The nonce is stored with a live expiry, if at all.
    abbrev pub AllLive : Nonces → Type 0
    AllLive s = (expiry : ℕ) → s once ≡ some expiry → IsLive expiry

    -- A call that reserves the nonce does it with a live expiry.
    abbrev pub IsMine : String × ℕ → Type 0
    IsMine c = c.0 ≡ once → IsLive c.1
