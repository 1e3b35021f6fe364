-- ===== src/Tests/Nonce.antt =====
-- The theorems on the reservation of a nonce at concrete inputs: approval-execution-binding/src/lib.rs.
use Prim.Native.Char.{code}
use agent_governance_policie.Prelude.{
  ℕ, ◌≤◌, true, none, some, List, [], ◌∷◌, All, String, string_discrete, ◌≡◌, refl, inl, ok, err,
  arith,
}
use agent_governance_policie.Binding.Nonce.{
  ReserveRefusal, NonceCap, expiring, absent, inserted, Program, return, note, Reserved,
  reserve_nonce, reserve_found, insert_nonce, insert_answer, least, add_i64,
}
use agent_governance_policie.Binding.Record.{Binding, Envelope}
use agent_governance_policie.Binding.Nonce.Key.{
  nonce_storage_key, key_of_nonce, key_fields, nonce_storage_key_inj,
}
use agent_governance_policie.Binding.Nonce.Single.{IsSafe, IsStored, reserve_nonce-IsSafe}
use agent_governance_policie.Binding.Nonce.World.{
  Nonces, Reads, mark_at, Turn, stored, here, there, begun, moved, Calls, programs, NoneGranted,
  OneGranted, IsMine,
}
use agent_governance_policie.Binding.Nonce.World.Once.{nonce_single_use, held_nonce_refused}

abbrev full : Nonces
full nonce = some 100

abbrev unused : Nonces
unused nonce = none

abbrev refused : Program Reserved
refused = return (err ReserveRefusal.replay)

reserve_nonce-IsSafe_example :
    IsSafe
      (λ n. n ≤ 101)
      (λ k e. full k ≡ some e)
      (λ k. full k ≡ none)
      "n"
      100
      (reserve_nonce "n" 100)
      (IsStored (λ n. n ≤ 101) (λ k e. full k ≡ some e) (λ k. full k ≡ none) "n" 100)
reserve_nonce-IsSafe_example =
    reserve_nonce-IsSafe (λ n. n ≤ 101) (λ k e. full k ≡ some e) (λ k. full k ≡ none) "n" 100

-- The nonce is found, and the reservation refused.
replayed : Turn 101 full (reserve_nonce "n" 200) full refused
unfolding Turn Reads reserve_nonce reserve_found
replayed = (expiring 100, refl, refl, refl)

within : 101 ≤ add_i64 100 1
unfolding add_i64
within = omega arith

abbrev again : Calls
again = ("n", 200) ∷ []

later_within : 101 ≤ add_i64 200 1
unfolding add_i64
later_within = omega arith

again-IsMine : All (IsMine 101 "n") again
again-IsMine = ((λ same. later_within), tt)

held_nonce_refused_example : (full "n" ≡ some 100) × NoneGranted "n" again (refused ∷ [])
unfolding programs
held_nonce_refused_example =
    held_nonce_refused 101 "n" again full full (refused ∷ []) 100 refl within again-IsMine
      (moved begun (here replayed))

-- Of two reservations with different expiries the first is granted the nonce, and the second then finds
-- it.
abbrev twice : Calls
twice = ("n", 100) ∷ ("n", 200) ∷ []

abbrev no_cap : NonceCap
no_cap = record { since_sweep = 0; full_until = 0 }

abbrev granted : Program Reserved
granted = return (ok tt)

abbrev noted : Program Reserved
noted = note (record { since_sweep = 1; full_until = 0 }) granted

abbrev taken_once : Nonces
taken_once = mark_at "n" (some 100) unused

missed : Turn 101 unused (reserve_nonce "n" 100) unused (reserve_found "n" 100 absent)
unfolding Turn Reads reserve_nonce
missed = (absent, tt, refl, refl)

roomy : Turn 101 unused (reserve_found "n" 100 absent) unused (insert_nonce "n" 100)
unfolding Turn reserve_found
roomy = (no_cap, refl, refl)

stores : Turn 101 unused (insert_nonce "n" 100) taken_once (insert_answer 100 inserted)
unfolding Turn insert_nonce
stores = (inserted, stored refl refl (inl refl), refl)

looks : Turn 101 taken_once (insert_answer 100 inserted) taken_once noted
unfolding Turn insert_answer least
looks = (no_cap, refl, refl)

notes : Turn 101 taken_once noted taken_once granted
unfolding Turn
notes = (refl, refl)

finds : Turn 101 taken_once (reserve_nonce "n" 200) taken_once refused
unfolding Turn Reads reserve_nonce reserve_found mark_at string_discrete
finds = (expiring 100, refl, refl, refl)

nonce_single_use_example : OneGranted "n" twice (granted ∷ refused ∷ [])
unfolding programs
nonce_single_use_example =
    nonce_single_use 101 "n" twice unused taken_once (granted ∷ refused ∷ []) (λ e h. cc)
      ((λ same. within), ((λ same. later_within), tt))
      (moved
        (moved
          (moved (moved (moved (moved begun (here missed)) (here roomy)) (here stores))
            (here looks))
          (here notes))
        (there (here finds)))

abbrev codes : String → List ℕ
codes String.[] = []
codes (String.◌∷◌ c s) = code c ∷ codes s

abbrev required : Binding
required = record {
  required = record { at_p1 = true; at_p2 = true; at_p4 = true; at_p5 = true; at_p6 = true };
  attester_keys = [];
  expected_audience = "gw";
  expected_tenant = "t";
  expected_environment = "prod";
  clock_skew_seconds = 30;
  max_approval_lifetime_seconds = none;
}

abbrev approved : Envelope
approved = record {
  approval = record {
    scope = record { action = "pay"; arguments_digest = "d" };
    not_after = none;
    nonce = some "n";
  };
  attestations = [];
}

abbrev hashed : List ℕ → String
hashed bytes = "h"

-- The same call, approved twice.
nonce_storage_key_inj_example :
    (required.expected_audience ≡ required.expected_audience)
    × (required.expected_tenant ≡ required.expected_tenant)
    × (required.expected_environment ≡ required.expected_environment)
    × (◌≡◌ {A = String} "n" "n")
unfolding nonce_storage_key key_of_nonce key_fields
nonce_storage_key_inj_example =
    nonce_storage_key_inj codes hashed required required approved approved "n" "n" "h"
      ((λ e. refl), (λ e. refl), (λ e. refl), (λ e. refl)) (omega arith) (omega arith) (λ e. refl)
      refl refl refl refl
