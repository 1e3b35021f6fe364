-- ===== src/Binding/Nonce/Single.antt =====
-- One reservation of a nonce, over every answer of the store: approval-execution-binding/src/lib.rs.
use agent_governance_policie.Prelude.{
  ℕ, Bool, true, false, Option, none, some, List, [], ◌∷◌, String, leb, if◌then◌else◌, ◌≡◌, refl,
  ok, err,
}
use agent_governance_policie.Binding.Nonce.{
  NonceCap, Stored, expiring, absent, undecodable, Inserted, inserted, taken, not_stored, Program,
  return, get, insert, delete, keys, clock, look, note, Kept, sweep, Reserved, insert_answer,
  insert_nonce, swept, listed_keys, at_cap, reserve_found, reserve_nonce, after_delete, sweep_found,
  nonce_sweep_due, max_reserved_nonces, nonce_never_expires,
}

-- `Seen` says that the clock has shown a second, `Found` that a read of a key has answered an expiry,
-- `Done` that the store has taken a key as new.
module _ (Seen : ℕ → Type 0) (Found : String → ℕ → Type 0) (Done : String → Type 0) where
  unfoldable pub IsFound : String → Stored → Type 0
  IsFound key (expiring expiry) = Found key expiry
  IsFound key _ = Unit

  module _ (nonce : String) (own : ℕ) where
    -- Whatever the store answers, nothing is stored but the nonce, with its own expiry; only a key that
    -- was read with an expiry that the clock has passed is deleted; and the result meets `Q`.
    unfoldable pub IsSafe : {A : Type 0} → Program A → (A → Type 0) → Type 0
    unfolding IsFound
    IsSafe (return a) Q = Q a
    IsSafe (get key next) Q = (found : Stored) → IsFound key found → IsSafe (next found) Q
    IsSafe (insert key expiry next) Q =
        (key ≡ nonce)
        × (expiry ≡ own)
        × ((answer : Inserted) → (answer ≡ inserted → Done key) → IsSafe (next answer) Q)
    IsSafe (delete key next) Q =
        ((now : ℕ) × (expiry : ℕ) × Seen now
          × Found key expiry
          × (nonce_sweep_due now expiry ≡ true))
        × ((deleted : Bool) → IsSafe (next deleted) Q)
    IsSafe (keys next) Q = (listed : Option (List String)) → IsSafe (next listed) Q
    IsSafe (clock next) Q = (now : ℕ) → Seen now → IsSafe (next now) Q
    IsSafe (look next) Q = (cap : NonceCap) → IsSafe (next cap) Q
    IsSafe (note cap rest) Q = IsSafe rest Q

    -- A reservation is granted only to the call that stored the nonce.
    unfoldable pub IsStored : Reserved → Type 0
    IsStored (ok _) = Done nonce
    IsStored (err _) = Unit

    if-IsSafe :
        {A : Type 0} (b : Bool) (p q : Program A) (Q : A → Type 0)
        → (b ≡ true → IsSafe p Q)
        → (b ≡ false → IsSafe q Q)
        → IsSafe (if b then p else q) Q
    if-IsSafe true p q Q first second = first refl
    if-IsSafe false p q Q first second = second refl

    insert_answer-IsSafe :
        (answer : Inserted)
        → (answer ≡ inserted → Done nonce)
        → IsSafe (insert_answer own answer) IsStored
    unfolding IsSafe IsStored insert_answer
    insert_answer-IsSafe inserted done = λ cap. done refl
    insert_answer-IsSafe taken done = tt
    insert_answer-IsSafe not_stored done = tt

    insert_nonce-IsSafe : IsSafe (insert_nonce nonce own) IsStored
    unfolding IsSafe insert_nonce
    insert_nonce-IsSafe = (refl, refl, λ answer done. insert_answer-IsSafe answer done)

    after_delete-IsSafe :
        {A : Type 0} (again : Program A) (next : Kept → Program A) (Q : A → Type 0) (deleted : Bool)
        → IsSafe again Q
        → ((kept : Kept) → IsSafe (next kept) Q)
        → IsSafe (after_delete again next deleted) Q
    unfolding after_delete
    after_delete-IsSafe again next Q true safe rest = safe
    after_delete-IsSafe again next Q false safe rest = rest none

    sweep_found-IsSafe :
        {A : Type 0} (now : ℕ) (key : String) (remaining earliest : ℕ) (again : ℕ → ℕ → Program A)
        (next : Kept → Program A) (Q : A → Type 0) (found : Stored)
        → Seen now
        → IsFound key found
        → ((kept earliest : ℕ) → IsSafe (again kept earliest) Q)
        → ((kept : Kept) → IsSafe (next kept) Q)
        → IsSafe (sweep_found now key remaining earliest again next found) Q
    unfolding sweep_found IsFound IsSafe
    sweep_found-IsSafe now key remaining earliest again next Q absent seen was safe rest = safe _ _
    sweep_found-IsSafe now key remaining earliest again next Q undecodable seen was safe rest =
        safe _ _
    sweep_found-IsSafe now key remaining earliest again next Q (expiring expiry) seen was safe
          rest =
        if-IsSafe (nonce_sweep_due now expiry) _ _ Q
          (λ due. (
            (now, expiry, seen, was, due),
            λ deleted. after_delete-IsSafe _ next Q deleted (safe _ _) rest,
          ))
          (λ live. safe _ _)

    sweep-IsSafe :
        {A : Type 0} (now : ℕ) (ks : List String) (remaining earliest : ℕ) (next : Kept → Program A)
        (Q : A → Type 0)
        → Seen now
        → ((kept : Kept) → IsSafe (next kept) Q)
        → IsSafe (sweep now ks remaining earliest next) Q
    unfolding sweep IsSafe
    sweep-IsSafe now [] remaining earliest next Q seen rest = rest _
    sweep-IsSafe now (key ∷ ks) remaining earliest next Q seen rest = λ found was.
        sweep_found-IsSafe now key remaining earliest
          (λ kept least_expiry. sweep now ks kept least_expiry next) next Q found seen was
          (λ kept least_expiry. sweep-IsSafe now ks kept least_expiry next Q seen rest) rest

    swept-IsSafe : (kept : Kept) → IsSafe (swept nonce own kept) IsStored
    unfolding swept IsSafe IsStored
    swept-IsSafe none = tt
    swept-IsSafe (some (remaining, earliest)) =
        if-IsSafe (leb max_reserved_nonces remaining) _ _ IsStored (λ full. tt)
          (λ room. insert_nonce-IsSafe)

    listed_keys-IsSafe :
        (now : ℕ) (listed : Option (List String))
        → Seen now
        → IsSafe (listed_keys nonce own now listed) IsStored
    unfolding listed_keys IsSafe IsStored
    listed_keys-IsSafe now none seen = tt
    listed_keys-IsSafe now (some ks) seen =
        sweep-IsSafe now ks 0 nonce_never_expires (swept nonce own) IsStored seen swept-IsSafe

    reserve_found-IsSafe : (found : Stored) → IsSafe (reserve_found nonce own found) IsStored
    unfolding reserve_found at_cap IsSafe IsStored
    reserve_found-IsSafe (expiring expiry) = tt
    reserve_found-IsSafe undecodable = tt
    reserve_found-IsSafe absent = λ cap.
        if-IsSafe (leb max_reserved_nonces cap.since_sweep) _ _ IsStored
          (λ full now seen.
            if-IsSafe (leb now cap.full_until) _ _ IsStored (λ early. tt)
              (λ due listed. listed_keys-IsSafe now listed seen))
          (λ room. insert_nonce-IsSafe)

    -- Whatever the store answers, and whatever the worker's other calls do to its cell meanwhile, a
    -- reservation stores its own nonce with its own expiry or nothing, deletes only keys that it has
    -- read with an expiry that the clock has passed, and is granted only if the store took its nonce as
    -- new.
    pub reserve_nonce-IsSafe : IsSafe (reserve_nonce nonce own) IsStored
    unfolding reserve_nonce IsSafe
    reserve_nonce-IsSafe = λ found was. reserve_found-IsSafe found
