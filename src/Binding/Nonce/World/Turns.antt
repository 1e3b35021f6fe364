-- ===== src/Binding/Nonce/World/Turns.antt =====
-- A turn of a reservation keeps a live nonce in the store: approval-execution-binding/src/lib.rs.
use mathlib.Core.Path.{subst}
use agent_governance_policie.Prelude.{
  ℕ, ◌≤◌, true, Option, none, some, String, string_discrete, if_pos, if_neg, ltb→lt, ◌≡◌, ◌≢◌, ◌∙◌,
  sym, ap, inl, inr, refl, arith,
}
use agent_governance_policie.Binding.Nonce.{
  Stored, expiring, absent, undecodable, Inserted, inserted, Program, return, get, insert, delete,
  keys, clock, look, note, Reserved, nonce_sweep_due, add_i64,
}
use agent_governance_policie.Binding.Nonce.Single.{IsFound, IsSafe, IsStored}
use agent_governance_policie.Binding.Nonce.World.{
  Nonces, mark_at, Inserts, stored, held, failed, Reads, Turn, IsLive, AllLive,
}

pub some-eq : (a b : ℕ) → some a ≡ some b → a ≡ b
some-eq a b e = cc

pub none-some : (a : ℕ) → ◌≡◌ {A = Option ℕ} none (some a) → ⊥
none-some a e = cc

module _ (latest : ℕ) (once : String) where
  abbrev pub Found : String → ℕ → Type 0
  Found key expiry = key ≡ once → IsLive latest expiry

  -- A reservation of which nothing is known but that it deletes no live nonce, and one that has not
  -- been told that the store took the nonce `once`.
  abbrev pub IsLoose : String × ℕ → Program Reserved → Type 0
  IsLoose c p =
      IsSafe (λ n. n ≤ latest) Found (λ k. Unit {0}) c.0 c.1 p
        (IsStored (λ n. n ≤ latest) Found (λ k. Unit {0}) c.0 c.1)

  abbrev pub IsFresh : String × ℕ → Program Reserved → Type 0
  IsFresh c p =
      IsSafe (λ n. n ≤ latest) Found (λ k. k ≢ once) c.0 c.1 p
        (IsStored (λ n. n ≤ latest) Found (λ k. k ≢ once) c.0 c.1)

  abbrev pub Stays : Nonces → Nonces → Type 0
  Stays s t = (expiry : ℕ) → s once ≡ some expiry → t once ≡ some expiry

  at_once : (s t : Nonces) → t ≡ s → t once ≡ s once
  at_once s t same = ap (λ (v : Nonces). v once) same

  at_other :
      (s t : Nonces) (key : String) (v : Option ℕ)
      → t ≡ mark_at key v s
      → key ≢ once
      → t once ≡ s once
  unfolding mark_at
  at_other s t key v same other =
      at_once (mark_at key v s) t same ∙ if_neg (string_discrete key once) other _ _

  at_same :
      (s t : Nonces) (key : String) (v : Option ℕ) → t ≡ mark_at key v s → key ≡ once → t once ≡ v
  unfolding mark_at
  at_same s t key v same e =
      at_once (mark_at key v s) t same ∙ if_pos (string_discrete key once) e _ _

  not_due :
      (expiry now : ℕ) → now ≤ latest → IsLive latest expiry → nonce_sweep_due now expiry ≡ true → ⊥
  unfolding nonce_sweep_due
  not_due expiry now seen live due =
      absurd (omega (arith, ltb→lt (add_i64 expiry 1) now due, live, seen))

  unchanged : (s t : Nonces) → t ≡ s → AllLive latest once s → AllLive latest once t × Stays s t
  unchanged s t same live =
      (λ expiry at. live expiry (sym (at_once s t same) ∙ at), λ expiry at. at_once s t same ∙ at)

  elsewhere :
      (s t : Nonces) → t once ≡ s once → AllLive latest once s → AllLive latest once t × Stays s t
  elsewhere s t same live = (λ expiry at. live expiry (sym same ∙ at), λ expiry at. same ∙ at)

  stored_stays :
      (s t : Nonces) (key : String) (own : ℕ)
      → AllLive latest once s
      → (key ≡ once → IsLive latest own)
      → s key ≡ none
      → t ≡ mark_at key (some own) s
      → AllLive latest once t × Stays s t
  stored_stays s t key own live mine fresh same = elim (string_discrete key once) [
    | yes e ↦
        let at_end = at_same s t key (some own) same e in
        let at_start : s once ≡ none = ap s (sym e) ∙ fresh in
        (
          λ expiry at. subst (IsLive latest) (some-eq own expiry (sym at_end ∙ at)) (mine e),
          λ expiry at. absurd (none-some expiry (sym at_start ∙ at)),
        )
    | no n ↦ elsewhere s t (at_other s t key (some own) same n) live
  ]

  deleted_stays :
      (s t : Nonces) (key : String) (now read : ℕ)
      → AllLive latest once s
      → now ≤ latest
      → Found key read
      → nonce_sweep_due now read ≡ true
      → t ≡ mark_at key none s
      → AllLive latest once t × Stays s t
  deleted_stays s t key now read live seen found due same = elim (string_discrete key once) [
    | yes e ↦ absurd (not_due read now seen (found e) due)
    | no n ↦ elsewhere s t (at_other s t key none same n) live
  ]

  Reads-IsFound :
      (D : String → Type 0) (s : Nonces) (key : String) (found : Stored)
      → AllLive latest once s
      → Reads s key found
      → IsFound (λ n. n ≤ latest) Found D key found
  unfolding Reads IsFound
  Reads-IsFound D s key (expiring expiry) live at = λ e. live expiry (ap s (sym e) ∙ at)
  Reads-IsFound D s key absent live at = tt
  Reads-IsFound D s key undecodable live at = tt

  written_here :
      (s t : Nonces) (key : String) (own : ℕ) → t ≡ mark_at key (some own) s → t key ≡ some own
  unfolding mark_at
  written_here s t key own same =
      ap (λ (v : Nonces). v key) same ∙ if_pos (string_discrete key key) refl _ _

  module _ (D : String → Type 0) (c : String × ℕ) (mine : c.0 ≡ once → IsLive latest c.1) where
    abbrev Safe : Program Reserved → Type 0
    Safe p = IsSafe (λ n. n ≤ latest) Found D c.0 c.1 p (IsStored (λ n. n ≤ latest) Found D c.0 c.1)

    -- What the turn may tell the program: the store has taken a key as new.
    abbrev Tells : Nonces → Nonces → Type 0
    Tells s t = (key : String) (expiry : ℕ) → s key ≡ none → t key ≡ some expiry → D key

    insert-Safe :
        (s t : Nonces) (key : String) (own : ℕ) (answer : Inserted)
        → AllLive latest once s
        → key ≡ c.0
        → own ≡ c.1
        → Inserts s key own answer t
        → Tells s t
        → (AllLive latest once t × Stays s t) × (answer ≡ inserted → D key)
    insert-Safe s t key own _ live e f (stored fresh same said) tells = (
      stored_stays s t key own live (λ g. subst (IsLive latest) (sym f) (mine (sym e ∙ g))) fresh
          same,
      λ told. tells key own fresh (written_here s t key own same),
    )
    insert-Safe s t key own _ live e f (held same) tells = (unchanged s t same live, λ told. cc)
    insert-Safe s t key own _ live e f (failed same) tells = (unchanged s t same live, λ told. cc)

    -- A turn keeps what is stored of the nonce, and leaves the program safe.
    pub Turn-Safe :
        (s t : Nonces) (p q : Program Reserved)
        → AllLive latest once s
        → Safe p
        → Turn latest s p t q
        → Tells s t
        → (AllLive latest once t × Stays s t) × Safe q
    unfolding Turn IsSafe
    Turn-Safe s t (return a) q live safe turn tells = absurd turn
    Turn-Safe s t (get key next) q live safe (found, reads, same, e) tells =
        (unchanged s t same live, rw e (safe found (Reads-IsFound D s key found live reads)))
    Turn-Safe s t (insert key own next) q live safe (answer, inserts, e) tells =
        let after = insert-Safe s t key own answer live safe.0 safe.1 inserts tells in
        (after.0, rw e (safe.2 answer after.1))
    Turn-Safe s t (delete key next) q live ((now, read, seen, found, due), rest)
          (deleted, inl same, e) tells =
        (deleted_stays s t key now read live seen found due same, rw e (rest deleted))
    Turn-Safe s t (delete key next) q live safe (deleted, inr same, e) tells =
        (unchanged s t same live, rw e (safe.1 deleted))
    Turn-Safe s t (keys next) q live safe (listed, same, e) tells =
        (unchanged s t same live, rw e (safe listed))
    Turn-Safe s t (clock next) q live safe (now, seen, same, e) tells =
        (unchanged s t same live, rw e (safe now seen))
    Turn-Safe s t (look next) q live safe (cap, same, e) tells =
        (unchanged s t same live, rw e (safe cap))
    Turn-Safe s t (note cap rest) q live safe (same, e) tells = (unchanged s t same live, rw e safe)
