-- ===== src/Node/World/Safe.antt =====
-- Whatever turns the workers take, every change of the shared store is one that the protocol allows:
-- aggregate-risk-gate/src/node_ledger.rs.
use mathlib.Core.Path.{subst}
use agent_governance_policie.Prelude.{
  Option, none, some, List, [], ◌∷◌, String, string_discrete, if_pos, if_neg, ◌≡◌, ◌∙◌, ap, sym,
  refl,
}
use agent_governance_policie.Node.Store.{
  Put, Cell, Answer, Found, return, get, put, delete, keys, now,
}
use agent_governance_policie.Node.Worker.{NodeLedger, Worker, Step}
use agent_governance_policie.Node.Logic.{
  Protocol, Keeps, IsSafe, IsFaithful, Any, >>=-Keeps, pure-Keeps,
}
use agent_governance_policie.Node.Evolve.{Evolves, IsDoomed, IsPlaced, replaced, node_protocol}
use agent_governance_policie.Node.Safe.Methods.{
  reserve-Keeps, force_reserve-Keeps, force_reserve_checked-Keeps, commit-Keeps, release-Keeps,
}
use agent_governance_policie.Node.World.{
  Call, reserving, forcing, checking, committing, releasing, forget, call, session, Versions,
  Running, write_at, Accepts, Reads, present, missing, unread, Writes, landed, not_written, Deletes,
  deleted, not_deleted, Turn, Moved, here, there, Reached, begun, moved, Written, held_under,
  held_at, Changed, kept, evolved, removed, AllPlaced,
}

module _ (ledger : NodeLedger) (content : String → String → Cell)
    (Landed : String → String → Type 0) where
  abbrev shared : Protocol
  shared = node_protocol ledger content (Written content Landed)

  -- A worker that keeps to the protocol.
  abbrev IsGood : Running → Type 0
  IsGood p = IsSafe shared p Any

  forget-Keeps :
      {A : Type 0} {m : Step A} {P : A → Type 0} → Keeps shared m P → Keeps shared (forget m) Any
  unfolding forget
  forget-Keeps safe = >>=-Keeps safe λ a h. pure-Keeps _ tt

  call-Keeps : (c : Call) → Keeps shared (call ledger c) Any
  unfolding call
  call-Keeps (reserving scope contribution budget time) =
      forget-Keeps (reserve-Keeps ledger content _ scope contribution budget time)
  call-Keeps (forcing scope contribution time) =
      forget-Keeps (force_reserve-Keeps ledger content _ scope contribution time)
  call-Keeps (checking scope contribution budget time) =
      forget-Keeps (force_reserve_checked-Keeps ledger content _ scope contribution budget time)
  call-Keeps (committing reservation time) =
      forget-Keeps (commit-Keeps ledger content _ reservation time)
  call-Keeps (releasing reservation time) =
      forget-Keeps (release-Keeps ledger content _ reservation time)

  session-Keeps : (cs : List Call) → Keeps shared (session ledger cs) Any
  unfolding session
  session-Keeps [] = pure-Keeps _ tt
  session-Keeps (c ∷ cs) = >>=-Keeps (call-Keeps c) λ a h. session-Keeps cs

  write_at_self :
      (key : String) (version : Option String) (s : Versions) → write_at key version s key ≡ version
  unfolding write_at
  write_at_self key version s = if_pos (string_discrete key key) refl _ _

  write_at_other :
      (key k : String) (version : Option String) (s : Versions)
      → (key ≡ k → ⊥)
      → write_at key version s k ≡ s k
  unfolding write_at
  write_at_other key k version s other = if_neg (string_discrete key k) other _ _

  Reads-IsFaithful :
      (s : Versions) (key : String) (answer : Answer (Found Cell))
      → AllPlaced content ledger s
      → Reads content s key answer
      → IsFaithful shared key answer
  unfolding IsFaithful node_protocol
  Reads-IsFaithful s key _ placed (present {version} at) = (refl, placed key version at)
  Reads-IsFaithful s key _ placed missing = tt
  Reads-IsFaithful s key _ placed unread = tt

  -- What an accepted write replaces is what the key holds.
  Accepts-replaced :
      (s : Versions) (key : String) (mode : Put)
      → Accepts s key mode
      → replaced content key mode ≡ held_at content s key
  unfolding Accepts replaced held_at held_under
  Accepts-replaced s key Put.absent accepts = rw accepts refl
  Accepts-replaced s key (Put.cas version) accepts = rw accepts refl

  -- What a turn leaves: the worker still good, the values still placed, each change allowed.
  abbrev IsKept : Versions → Versions → Running → Type 0
  IsKept s t q =
      IsGood q
      × AllPlaced content ledger t
      × ((key : String) → Changed content Landed ledger key s t)

  same-IsKept :
      (s t : Versions) (q : Running) → t ≡ s → AllPlaced content ledger s → IsGood q → IsKept s t q
  same-IsKept s t q same placed good =
      (good, rw same placed, λ key. kept (ap (λ (v : Versions). v key) same))

  -- A key that is written, and the others.
  written-AllPlaced :
      (s : Versions) (key : String) (version : String)
      → AllPlaced content ledger s
      → IsPlaced ledger key (content key version)
      → AllPlaced content ledger (write_at key (some version) s)
  written-AllPlaced s key version placed here_placed k v at = elim (string_discrete key k) [
    | yes same ↦
        let names : ◌≡◌ {A = Option String} (some version) (some v) =
          sym (write_at_self key (some version) s) ∙ ap (write_at key (some version) s) same ∙ at in
        subst (λ (j : String). IsPlaced ledger j (content j v)) same
          (subst (λ (u : String). IsPlaced ledger key (content key u)) (cc) here_placed)
    | no other ↦ placed k v (sym (write_at_other key k (some version) s other) ∙ at)
  ]

  removed-AllPlaced :
      (s : Versions) (key : String)
      → AllPlaced content ledger s
      → AllPlaced content ledger (write_at key none s)
  removed-AllPlaced s key placed k v at = elim (string_discrete key k) [
    | yes same ↦
        let names : ◌≡◌ {A = Option String} none (some v) =
          sym (write_at_self key none s) ∙ ap (write_at key none s) same ∙ at in
        cc
    | no other ↦ placed k v (sym (write_at_other key k none s other) ∙ at)
  ]

  written_changed :
      (s : Versions) (key : String) (version : String)
      → Evolves ledger (Written content Landed key) (held_at content s key) (content key version)
      → (k : String) → Changed content Landed ledger k s (write_at key (some version) s)
  unfolding held_at held_under
  written_changed s key version evolves k = elim (string_discrete key k) [
    | yes same ↦
        subst (λ (j : String). Changed content Landed ledger j s (write_at key (some version) s))
          same (evolved (content key version) (rw (write_at_self key (some version) s)) evolves)
    | no other ↦ kept (write_at_other key k (some version) s other)
  ]

  removed_changed :
      (s : Versions) (key : String)
      → IsDoomed (Written content Landed key)
      → (k : String) → Changed content Landed ledger k s (write_at key none s)
  removed_changed s key doomed k = elim (string_discrete key k) [
    | yes same ↦
        subst (λ (j : String). Changed content Landed ledger j s (write_at key none s)) same
          (removed (write_at_self key none s) doomed)
    | no other ↦ kept (write_at_other key k none s other)
  ]

  put-IsKept :
      (s t : Versions) (key : String) (mode : Put) (cell : Cell) (answer : Answer (Unit {0}))
      (rest : Answer (Unit {0}) → Running)
      → AllPlaced content ledger s
      → IsGood (put key mode cell rest)
      → Writes content Landed s key mode cell answer t
      → IsKept s t (rest answer)
  unfolding IsSafe node_protocol Written
  put-IsKept s t key mode cell answer rest placed good (not_written same) =
      same-IsKept s t _ same placed (good.1 _ (λ e. cc))
  put-IsKept s t key mode cell answer rest placed good
        (landed version accepts holds now_landed same said) =
      subst (λ (u : Versions). IsKept s u (rest answer)) (sym same)
        (
          good.1 answer (λ e. (version, now_landed, holds)),
          written-AllPlaced s key version placed (rw holds good.0.0),
          written_changed s key version
              (rw (← Accepts-replaced s key mode accepts, holds) good.0.1),
        )

  delete-IsKept :
      (s t : Versions) (key : String) (answer : Answer (Unit {0}))
      (rest : Answer (Unit {0}) → Running)
      → AllPlaced content ledger s
      → IsGood (delete key rest)
      → Deletes content Landed s key t
      → IsKept s t (rest answer)
  unfolding IsSafe node_protocol
  delete-IsKept s t key answer rest placed good (not_deleted same) =
      same-IsKept s t _ same placed (good.1 answer)
  delete-IsKept s t key answer rest placed good (deleted same) =
      subst (λ (u : Versions). IsKept s u (rest answer)) (sym same)
        (good.1 answer, removed-AllPlaced s key placed, removed_changed s key good.0)

  Turn-IsKept :
      (s t : Versions) (p q : Running)
      → AllPlaced content ledger s
      → IsGood p
      → Turn content Landed s p t q
      → IsKept s t q
  unfolding Turn IsSafe
  Turn-IsKept s t (return a) q placed good turn = absurd turn
  Turn-IsKept s t (get key rest) q placed good (answer, reads, same, e) =
      rw e
        (same-IsKept s t _ same placed (good answer (Reads-IsFaithful s key answer placed reads)))
  Turn-IsKept s t (put key mode cell rest) q placed good (answer, writes, e) =
      rw e (put-IsKept s t key mode cell answer rest placed good writes)
  Turn-IsKept s t (delete key rest) q placed good (answer, deletes, e) =
      rw e (delete-IsKept s t key answer rest placed good deletes)
  Turn-IsKept s t (keys rest) q placed good (answer, same, e) =
      rw e (same-IsKept s t _ same placed (good answer))
  Turn-IsKept s t (now rest) q placed good (time, same, e) =
      rw e (same-IsKept s t _ same placed (good time))

  abbrev AllGood : List Running → Type 0
  AllGood [] = Unit
  AllGood (p ∷ ps) = IsGood p × AllGood ps

  Moved-AllGood :
      (s t : Versions) (ps qs : List Running)
      → AllPlaced content ledger s
      → AllGood ps
      → Moved content Landed s ps t qs
      → AllGood qs
        × AllPlaced content ledger t
        × ((key : String) → Changed content Landed ledger key s t)
  Moved-AllGood s t _ _ placed good (here {p = p} {q = q} turn) =
      let after = Turn-IsKept s t p q placed good.0 turn in ((after.0, good.1), after.1, after.2)
  Moved-AllGood s t _ _ placed good (there {ps = ps} {qs = qs} rest) =
      let after = Moved-AllGood s t ps qs placed good.1 rest in
      ((good.0, after.0), after.1, after.2)

  Reached-AllGood :
      (s : Versions) (ps : List Running) (t : Versions) (qs : List Running)
      → AllPlaced content ledger s
      → AllGood ps
      → Reached content Landed s ps t qs
      → AllGood qs × AllPlaced content ledger t
  Reached-AllGood s ps _ _ placed good begun = (good, placed)
  Reached-AllGood s ps t qs placed good (moved {t = r} {qs = rs} before last) =
      let ready = Reached-AllGood s ps r rs placed good before in
      let after = Moved-AllGood r t rs qs ready.1 ready.0 last in (after.0, after.1)

  -- Workers with calls to make, each in its own state.
  abbrev pub start : List (Worker × List Call) → List Running
  start [] = []
  start ((w, cs) ∷ rest) = session ledger cs w ∷ start rest

  start-AllGood : (workers : List (Worker × List Call)) → AllGood (start workers)
  start-AllGood [] = tt
  start-AllGood ((w, cs) ∷ rest) = ((session-Keeps cs).at w, start-AllGood rest)

  -- Whatever calls any number of workers make on a store, in whatever order their turns come and
  -- whatever answers are lost, each turn leaves each key as it was, or replaces its value as
  -- `Evolves` allows, or deletes a key that was condemned or a marker that was being collected.
  pub workers_keep :
      (workers : List (Worker × List Call)) (s t u : Versions) (ps qs : List Running)
      → AllPlaced content ledger s
      → Reached content Landed s (start workers) t ps
      → Moved content Landed t ps u qs
      → (key : String) → Changed content Landed ledger key t u
  workers_keep workers s t u ps qs placed before last key =
      let ready = Reached-AllGood s (start workers) t ps placed (start-AllGood workers) before in
      (Moved-AllGood t u ps qs ready.1 ready.0 last).2 key

  pub workers_place :
      (workers : List (Worker × List Call)) (s t : Versions) (ps : List Running)
      → AllPlaced content ledger s
      → Reached content Landed s (start workers) t ps
      → AllPlaced content ledger t
  workers_place workers s t ps placed before =
      (Reached-AllGood s (start workers) t ps placed (start-AllGood workers) before).1
