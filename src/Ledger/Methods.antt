-- ===== src/Ledger/Methods.antt =====
-- `with_state` and `settle` keep what each scope's operations keep, and only a body moves the id
-- counter.
use agent_governance_policie.Prelude.{
  ℕ, ◌≡◌, ◌⊎◌, refl, Bool, Option, List, [], ◌∷◌, inl, inr, Bool-cases, Option-cases, length, ltb,
  leb, String, string_discrete, arith,
}
use agent_governance_policie.Prelude.Assoc.Laws.{AllValues-get}
use agent_governance_policie.Scope.Types.{Timeout, Reservation}
use agent_governance_policie.Scope.{ScopeState, is_idle, roll, reclaim}
use agent_governance_policie.Ledger.Stats.{LedgerStats, settle_free}
use agent_governance_policie.Ledger.Keeps.{
  IsKept, AllScopes, BodyKeeps, make_room-AllScopes, run_body-AllScopes, reindex-AllScopes,
  insert-AllScopes,
}
use agent_governance_policie.Ledger.{
  Inner, Ledger, find, reindex, evict_touched, evict_entry, evict_one, Body, make_room, with_state,
  reclaim_first, settle_state, settle_held, settle,
}

pub reindex-next_id :
    (inner : Inner) (scope : String) (ttl : ℕ) (window : Option ℕ)
    → (reindex inner scope ttl window).next_id ≡ inner.next_id
unfolding reindex
reindex-next_id inner scope ttl window = ground arith

Timeout-cases : (t : Timeout) → (t ≡ Timeout.commit) ⊎ (t ≡ Timeout.release)
Timeout-cases Timeout.commit = inl refl
Timeout-cases Timeout.release = inr refl

module _ (ledger : Ledger) where
  evict_touched-next_id :
      (inner : Inner) (at : ℕ) (key : String) (s : ScopeState) (now q : ℕ)
      → (evict_touched ledger inner at key s now q).0.next_id ≡ inner.next_id
  unfolding evict_touched
  evict_touched-next_id inner at key s now q =
      let t = reclaim (roll s q) now ledger.ttl ledger.timeout in
      elim (Bool-cases (is_idle t.0)) [
        | inl e ↦ rw (e, evict_touched)
        | inr e ↦ rw (e, evict_touched) (reindex-next_id _ key ledger.ttl ledger.window)
      ]

  evict_entry-next_id :
      (inner : Inner) (at : ℕ) (key : String) (now q : ℕ)
      → (evict_entry ledger inner at key now q).0.next_id ≡ inner.next_id
  unfolding evict_entry
  evict_entry-next_id inner at key now q = elim (Option-cases (find key inner.scopes)) [
    | inl e ↦ rw (e, evict_entry)
    | inr (s, e) ↦ rw (e, evict_entry) (evict_touched-next_id inner at key s now q)
  ]

  evict_one-next_id :
      (inner : Inner) (index : List (ℕ × String)) (now q : ℕ)
      → inner.idle_index ≡ index
      → (evict_one ledger inner now q).0.next_id ≡ inner.next_id
  unfolding evict_one
  evict_one-next_id inner [] now q e = rw (e, evict_one)
  evict_one-next_id inner ((at, key) ∷ index) now q e = elim (Bool-cases (ltb now at)) [
    | inl f ↦ rw (e, evict_one) (rw f)
    | inr f ↦ rw (e, evict_one) (rw f (evict_entry-next_id inner at key now q))
  ]

  pub make_room-next_id :
      (inner : Inner) (scope : String) (now : ℕ)
      → (make_room ledger inner scope now).0.next_id ≡ inner.next_id
  unfolding make_room
  make_room-next_id inner scope now = elim (Option-cases (find scope inner.scopes)) [
    | inr (s, e) ↦ rw (e, make_room)
    | inl e ↦ elim (Bool-cases (leb ledger.max_scopes (length inner.scopes))) [
      | inl f ↦ rw (e, f, make_room) (evict_one-next_id inner inner.idle_index now _ refl)
      | inr f ↦ rw (e, f, make_room)
    ]
  ]

  settle_held-next_id :
      (inner : Inner) (r : Reservation) (now : ℕ) (commit : Bool)
      → (settle_held ledger inner r now commit).0.next_id ≡ inner.next_id
  unfolding settle_held
  settle_held-next_id inner r now commit = elim (Option-cases (find r.scope inner.scopes)) [
    | inl e ↦ rw (e, settle_held)
    | inr (s, e) ↦ rw (e, settle_held) (reindex-next_id _ r.scope ledger.ttl ledger.window)
  ]

  -- A settlement issues no id.
  pub settle-next_id :
      (inner : Inner) (r : Reservation) (now : ℕ) (commit : Bool)
      → (settle ledger inner r now commit).0.next_id ≡ inner.next_id
  unfolding settle settle_free
  settle-next_id inner r now commit = elim (Bool-cases (ltb 0 r.contribution)) [
    | inl e ↦ rw (e, settle, settle_free) (settle_held-next_id inner r now commit)
    | inr e ↦ elim (Bool-cases commit) [
      | inl f ↦ rw (e, f, settle, settle_free)
      | inr f ↦ rw (e, f, settle, settle_free)
    ]
  ]

module _ (ledger : Ledger) (P : ℕ → ScopeState → Type 0) (kept : IsKept ledger P) where
  pub with_state-AllScopes :
      {R : Type 0} (inner : Inner) (scope : String) (now : ℕ) (body : Body ledger R)
      → BodyKeeps ledger P kept inner.next_id body
      → AllScopes P inner
      → AllScopes P (with_state ledger inner scope now body).0
  unfolding with_state
  with_state-AllScopes inner scope now body b v =
      let w = make_room-AllScopes ledger P kept inner scope now v in
      elim (Bool-cases (make_room ledger inner scope now).1) [
        | inl e ↦
            rw (e, with_state)
              (run_body-AllScopes ledger P kept _ scope now body
                (rw (make_room-next_id ledger inner scope now) b) w)
        | inr e ↦ rw (e, with_state) w
      ]

  reclaim_first-keeps :
      (n : ℕ) (s : ScopeState) (now : ℕ) (stats : LedgerStats)
      → P n s
      → P n (reclaim_first ledger s now stats).0
  unfolding reclaim_first
  reclaim_first-keeps n s now stats p = elim (Timeout-cases ledger.timeout) [
    | inl e ↦ rw (e, reclaim_first) (kept.reclaimed n now s p)
    | inr e ↦ rw (e, reclaim_first) p
  ]

  settle_state-keeps :
      (n : ℕ) (s : ScopeState) (r : Reservation) (now : ℕ) (commit : Bool) (stats : LedgerStats)
      → P n s
      → P n (settle_state ledger s r now commit stats).0.0
  unfolding settle_state
  settle_state-keeps n s r now commit stats p =
      kept.reclaimed n now _
        (kept.settled n r.id _ commit (reclaim_first-keeps n _ now stats (kept.rolled n _ s p)))

  settle_held-AllScopes :
      (inner : Inner) (r : Reservation) (now : ℕ) (commit : Bool)
      → AllScopes P inner
      → AllScopes P (settle_held ledger inner r now commit).0
  unfolding settle_held
  settle_held-AllScopes inner r now commit v = elim (Option-cases (find r.scope inner.scopes)) [
    | inl e ↦ rw (e, settle_held) v
    | inr (s, e) ↦
        rw (e, settle_held)
          (reindex-AllScopes ledger P kept _ r.scope (
            insert-AllScopes P inner.next_id r.scope _ inner.scopes
              (settle_state-keeps inner.next_id s r now commit inner.stats
                (AllValues-get string_discrete (P inner.next_id) r.scope inner.scopes v e))
              v))
  ]

  -- A settlement keeps every scope, whichever reservation is presented.
  pub settle-AllScopes :
      (inner : Inner) (r : Reservation) (now : ℕ) (commit : Bool)
      → AllScopes P inner
      → AllScopes P (settle ledger inner r now commit).0
  unfolding settle settle_free
  settle-AllScopes inner r now commit v = elim (Bool-cases (ltb 0 r.contribution)) [
    | inl e ↦ rw (e, settle, settle_free) (settle_held-AllScopes inner r now commit v)
    | inr e ↦ elim (Bool-cases commit) [
      | inl f ↦ rw (e, f, settle, settle_free) v
      | inr f ↦ rw (e, f, settle, settle_free) v
    ]
  ]
