-- ===== src/Ledger/Keeps.antt =====
-- What the methods of the ledger keep: a property of every scope's state that the scope's own
-- operations keep is kept by every method, whatever is evicted and whatever is refused.
use agent_governance_policie.Prelude.{
  ℕ, ◌≡◌, refl, Bool, Option, some, List, [], ◌∷◌, inl, inr, Bool-cases, Option-cases, length, ltb,
  leb, String, string_discrete,
}
use agent_governance_policie.Prelude.Assoc.{insert, AllValues}
use agent_governance_policie.Prelude.Assoc.Laws.{AllValues-remove, AllValues-get}
use agent_governance_policie.Scope.{ScopeState, at_period, is_idle, idle_at, roll, reclaim}
use agent_governance_policie.Scope
use agent_governance_policie.Ledger.Stats.{LedgerStats, count_reclaim}
use agent_governance_policie.Ledger.{
  Inner, Ledger, find, is_at, reindex_state, reindex, state_of, evict_touched, evict_entry,
  evict_one, Body, refresh, store, run_body, make_room,
}

-- `P n s`: the state `s` is as it should be while ids below `n` are in use.
pub record IsKept (ledger : Ledger) (P : ℕ → ScopeState → Type 0) : Type 0 where
  pub start : (n p : ℕ) → P n (at_period p)
  pub rolled : (n p : ℕ) (s : ScopeState) → P n s → P n (roll s p)
  pub reclaimed :
      (n now : ℕ) (s : ScopeState) → P n s → P n (reclaim s now ledger.ttl ledger.timeout).0
  pub indexed :
      (n : ℕ) (s : ScopeState) (at : Option ℕ) → P n s → P n (record s { indexed_at = at })
  pub settled :
      (n id : ℕ) (s : ScopeState) (commit : Bool) → P n s → P n (Scope.settle s id commit).0

module _ (P : ℕ → ScopeState → Type 0) where
  abbrev pub AllScopes : Inner → Type 0
  AllScopes inner = AllValues (P inner.next_id) inner.scopes

  pub insert-AllScopes :
      (n : ℕ) (key : String) (s : ScopeState) (m : List (String × ScopeState))
      → P n s
      → AllValues (P n) m
      → AllValues (P n) (insert string_discrete key s m)
  unfolding insert
  insert-AllScopes n key s m p v = (p, AllValues-remove string_discrete (P n) key m v)

module _ (ledger : Ledger) (P : ℕ → ScopeState → Type 0) (kept : IsKept ledger P) where
  reindex_state-AllScopes :
      (inner : Inner) (key : String) (s : ScopeState) (at : ℕ)
      → P inner.next_id s
      → AllScopes P inner
      → AllScopes P (reindex_state inner key s at)
  unfolding reindex_state
  reindex_state-AllScopes inner key s at p v = elim (Bool-cases (is_at s.indexed_at at)) [
    | inl e ↦ rw (e, reindex_state) v
    | inr e ↦
        rw (e, reindex_state)
          (insert-AllScopes P inner.next_id key _ inner.scopes
            (kept.indexed inner.next_id s (some at) p) v)
  ]

  pub reindex-AllScopes :
      (inner : Inner) (key : String)
      → AllScopes P inner
      → AllScopes P (reindex inner key ledger.ttl ledger.window)
  unfolding reindex
  reindex-AllScopes inner key v = elim (Option-cases (find key inner.scopes)) [
    | inl e ↦ rw (e, reindex) v
    | inr (s, e) ↦
        rw (e, reindex)
          (reindex_state-AllScopes inner key s _
            (AllValues-get string_discrete (P inner.next_id) key inner.scopes v e) v)
  ]

  refresh-keeps : (n : ℕ) (s : ScopeState) (now : ℕ) → P n s → P n (refresh ledger s now).0
  unfolding refresh
  refresh-keeps n s now p = kept.reclaimed n now _ (kept.rolled n _ s p)

  evict_touched-AllScopes :
      (inner : Inner) (at : ℕ) (key : String) (s : ScopeState) (now q : ℕ)
      → P inner.next_id s
      → AllScopes P inner
      → AllScopes P (evict_touched ledger inner at key s now q).0
  unfolding evict_touched
  evict_touched-AllScopes inner at key s now q p v =
      let t = reclaim (roll s q) now ledger.ttl ledger.timeout in
      let w =
        insert-AllScopes P inner.next_id key t.0 inner.scopes
          (kept.reclaimed inner.next_id now _ (kept.rolled inner.next_id q s p)) v in
      elim (Bool-cases (is_idle t.0)) [
        | inl e ↦ rw (e, evict_touched) (AllValues-remove string_discrete (P inner.next_id) key _ w)
        | inr e ↦ rw (e, evict_touched) (reindex-AllScopes _ key w)
      ]

  evict_entry-AllScopes :
      (inner : Inner) (at : ℕ) (key : String) (now q : ℕ)
      → AllScopes P inner
      → AllScopes P (evict_entry ledger inner at key now q).0
  unfolding evict_entry
  evict_entry-AllScopes inner at key now q v = elim (Option-cases (find key inner.scopes)) [
    | inl e ↦ rw (e, evict_entry) v
    | inr (s, e) ↦
        rw (e, evict_entry)
          (evict_touched-AllScopes inner at key s now q
            (AllValues-get string_discrete (P inner.next_id) key inner.scopes v e) v)
  ]

  evict_one-AllScopes :
      (inner : Inner) (index : List (ℕ × String)) (now q : ℕ)
      → inner.idle_index ≡ index
      → AllScopes P inner
      → AllScopes P (evict_one ledger inner now q).0
  unfolding evict_one
  evict_one-AllScopes inner [] now q e v = rw (e, evict_one) v
  evict_one-AllScopes inner ((at, key) ∷ index) now q e v = elim (Bool-cases (ltb now at)) [
    | inl f ↦ rw (e, evict_one) (rw f v)
    | inr f ↦ rw (e, evict_one) (rw f (evict_entry-AllScopes inner at key now q v))
  ]

  pub make_room-AllScopes :
      (inner : Inner) (scope : String) (now : ℕ)
      → AllScopes P inner
      → AllScopes P (make_room ledger inner scope now).0
  unfolding make_room
  make_room-AllScopes inner scope now v = elim (Option-cases (find scope inner.scopes)) [
    | inr (s, e) ↦ rw (e, make_room) v
    | inl e ↦ elim (Bool-cases (leb ledger.max_scopes (length inner.scopes))) [
      | inl f ↦ rw (e, f, make_room) (evict_one-AllScopes inner inner.idle_index now _ refl v)
      | inr f ↦ rw (e, f, make_room) v
    ]
  ]

  state_of-keeps :
      (inner : Inner) (scope : String) → AllScopes P inner → P inner.next_id (state_of inner scope)
  unfolding state_of
  state_of-keeps inner scope v = elim (Option-cases (find scope inner.scopes)) [
    | inl e ↦ rw (e, state_of) (kept.start inner.next_id 0)
    | inr (s, e) ↦
        rw (e, state_of) (AllValues-get string_discrete (P inner.next_id) scope inner.scopes v e)
  ]

  -- The body keeps `P` on its scope, and on every other scope as the ids advance.
  pub record BodyKeeps {R : Type 0} (n : ℕ) (body : Body ledger R) : Type 0 where
    pub own :
        (s : ScopeState) (stats : LedgerStats) → P n s → let r = (body s n stats).0 in P r.1 r.0
    pub others :
        (s : ScopeState) (stats : LedgerStats) (t : ScopeState) → P n t → P (body s n stats).0.1 t

  others-AllValues :
      (n m : ℕ) (scopes : List (String × ScopeState))
      → ((t : ScopeState) → P n t → P m t)
      → AllValues (P n) scopes
      → AllValues (P m) scopes
  others-AllValues n m [] up v = tt
  others-AllValues n m ((key, s) ∷ scopes) up v = (up s v.0, others-AllValues n m scopes up v.1)

  pub run_body-AllScopes :
      {R : Type 0} (inner : Inner) (scope : String) (now : ℕ) (body : Body ledger R)
      → BodyKeeps inner.next_id body
      → AllScopes P inner
      → AllScopes P (run_body ledger inner scope now body).0
  unfolding run_body store
  run_body-AllScopes inner scope now body b v =
      let r = refresh ledger (state_of inner scope) now in
      let stats = count_reclaim inner.stats r.1 in
      let out = (body r.0 inner.next_id stats).0 in
      reindex-AllScopes _ scope (
        insert-AllScopes P out.1 scope out.0 inner.scopes
          (b.own r.0 stats
            (refresh-keeps inner.next_id (state_of inner scope) now (state_of-keeps inner scope v)))
          (others-AllValues inner.next_id out.1 inner.scopes (b.others r.0 stats) v))
