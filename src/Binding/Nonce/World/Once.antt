-- ===== src/Binding/Nonce/World/Once.antt =====
-- Of any number of reservations of a nonce, at most one is granted:
-- approval-execution-binding/src/lib.rs.
use mathlib.Core.Path.{subst}
use agent_governance_policie.Prelude.{
  ℕ, ◌≤◌, none, some, Option-cases, List, [], ◌∷◌, All, String, ◌≡◌, ◌≢◌, ◌⊎◌, ◌∙◌, sym, ap, inl,
  inr,
}
use agent_governance_policie.Binding.Nonce.{Program, Reserved}
use agent_governance_policie.Binding.Nonce.Single.{IsSafe, IsStored, reserve_nonce-IsSafe}
use agent_governance_policie.Binding.Nonce.World.{
  Nonces, Calls, programs, NoneGranted, OneGranted, Turn, Moved, here, there, Reached, begun, moved,
  IsLive, AllLive, IsMine,
}
use agent_governance_policie.Binding.Nonce.World.Turns.{
  some-eq, none-some, Found, IsLoose, IsFresh, Stays, Turn-Safe,
}

module _ (latest : ℕ) (once : String) where
  -- Whether the store holds the nonce.
  abbrev IsHeld : Nonces → Type 0
  IsHeld s = (expiry : ℕ) × (s once ≡ some expiry)

  kept-Stays : (s t : Nonces) → Stays latest once s t → IsHeld s → IsHeld t
  kept-Stays s t stays (expiry, at) = (expiry, stays expiry at)

  -- What a turn of a fresh reservation leaves: it is fresh, or it may have stored the nonce.
  abbrev MayStore : String × ℕ → Nonces → Nonces → Program Reserved → Type 0
  MayStore c s t q =
      (AllLive latest once t × Stays latest once s t)
      × IsLoose latest once c q
      × (IsFresh latest once c q ⊎ (IsHeld t × (s once ≡ none)))

  fresh-Turn :
      (c : String × ℕ) (s t : Nonces) (p q : Program Reserved)
      → IsMine latest once c
      → AllLive latest once s
      → IsFresh latest once c p
      → IsLoose latest once c p
      → Turn latest s p t q
      → MayStore c s t q
  fresh-Turn c s t p q mine live fresh loose turn =
      let weak =
        Turn-Safe latest once (λ k. Unit {0}) c mine s t p q live loose turn (λ k e a b. tt) in
      (
        weak.0,
        weak.1,
        elim (Option-cases (s once)) [
          | inr (e, at) ↦ inl (
              (Turn-Safe latest once (λ k. k ≢ once) c mine s t p q live fresh turn
                (λ k own a b same. none-some e (sym (ap s (sym same) ∙ a) ∙ at))).1)
          | inl empty ↦ elim (Option-cases (t once)) [
            | inl none_yet ↦ inl (
                (Turn-Safe latest once (λ k. k ≢ once) c mine s t p q live fresh turn
                  (λ k own a b same. none-some own (sym none_yet ∙ ap t (sym same) ∙ b))).1)
            | inr (e, at) ↦ inr ((e, at), empty)
          ]
        ],
      )

  -- Each program that runs, with its call: all are fresh, or one may have stored the nonce.
  abbrev AllFresh : Calls → List (Program Reserved) → Type 0
  AllFresh [] [] = Unit
  AllFresh (c ∷ cs) (p ∷ ps) =
      IsMine latest once c × IsFresh latest once c p × IsLoose latest once c p × AllFresh cs ps
  AllFresh [] (p ∷ ps) = ⊥
  AllFresh (c ∷ cs) [] = ⊥

  abbrev OneLoose : Calls → List (Program Reserved) → Type 0
  OneLoose (c ∷ cs) (p ∷ ps) =
      (IsMine latest once c × IsLoose latest once c p × AllFresh cs ps)
      ⊎ (IsMine latest once c × IsFresh latest once c p × IsLoose latest once c p × OneLoose cs ps)
  OneLoose [] ps = ⊥
  OneLoose (c ∷ cs) [] = ⊥

  abbrev FreshOrStored : Nonces → Nonces → Calls → List (Program Reserved) → Type 0
  FreshOrStored s t cs qs =
      (AllLive latest once t × Stays latest once s t)
      × (AllFresh cs qs ⊎ (OneLoose cs qs × IsHeld t × (s once ≡ none)))

  Moved-AllFresh :
      (cs : Calls) (s t : Nonces) (ps qs : List (Program Reserved))
      → Moved latest s ps t qs
      → AllLive latest once s
      → AllFresh cs ps
      → FreshOrStored s t cs qs
  Moved-AllFresh [] s t _ _ (here turn) live fresh = absurd fresh
  Moved-AllFresh [] s t _ _ (there rest) live fresh = absurd fresh
  Moved-AllFresh (c ∷ cs) s t _ _ (here {p = p} {q = q} turn) live (mine, fresh, loose, others) =
      let (world, weak, kind) = fresh-Turn c s t p q mine live fresh loose turn in
      (
        world,
        elim kind [
          | inl still ↦ inl (mine, still, weak, others)
          | inr (kept, empty) ↦ inr (inl (mine, weak, others), kept, empty)
        ],
      )
  Moved-AllFresh (c ∷ cs) s t _ _ (there {ps = ps} {qs = qs} rest) live
        (mine, fresh, loose, others) =
      let (world, kind) = Moved-AllFresh cs s t ps qs rest live others in
      (
        world,
        elim kind [
          | inl still ↦ inl (mine, fresh, loose, still)
          | inr (one, kept, empty) ↦ inr (inr (mine, fresh, loose, one), kept, empty)
        ],
      )

  -- While the nonce is held, a fresh reservation stays fresh.
  kept-fresh : {X Y : Type 0} (s t : Nonces) → IsHeld s → X ⊎ (Y × IsHeld t × (s once ≡ none)) → X
  kept-fresh s t (e, at) (inl x) = x
  kept-fresh s t (e, at) (inr (y, kept, empty)) = absurd (none-some e (sym empty ∙ at))

  kept-still : {X : Type 0} (s t : Nonces) → IsHeld s → X ⊎ (IsHeld t × (s once ≡ none)) → X
  kept-still s t (e, at) (inl x) = x
  kept-still s t (e, at) (inr (kept, empty)) = absurd (none-some e (sym empty ∙ at))

  Moved-OneLoose :
      (cs : Calls) (s t : Nonces) (ps qs : List (Program Reserved))
      → Moved latest s ps t qs
      → AllLive latest once s
      → IsHeld s
      → OneLoose cs ps
      → (AllLive latest once t × Stays latest once s t) × OneLoose cs qs
  Moved-OneLoose [] s t _ _ (here turn) live kept one = absurd one
  Moved-OneLoose [] s t _ _ (there rest) live kept one = absurd one
  Moved-OneLoose (c ∷ cs) s t _ _ (here {p = p} {q = q} turn) live kept
        (inl (mine, loose, others)) =
      let after =
        Turn-Safe latest once (λ k. Unit {0}) c mine s t p q live loose turn (λ k e a b. tt) in
      (after.0, inl (mine, after.1, others))
  Moved-OneLoose (c ∷ cs) s t _ _ (here {p = p} {q = q} turn) live kept
        (inr (mine, fresh, loose, one)) =
      let (world, weak, kind) = fresh-Turn c s t p q mine live fresh loose turn in
      (world, inr (mine, kept-still s t kept kind, weak, one))
  Moved-OneLoose (c ∷ cs) s t _ _ (there {ps = ps} {qs = qs} rest) live kept
        (inl (mine, loose, others)) =
      let (world, kind) = Moved-AllFresh cs s t ps qs rest live others in
      (world, inl (mine, loose, kept-fresh s t kept kind))
  Moved-OneLoose (c ∷ cs) s t _ _ (there {ps = ps} {qs = qs} rest) live kept
        (inr (mine, fresh, loose, one)) =
      let (world, later) = Moved-OneLoose cs s t ps qs rest live kept one in
      (world, inr (mine, fresh, loose, later))

  empty-before : (s t : Nonces) → Stays latest once s t → t once ≡ none → s once ≡ none
  empty-before s t stays empty = elim (Option-cases (s once)) [
    | inl e ↦ e
    | inr (expiry, at) ↦ absurd (none-some expiry (sym empty ∙ stays expiry at))
  ]

  Reached-fresh :
      (cs : Calls) (s : Nonces) (ps : List (Program Reserved)) (t : Nonces)
      (qs : List (Program Reserved))
      → AllLive latest once s
      → AllFresh cs ps
      → Reached latest s ps t qs
      → FreshOrStored s t cs qs
  Reached-fresh cs s ps _ _ live fresh begun = ((live, λ expiry at. at), inl fresh)
  Reached-fresh cs s ps t qs live fresh (moved {t = r} {qs = rs} before last) =
      let (world, kind) = Reached-fresh cs s ps r rs live fresh before in
      elim kind [
        | inl still ↦
            let (later, next) = Moved-AllFresh cs r t rs qs last world.0 still in
            (
              (later.0, λ expiry at. later.1 expiry (world.1 expiry at)),
              elim next [
                | inl again ↦ inl again
                | inr (one, kept, empty) ↦ inr (one, kept, empty-before s r world.1 empty)
              ],
            )
        | inr (one, kept, empty) ↦
            let (later, next) = Moved-OneLoose cs r t rs qs last world.0 kept one in
            (
              (later.0, λ expiry at. later.1 expiry (world.1 expiry at)),
              inr (next, kept-Stays r t later.1 kept, empty),
            )
      ]

  programs-AllFresh : (cs : Calls) → All (IsMine latest once) cs → AllFresh cs (programs cs)
  unfolding programs
  programs-AllFresh [] mine = tt
  programs-AllFresh (c ∷ cs) mine = (
    mine.0,
    reserve_nonce-IsSafe (λ n. n ≤ latest) (Found latest once) (λ k. k ≢ once) c.0 c.1,
    reserve_nonce-IsSafe (λ n. n ≤ latest) (Found latest once) (λ k. Unit {0}) c.0 c.1,
    programs-AllFresh cs mine.1,
  )

  AllFresh-NoneGranted :
      (cs : Calls) (qs : List (Program Reserved)) → AllFresh cs qs → NoneGranted once cs qs
  unfolding IsSafe IsStored
  AllFresh-NoneGranted [] qs fresh = tt
  AllFresh-NoneGranted (c ∷ cs) [] fresh = tt
  AllFresh-NoneGranted (c ∷ cs) (q ∷ qs) (mine, fresh, loose, others) = (
    λ same granted. (subst (IsFresh latest once c) granted fresh) same,
    AllFresh-NoneGranted cs qs others,
  )

  none-one :
      (cs : Calls) (qs : List (Program Reserved)) → NoneGranted once cs qs → OneGranted once cs qs
  none-one [] qs h = tt
  none-one (c ∷ cs) [] h = tt
  none-one (c ∷ cs) (q ∷ qs) h = (λ same granted. h.1, none-one cs qs h.1)

  OneLoose-OneGranted :
      (cs : Calls) (qs : List (Program Reserved)) → OneLoose cs qs → OneGranted once cs qs
  unfolding IsSafe IsStored
  OneLoose-OneGranted [] qs one = tt
  OneLoose-OneGranted (c ∷ cs) [] one = tt
  OneLoose-OneGranted (c ∷ cs) (q ∷ qs) (inl (mine, loose, others)) =
      let rest = AllFresh-NoneGranted cs qs others in (λ same granted. rest, none-one cs qs rest)
  OneLoose-OneGranted (c ∷ cs) (q ∷ qs) (inr (mine, fresh, loose, one)) = (
    λ same granted. absurd ((subst (IsFresh latest once c) granted fresh) same),
    OneLoose-OneGranted cs qs one,
  )

  -- However the turns of any number of reservations come, each made with an expiry of its own, at most
  -- one of those that reserve a nonce is granted, as long as the clock does not pass the second after
  -- any expiry that the nonce is reserved with, or is stored with at first.
  pub nonce_single_use :
      (cs : Calls) (s t : Nonces) (qs : List (Program Reserved))
      → AllLive latest once s
      → All (IsMine latest once) cs
      → Reached latest s (programs cs) t qs
      → OneGranted once cs qs
  nonce_single_use cs s t qs live mine run =
      elim (Reached-fresh cs s (programs cs) t qs live (programs-AllFresh cs mine) run).1 [
        | inl fresh ↦ none-one cs qs (AllFresh-NoneGranted cs qs fresh)
        | inr (one, kept, empty) ↦ OneLoose-OneGranted cs qs one
      ]

  -- If the store holds the nonce at first, under the same condition on the clock, it goes on holding
  -- it, with its expiry, and no call that reserves it is granted.
  pub held_nonce_refused :
      (cs : Calls) (s t : Nonces) (qs : List (Program Reserved)) (expiry : ℕ)
      → s once ≡ some expiry
      → IsLive latest expiry
      → All (IsMine latest once) cs
      → Reached latest s (programs cs) t qs
      → (t once ≡ some expiry) × NoneGranted once cs qs
  held_nonce_refused cs s t qs expiry at live mine run =
      let all_live : AllLive latest once s =
        λ other e. subst (IsLive latest) (some-eq expiry other (sym at ∙ e)) live in
      let (world, kind) =
        Reached-fresh cs s (programs cs) t qs all_live (programs-AllFresh cs mine) run in
      (world.1 expiry at, AllFresh-NoneGranted cs qs (kept-fresh s t (expiry, at) kind))
