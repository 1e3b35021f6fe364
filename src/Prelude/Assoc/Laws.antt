-- ===== src/Prelude/Assoc/Laws.antt =====
-- The laws of association lists.
use Prim.Native.Nat.{ℕ, ◌+◌, ◌≤◌}
use mathlib.Core.Path.{◌≡◌, refl, ap, ◌∙◌}
use mathlib.Core.Logic.{◌≢◌, inl, inr, ite, if_pos, if_neg}
use mathlib.Core.Bool.{Bool, true, false, not}
use mathlib.Core.Option.{none, some}
use mathlib.Core.List.{List, [], ◌∷◌}
use native.Mathlib.Omega.{arith}
use agent_governance_policie.Prelude.Lists.{length, All}
use agent_governance_policie.Prelude.Tests.{if◌then◌else◌, Bool-cases}
use agent_governance_policie.Prelude.Assoc.{
  keys, retain, sum_by, AllValues, get, remove, insert, Distinct,
}

module _ {ℓ} {K V : Type ℓ} where
  pub length-retain-le : (p : V → Bool) (m : List (K × V)) → length (retain p m) ≤ length m
  unfolding retain
  length-retain-le p [] = omega arith
  length-retain-le p ((k, v) ∷ m) = ground (arith, length-retain-le p m)

  pub length-retain :
      (p : V → Bool) (m : List (K × V))
      → length (retain p m) + length (retain (λ v. not (p v)) m) ≡ length m
  unfolding retain
  length-retain p [] = omega arith
  length-retain p ((k, v) ∷ m) = ground (arith, length-retain p m)

  pub sum_by-retain :
      (f : V → ℕ) (p : V → Bool) (m : List (K × V))
      → sum_by f (retain p m) + sum_by f (retain (λ v. not (p v)) m) ≡ sum_by f m
  unfolding retain sum_by
  sum_by-retain f p [] = omega arith
  sum_by-retain f p ((k, v) ∷ m) = ground (arith, sum_by-retain f p m)

  pub sum_by-retain-le :
      (f : V → ℕ) (p : V → Bool) (m : List (K × V)) → sum_by f (retain p m) ≤ sum_by f m
  unfolding retain sum_by
  sum_by-retain-le f p [] = omega arith
  sum_by-retain-le f p ((k, v) ∷ m) = ground (arith, sum_by-retain-le f p m)

  pub retain_none :
      (p : V → Bool) (m : List (K × V)) → AllValues (λ v. p v ≡ false) m → retain p m ≡ []
  unfolding retain
  retain_none p [] h = refl
  retain_none p ((k, v) ∷ m) h = ground (arith, retain_none p m h.1)

  pub retain_all :
      (p : V → Bool) (m : List (K × V)) → AllValues (λ v. p v ≡ true) m → retain p m ≡ m
  unfolding retain
  retain_all p [] h = refl
  retain_all p ((k, v) ∷ m) h = ground (arith, retain_all p m h.1)

  module _ {μ} (P : V → Type μ) where
    pub AllValues-retain :
        (p : V → Bool) (m : List (K × V)) → AllValues P m → AllValues P (retain p m)
    unfolding retain
    AllValues-retain p [] h = h
    AllValues-retain p ((k, v) ∷ m) h =
        elim (p v) as (λ b. AllValues P (if b then (k, v) ∷ retain p m else retain p m)) [
          | true ↦ (h.0, AllValues-retain p m h.1)
          | false ↦ AllValues-retain p m h.1
        ]

module _ {ℓ} {K V : Type ℓ} (dec : Discrete K) where
  pub sum_by-remove :
      (f : V → ℕ) (k : K) (m : List (K × V)) {v : V}
      → get dec k m ≡ some v
      → sum_by f m ≡ f v + sum_by f (remove dec k m)
  unfolding get remove sum_by
  sum_by-remove f k [] h = absurd (ground arith)
  sum_by-remove f k ((j, w) ∷ m) {v} h = ground (arith, sum_by-remove f k m {v = v})

  pub sum_by-remove-le :
      (f : V → ℕ) (k : K) (m : List (K × V)) → sum_by f (remove dec k m) ≤ sum_by f m
  unfolding remove sum_by
  sum_by-remove-le f k [] = omega arith
  sum_by-remove-le f k ((j, w) ∷ m) = ground (arith, sum_by-remove-le f k m)

  pub length-remove :
      (k : K) (m : List (K × V)) {v : V}
      → get dec k m ≡ some v
      → length m ≡ length (remove dec k m) + 1
  unfolding get remove
  length-remove k [] h = absurd (ground arith)
  length-remove k ((j, w) ∷ m) {v} h = ground (arith, length-remove k m {v = v})

  pub remove_absent : (k : K) (m : List (K × V)) → get dec k m ≡ none → remove dec k m ≡ m
  unfolding get remove
  remove_absent k [] h = refl
  remove_absent k ((j, w) ∷ m) h = ground (arith, remove_absent k m)

  pub get-remove_ne :
      (k j : K) (m : List (K × V)) → j ≢ k → get dec j (remove dec k m) ≡ get dec j m
  unfolding get remove
  get-remove_ne k j [] h = refl
  get-remove_ne k j ((i, w) ∷ m) h = ground (arith, get-remove_ne k j m)

  pub get-remove_absent :
      (k j : K) (m : List (K × V)) → get dec j m ≡ none → get dec j (remove dec k m) ≡ none
  unfolding get remove
  get-remove_absent k j [] h = refl
  get-remove_absent k j ((i, w) ∷ m) h = ground (arith, get-remove_absent k j m)

  pub get-remove_self :
      (k : K) (m : List (K × V)) → Distinct dec m → get dec k (remove dec k m) ≡ none
  unfolding get remove
  get-remove_self k [] d = refl
  get-remove_self k ((i, w) ∷ m) d = ground (arith, get-remove_self k m d.1)

  pub Distinct-remove : (k : K) (m : List (K × V)) → Distinct dec m → Distinct dec (remove dec k m)
  unfolding get remove
  Distinct-remove k [] d = d
  Distinct-remove k ((i, w) ∷ m) d = elim (dec i k) [
    | yes p ↦ rw (if_pos _ p) d.1
    | no p ↦ rw (if_neg _ p) (get-remove_absent k i m d.0, Distinct-remove k m d.1)
  ]

  pub Distinct-insert :
      (k : K) (v : V) (m : List (K × V)) → Distinct dec m → Distinct dec (insert dec k v m)
  unfolding insert
  Distinct-insert k v m d = (get-remove_self k m d, Distinct-remove k m d)

  pub get-insert :
      (k j : K) (v : V) (m : List (K × V))
      → get dec j (insert dec k v m) ≡ ite (dec k j) (some v) (get dec j m)
  unfolding get insert
  get-insert k j v m = ground (arith, get-remove_ne k j m)

  pub get-retain_absent :
      (k : K) (p : V → Bool) (m : List (K × V)) → get dec k m ≡ none → get dec k (retain p m) ≡ none
  unfolding get retain
  get-retain_absent k p [] h = refl
  get-retain_absent k p ((i, w) ∷ m) h = ground (arith, get-retain_absent k p m)

  pub Distinct-retain :
      (p : V → Bool) (m : List (K × V)) → Distinct dec m → Distinct dec (retain p m)
  unfolding retain
  Distinct-retain p [] d = d
  Distinct-retain p ((k, v) ∷ m) d =
      elim (p v) as (λ b. Distinct dec (if b then (k, v) ∷ retain p m else retain p m)) [
        | true ↦ (get-retain_absent k p m d.0, Distinct-retain p m d.1)
        | false ↦ Distinct-retain p m d.1
      ]

  module _ {μ} (P : V → Type μ) where
    pub AllValues-remove : (k : K) (m : List (K × V)) → AllValues P m → AllValues P (remove dec k m)
    unfolding remove
    AllValues-remove k [] h = h
    AllValues-remove k ((i, w) ∷ m) h = elim (dec i k) [
      | yes p ↦ rw (if_pos _ p) h.1
      | no p ↦ rw (if_neg _ p) (h.0, AllValues-remove k m h.1)
    ]

    pub AllValues-get :
        (k : K) (m : List (K × V)) {v : V} → AllValues P m → get dec k m ≡ some v → P v
    unfolding get
    AllValues-get k [] h e = absurd (ground arith)
    AllValues-get k ((i, w) ∷ m) {v} h e = ground (arith, AllValues-get k m {v = v} h.1)

  -- Removing the keys of the entries that a test selects keeps the others, in order.
  unfoldable pub remove_all : List K → List (K × V) → List (K × V)
  remove_all [] m = m
  remove_all (k ∷ ks) m = remove_all ks (remove dec k m)

  remove_all-cons :
      (ks : List K) (k : K) (v : V) (m : List (K × V))
      → All (λ j. k ≢ j) ks
      → remove_all ks ((k, v) ∷ m) ≡ (k, v) ∷ remove_all ks m
  unfolding remove_all remove
  remove_all-cons [] k v m h = refl
  remove_all-cons (j ∷ ks) k v m h =
      rw (if_neg (dec k j) h.0) (remove_all-cons ks k v (remove dec j m) h.1)

  remove_self : (k : K) (v : V) (m : List (K × V)) → remove dec k ((k, v) ∷ m) ≡ m
  unfolding remove
  remove_self k v m = if_pos (dec k k) refl m _

  keys-retain-ne :
      (p : V → Bool) (k : K) (m : List (K × V))
      → get dec k m ≡ none
      → All (λ j. k ≢ j) (keys (retain p m))
  unfolding get retain
  keys-retain-ne p k [] h = tt
  keys-retain-ne p k ((i, w) ∷ m) h =
      let rest = keys-retain-ne p k m (ground arith) in
      elim (p w) as (λ b. All (λ j. k ≢ j) (keys (if b then (i, w) ∷ retain p m else retain p m))) [
        | true ↦ (λ e. ground arith, rest)
        | false ↦ rest
      ]

  pub remove_all-keys :
      (p : V → Bool) (m : List (K × V))
      → Distinct dec m
      → remove_all (keys (retain p m)) m ≡ retain (λ v. not (p v)) m
  unfolding remove_all retain
  remove_all-keys p [] d = refl
  remove_all-keys p ((k, v) ∷ m) d = elim (Bool-cases (p v)) [
    | inl e ↦
        rw e (ap (remove_all (keys (retain p m))) (remove_self k v m) ∙ remove_all-keys p m d.1)
    | inr e ↦ rw e (
        remove_all-cons (keys (retain p m)) k v m (keys-retain-ne p k m d.0)
        ∙ ap (◌∷◌ (k, v)) (remove_all-keys p m d.1))
  ]
