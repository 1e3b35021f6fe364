-- ===== src/Gate/Identity.antt =====
-- The canonical form of an identity: `canonical_identity` of aggregate-risk-gate/src/lib.rs, on the bytes
-- of a text's UTF-8, in which a space, a tab and the visible ASCII characters are one byte each.
use agent_governance_policie.Prelude.{
  ℕ, ◌+◌, ◌≤◌, ◌≡◌, refl, Bool, true, false, not, ◌&&◌, ◌||◌, Bool-cases, inl, inr, List, [], ◌∷◌,
  map, length, length-map, is_empty, leb, leb→le, ◌==◌, if◌then◌else◌, arith,
}

pub data Canonical : Type 0 where
  scope : List ℕ → Canonical
  missing invalid : Canonical

abbrev pub max_identity_bytes : ℕ
max_identity_bytes = 256

unfoldable pub is_blank : ℕ → Bool
is_blank b = b == 32 || b == 9

-- A visible ASCII character other than `,` `;` `=` `"` and `\`.
unfoldable pub is_allowed : ℕ → Bool
is_allowed b = leb 33 b && leb b 126 && not (b == 44 || b == 59 || b == 61 || b == 34 || b == 92)

unfoldable pub trim_start : List ℕ → List ℕ
unfolding is_blank
trim_start [] = []
trim_start (b ∷ bs) = let rest = trim_start bs in if is_blank b then rest else b ∷ bs

unfoldable pub trim_end : List ℕ → List ℕ
unfolding is_blank
trim_end [] = []
trim_end (b ∷ bs) = let rest = trim_end bs in if is_empty rest && is_blank b then [] else b ∷ rest

unfoldable pub all_allowed : List ℕ → Bool
unfolding is_allowed
all_allowed [] = true
all_allowed (b ∷ bs) = is_allowed b && all_allowed bs

-- `to_ascii_lowercase` of a byte.
unfoldable pub lower : ℕ → ℕ
lower b = if leb 65 b && leb b 90 then b + 32 else b

-- The identity of trimmed bytes.
unfoldable pub canonical_of : List ℕ → Canonical
unfolding all_allowed lower
canonical_of [] = Canonical.missing
canonical_of (b ∷ bs) =
    if leb (length (b ∷ bs)) max_identity_bytes && all_allowed (b ∷ bs)
    then Canonical.scope (map lower (b ∷ bs))
    else Canonical.invalid

unfoldable pub canonical_identity : List ℕ → Canonical
unfolding canonical_of trim_start trim_end
canonical_identity raw = canonical_of (trim_start (trim_end raw))

not_blank : (b : ℕ) → is_allowed b ≡ true → is_blank b ≡ false
unfolding is_allowed is_blank
not_blank b h = ground (arith, h)

lower-allowed : (b : ℕ) → is_allowed b ≡ true → is_allowed (lower b) ≡ true
unfolding is_allowed lower
lower-allowed b h = ground (arith, h)

lower-lower : (b : ℕ) → lower (lower b) ≡ lower b
unfolding lower
lower-lower b = ground arith

and-both : (a b : Bool) → a && b ≡ true → (a ≡ true) × (b ≡ true)
and-both true b h = (refl, h)
and-both false b h = absurd (ground (arith, h))

map-lower-allowed : (bs : List ℕ) → all_allowed bs ≡ true → all_allowed (map lower bs) ≡ true
unfolding all_allowed
map-lower-allowed [] h = refl
map-lower-allowed (b ∷ bs) h =
    let both = and-both (is_allowed b) (all_allowed bs) h in
    rw (lower-allowed b both.0) (map-lower-allowed bs both.1)

map-lower-map-lower : (bs : List ℕ) → map lower (map lower bs) ≡ map lower bs
map-lower-map-lower [] = refl
map-lower-map-lower (b ∷ bs) = rw (lower-lower b, map-lower-map-lower bs)

trim_end-allowed : (bs : List ℕ) → all_allowed bs ≡ true → trim_end bs ≡ bs
unfolding all_allowed trim_end
trim_end-allowed [] h = refl
trim_end-allowed (b ∷ bs) h =
    let both = and-both (is_allowed b) (all_allowed bs) h in
    rw (not_blank b both.0, trim_end-allowed bs both.1) (ground arith)

trim_start-allowed : (bs : List ℕ) → all_allowed bs ≡ true → trim_start bs ≡ bs
unfolding all_allowed trim_start
trim_start-allowed [] h = refl
trim_start-allowed (b ∷ bs) h =
    let both = and-both (is_allowed b) (all_allowed bs) h in rw (not_blank b both.0)

canonical_of-scope :
    (bs key : List ℕ)
    → canonical_of bs ≡ Canonical.scope key
    → (leb (length bs) max_identity_bytes ≡ true) × (all_allowed bs ≡ true) × (key ≡ map lower bs)
unfolding canonical_of
canonical_of-scope [] key h = absurd (ground (arith, h))
canonical_of-scope (b ∷ bs) key h =
    elim (Bool-cases (leb (length (b ∷ bs)) max_identity_bytes && all_allowed (b ∷ bs))) [
      | inr e ↦ absurd (ground (arith, rw (e, canonical_of) at h))
      | inl e ↦
          let both = and-both _ _ e in (both.0, both.1, ground (arith, rw (e, canonical_of) at h))
    ]

canonical_of-again :
    (bs key : List ℕ)
    → canonical_of bs ≡ Canonical.scope key
    → canonical_of (map lower bs) ≡ Canonical.scope (map lower bs)
unfolding canonical_of
canonical_of-again [] key h = absurd (ground (arith, h))
canonical_of-again (b ∷ bs) key h =
    let (small, allowed, same) = canonical_of-scope (b ∷ bs) key h in
    let again = map-lower-allowed (b ∷ bs) allowed in
    let size : leb (length (map lower (b ∷ bs))) max_identity_bytes ≡ true =
      rw (length-map (b ∷ bs) lower) small in
    rw (size, again, map-lower-map-lower (b ∷ bs), canonical_of)

-- A key is canonical: it has at most 256 bytes, all of them visible and none a delimiter,
-- lower-casing changes nothing in it, and presented as an identity it is its own key.
pub canonical_identity_twice :
    (raw key : List ℕ)
    → canonical_identity raw ≡ Canonical.scope key
    → (length key ≤ max_identity_bytes)
      × (all_allowed key ≡ true)
      × (map lower key ≡ key)
      × (canonical_identity key ≡ Canonical.scope key)
unfolding canonical_identity
canonical_identity_twice raw key h =
    let bs = trim_start (trim_end raw) in
    let (small, allowed, same) = canonical_of-scope bs key h in
    let again = map-lower-allowed bs allowed in
    rw same (
      rw (length-map bs lower) (leb→le (length bs) max_identity_bytes small),
      again,
      map-lower-map-lower bs,
      rw (trim_end-allowed (map lower bs) again, trim_start-allowed (map lower bs) again)
          (canonical_of-again bs key h),
    )
