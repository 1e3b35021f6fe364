-- ===== src/Binding/Freshness.antt =====
-- P4: `check_freshness_at` of approval-execution-binding/src/lib.rs. An instant is the nanoseconds since
-- chrono's first one, `last` chrono's last one, and `parse_instant` its `parse_from_rfc3339`.
use agent_governance_policie.Prelude.{
  ℕ, ◌+◌, ◌*◌, ◌≤◌, ◌≡◌, inl, inr, Bool, true, false, Bool-cases, Option, none, some, Option-cases,
  String, ltb, leb, if◌then◌else◌, Result, ok, err, arith, leb→le,
}
use agent_governance_policie.Binding.Record.{ApprovalRecord}

abbrev pub max_clock_skew_seconds : ℕ
max_clock_skew_seconds = 3600

abbrev pub nanoseconds : ℕ
nanoseconds = 1000000000

pub data FreshnessError : Type 0 where
  no_not_after malformed skew_range expired too_long : FreshnessError

module _ (last : ℕ) (parse_instant : String → Option ℕ) where
  -- `checked_add_signed` of a number of seconds; `try_seconds` refuses only more than chrono's whole range.
  unfoldable pub later : ℕ → ℕ → Option ℕ
  later instant seconds =
      let sum = instant + seconds * nanoseconds in if leb sum last then some sum else none

  unfoldable pub past_deadline : ℕ → ℕ → ℕ → Bool
  unfolding later
  past_deadline not_after skew now = elim (later not_after skew) [
    | none ↦ false
    | some deadline ↦ ltb deadline now
  ]

  -- Whether the approval ends inside the configured lifetime, which is off where it is absent.
  unfoldable pub within_lifetime : ℕ → ℕ → Option ℕ → ℕ → Bool
  unfolding later
  within_lifetime not_after skew none now = true
  within_lifetime not_after skew (some lifetime) now = elim (later now lifetime) [
    | none ↦ false
    | some ends ↦ elim (later ends skew) [ none ↦ false | some latest ↦ leb not_after latest ]
  ]

  unfoldable pub check_instant : ℕ → ℕ → Option ℕ → ℕ → Result (Unit {0}) FreshnessError
  unfolding past_deadline within_lifetime
  check_instant not_after skew lifetime now =
      if leb skew max_clock_skew_seconds
      then (if past_deadline not_after skew now
          then err FreshnessError.expired
          else (if within_lifetime not_after skew lifetime now
              then ok tt
              else err FreshnessError.too_long))
      else err FreshnessError.skew_range

  unfoldable pub check_freshness_at :
      ApprovalRecord → ℕ → Option ℕ → ℕ → Result (Unit {0}) FreshnessError
  unfolding check_instant
  check_freshness_at approval skew lifetime now = elim approval.not_after [
    | none ↦ err FreshnessError.no_not_after
    | some raw ↦ elim (parse_instant raw) [
      | none ↦ err FreshnessError.malformed
      | some not_after ↦ check_instant not_after skew lifetime now
    ]
  ]

  -- The call is made by the end of the approval plus the skew, and the approval ends by the end of
  -- the lifetime plus the skew.
  unfoldable pub IsFresh : ℕ → ℕ → Option ℕ → ℕ → Type 0
  IsFresh not_after skew lifetime now =
      (skew ≤ max_clock_skew_seconds) × (now ≤ not_after + skew * nanoseconds) × (elim lifetime [
        | none ↦ Unit {0}
        | some seconds ↦ not_after ≤ now + seconds * nanoseconds + skew * nanoseconds
      ])

  within_lifetime-le :
      (not_after skew seconds now : ℕ)
      → within_lifetime not_after skew (some seconds) now ≡ true
      → not_after ≤ now + seconds * nanoseconds + skew * nanoseconds
  unfolding within_lifetime later
  within_lifetime-le not_after skew seconds now h = ground (arith, h)

  past_deadline-le :
      (not_after skew now : ℕ)
      → now ≤ last
      → past_deadline not_after skew now ≡ false
      → now ≤ not_after + skew * nanoseconds
  unfolding past_deadline later
  past_deadline-le not_after skew now top h = ground (arith, h)

  check_instant-IsFresh :
      (not_after skew : ℕ) (lifetime : Option ℕ) (now : ℕ)
      → now ≤ last
      → check_instant not_after skew lifetime now ≡ ok tt
      → IsFresh not_after skew lifetime now
  unfolding check_instant IsFresh
  check_instant-IsFresh not_after skew lifetime now top h =
      elim (Bool-cases (leb skew max_clock_skew_seconds)) [
        | inr e ↦ absurd (ground (arith, rw (e, check_instant) at h))
        | inl e ↦ elim (Bool-cases (past_deadline not_after skew now)) [
          | inl f ↦ absurd (ground (arith, rw (e, f, check_instant) at h))
          | inr f ↦ elim (Bool-cases (within_lifetime not_after skew lifetime now)) [
            | inr g ↦ absurd (ground (arith, rw (e, f, g, check_instant) at h))
            | inl g ↦ (
              leb→le skew max_clock_skew_seconds e,
              past_deadline-le not_after skew now top f,
              lifetime_of lifetime g,
            )
          ]
        ]
      ]
    where
      lifetime_of :
          (l : Option ℕ) → within_lifetime not_after skew l now ≡ true → elim l as (λ _. Type 0) [
            | none ↦ Unit {0}
            | some seconds ↦ not_after ≤ now + seconds * nanoseconds + skew * nanoseconds
          ]
      lifetime_of none g = tt
      lifetime_of (some seconds) g = within_lifetime-le not_after skew seconds now g

  -- An approval that passes the freshness check, at an instant that chrono has, names an end that
  -- parses; the skew is in its bound, the instant is at most that end plus the skew, and with a
  -- lifetime configured the end is at most the instant plus the lifetime and the skew. No overflow
  -- of the dates lets an approval through.
  pub check_freshness_at_lem :
      (approval : ApprovalRecord) (skew : ℕ) (lifetime : Option ℕ) (now : ℕ)
      → now ≤ last
      → check_freshness_at approval skew lifetime now ≡ ok tt
      → (raw : String) × (not_after : ℕ) × (approval.not_after ≡ some raw)
        × (parse_instant raw ≡ some not_after)
        × IsFresh not_after skew lifetime now
  unfolding check_freshness_at
  check_freshness_at_lem approval skew lifetime now top h = elim (Option-cases approval.not_after) [
    | inl e ↦ absurd (ground (arith, rw (e, check_freshness_at) at h))
    | inr (raw, e) ↦ elim (Option-cases (parse_instant raw)) [
      | inl f ↦ absurd (ground (arith, rw (e, f, check_freshness_at) at h))
      | inr (not_after, f) ↦ (
        raw,
        not_after,
        e,
        f,
        check_instant-IsFresh not_after skew lifetime now top (rw (e, f, check_freshness_at) at h),
      )
    ]
  ]
