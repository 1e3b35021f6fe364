-- ===== src/Binding/Nonce/Key.antt =====
-- The storage key of a nonce: `nonce_storage_key` of approval-execution-binding/src/lib.rs. `utf8` gives a
-- text's bytes and `digest` the hexadecimal SHA-256 of some; a byte is a number below 256.
use mathlib.Core.List.{append_assoc}
use mathlib.Core.Path.{ap₂}
use agent_governance_policie.Prelude.{
  ℕ, zero, suc, ◌+◌, ◌*◌, ◌/◌, ◌%◌, ◌^◌, ◌<◌, ◌||◌, Option, none, some, List, [], ◌∷◌, ◌++◌, length,
  length-append, String, ltb, ◌==◌, if◌then◌else◌, ◌≡◌, ◌∙◌, ap, sym, refl, arith,
}
use agent_governance_policie.Binding.Record.{Binding, Envelope}
use agent_governance_policie.Binding.Evaluate.{max_nonce_bytes}

-- `to_be_bytes` of a number in so many bytes.
unfoldable pub be_bytes : ℕ → ℕ → List ℕ
be_bytes zero n = []
be_bytes (suc k) n = be_bytes k (n / 256) ++ (n % 256) ∷ []

-- A field behind its length.
unfoldable pub framed : List ℕ → List ℕ
unfolding be_bytes
framed field = be_bytes 8 (length field) ++ field

unfoldable pub frames : List (List ℕ) → List ℕ
unfolding framed
frames [] = []
frames (field ∷ fields) = framed field ++ frames fields

module _ (utf8 : String → List ℕ) where
  unfoldable pub key_fields : Binding → String → List (List ℕ)
  key_fields binding nonce =
      utf8 binding.expected_audience
      ∷ utf8 binding.expected_tenant
      ∷ utf8 binding.expected_environment
      ∷ utf8 nonce
      ∷ []

  -- What is digested.
  unfoldable pub preimage : Binding → String → List ℕ
  unfolding frames key_fields
  preimage binding nonce = utf8 "approval-nonce-v1" ++ frames (key_fields binding nonce)

  module _ (digest : List ℕ → String) where
    -- A nonce that is missing, empty or too long has no key.
    unfoldable pub key_of_nonce : Binding → Option String → Option String
    unfolding preimage
    key_of_nonce binding none = none
    key_of_nonce binding (some nonce) =
        if length (utf8 nonce) == 0 || ltb max_nonce_bytes (length (utf8 nonce))
        then none
        else some (digest (preimage binding nonce))

    unfoldable pub nonce_storage_key : Binding → Envelope → Option String
    unfolding key_of_nonce
    nonce_storage_key binding envelope = key_of_nonce binding envelope.approval.nonce

append_inj :
    (xs ys : List ℕ) {us vs : List ℕ}
    → length xs ≡ length ys
    → xs ++ us ≡ ys ++ vs
    → (xs ≡ ys) × (us ≡ vs)
append_inj [] [] n e = (refl, e)
append_inj [] (y ∷ ys) n e = absurd (omega arith)
append_inj (x ∷ xs) [] n e = absurd (omega arith)
append_inj (x ∷ xs) (y ∷ ys) {us} {vs} n e =
    let head : x ≡ y = cc in
    let rest : (xs ≡ ys) × (us ≡ vs) = append_inj xs ys (omega arith) (cc) in
    (ap₂ (λ (a : ℕ) (b : List ℕ). a ∷ b) head rest.0, rest.1)

length-be_bytes : (k n : ℕ) → length (be_bytes k n) ≡ k
unfolding be_bytes
length-be_bytes zero n = refl
length-be_bytes (suc k) n =
    omega (arith, length-append (be_bytes k (n / 256)) (n % 256 ∷ []), length-be_bytes k (n / 256))

div_lt : (k m : ℕ) → m < 256 ^ suc k → m / 256 < 256 ^ k
div_lt k m h = omega arith

last_eq : (a b m n : ℕ) → a ≡ b → ◌≡◌ {A = List ℕ} (m ∷ []) (n ∷ []) → a * 256 + m ≡ b * 256 + n
last_eq a b m n e h = let same : m ≡ n = cc in omega arith

-- A number that fits is determined by its bytes.
be_bytes_inj : (k m n : ℕ) → m < 256 ^ k → n < 256 ^ k → be_bytes k m ≡ be_bytes k n → m ≡ n
unfolding be_bytes
be_bytes_inj zero m n p q e = omega arith
be_bytes_inj (suc k) m n p q e =
    let parts =
      append_inj (be_bytes k (m / 256)) (be_bytes k (n / 256))
        (omega (arith, length-be_bytes k (m / 256), length-be_bytes k (n / 256))) e in
    omega (
      arith,
      last_eq (m / 256) (n / 256) (m % 256) (n % 256)
          (be_bytes_inj k (m / 256) (n / 256) (div_lt k m p) (div_lt k n q) parts.0) parts.1,
    )

-- A field is read back from behind its length.
framed_inj :
    (xs ys us vs : List ℕ)
    → length xs < 256 ^ 8
    → length ys < 256 ^ 8
    → framed xs ++ us ≡ framed ys ++ vs
    → (xs ≡ ys) × (us ≡ vs)
unfolding framed
framed_inj xs ys us vs p q e =
    let joined : be_bytes 8 (length xs) ++ (xs ++ us) ≡ be_bytes 8 (length ys) ++ (ys ++ vs) =
      sym (append_assoc (be_bytes 8 (length xs)) xs us)
      ∙ e
      ∙ append_assoc (be_bytes 8 (length ys)) ys vs in
    let parts =
      append_inj (be_bytes 8 (length xs)) (be_bytes 8 (length ys))
        (omega (arith, length-be_bytes 8 (length xs), length-be_bytes 8 (length ys))) joined in
    append_inj xs ys (be_bytes_inj 8 (length xs) (length ys) p q parts.0) parts.1

-- Every field is shorter than 2^64 bytes.
abbrev pub AllShort : List (List ℕ) → Type 0
AllShort [] = Unit
AllShort (field ∷ fields) = (length field < 256 ^ 8) × AllShort fields

frames_inj :
    (xs ys : List (List ℕ))
    → length xs ≡ length ys
    → AllShort xs
    → AllShort ys
    → frames xs ≡ frames ys
    → xs ≡ ys
unfolding frames
frames_inj [] [] n p q e = refl
frames_inj [] (y ∷ ys) n p q e = absurd (omega arith)
frames_inj (x ∷ xs) [] n p q e = absurd (omega arith)
frames_inj (x ∷ xs) (y ∷ ys) n p q e =
    let parts = framed_inj x y (frames xs) (frames ys) p.0 q.0 e in
    let rest = frames_inj xs ys (omega arith) p.1 q.1 parts.1 in
    ap₂ (λ (a : List ℕ) (b : List (List ℕ)). a ∷ b) parts.0 rest

-- Two texts that have the same bytes are the same.
abbrev pub Differs : (String → List ℕ) → String → String → Type 0
Differs utf8 s t = utf8 s ≡ utf8 t → s ≡ t

module _ (utf8 : String → List ℕ) (digest : List ℕ → String) where
  -- The bytes of the two approvals' fields tell them apart.
  abbrev pub TellsApart : Binding → Binding → String → String → Type 0
  TellsApart b c x y =
      Differs utf8 b.expected_audience c.expected_audience
      × Differs utf8 b.expected_tenant c.expected_tenant
      × Differs utf8 b.expected_environment c.expected_environment
      × Differs utf8 x y

  key-digest :
      (b : Binding) (d : Envelope) (x k : String)
      → d.approval.nonce ≡ some x
      → nonce_storage_key utf8 digest b d ≡ some k
      → digest (preimage utf8 b x) ≡ k
  unfolding nonce_storage_key key_of_nonce
  key-digest b d x k nonce e =
      let at_x : key_of_nonce utf8 digest b (some x) ≡ some k =
        ap (key_of_nonce utf8 digest b) (sym nonce) ∙ e in
      ground arith

  preimage_inj :
      (b c : Binding) (x y : String)
      → TellsApart b c x y
      → AllShort (key_fields utf8 b x)
      → AllShort (key_fields utf8 c y)
      → preimage utf8 b x ≡ preimage utf8 c y
      → (b.expected_audience ≡ c.expected_audience)
        × (b.expected_tenant ≡ c.expected_tenant)
        × (b.expected_environment ≡ c.expected_environment)
        × (x ≡ y)
  unfolding preimage key_fields
  preimage_inj b c x y texts shorts shorts' e =
      let framed_same = append_inj (utf8 "approval-nonce-v1") (utf8 "approval-nonce-v1") refl e in
      let same : key_fields utf8 b x ≡ key_fields utf8 c y =
        frames_inj (key_fields utf8 b x) (key_fields utf8 c y) refl shorts shorts' framed_same.1 in
      (texts.0 (cc), texts.1 (cc), texts.2 (cc), texts.3 (cc))

  -- Two approvals have one storage key only if they have the same nonce, for the same audience,
  -- tenant and environment, where the digest does not collide on what the two have digested, their
  -- texts differ in their bytes, and none is 2^64 bytes long.
  pub nonce_storage_key_inj :
      (b c : Binding) (d e : Envelope) (x y k : String)
      → TellsApart b c x y
      → AllShort (key_fields utf8 b x)
      → AllShort (key_fields utf8 c y)
      → (digest (preimage utf8 b x) ≡ digest (preimage utf8 c y)
          → preimage utf8 b x ≡ preimage utf8 c y)
      → d.approval.nonce ≡ some x
      → e.approval.nonce ≡ some y
      → nonce_storage_key utf8 digest b d ≡ some k
      → nonce_storage_key utf8 digest c e ≡ some k
      → (b.expected_audience ≡ c.expected_audience)
        × (b.expected_tenant ≡ c.expected_tenant)
        × (b.expected_environment ≡ c.expected_environment)
        × (x ≡ y)
  nonce_storage_key_inj b c d e x y k texts shorts shorts' apart first second p q =
      preimage_inj b c x y texts shorts shorts'
        (apart (key-digest b d x k first p ∙ sym (key-digest c e y k second q)))
