-- ===== src/Ledger/Index.antt =====
-- The idle index, a `BTreeSet<(u64, String)>`: a list in the order of the pairs, with no pair
-- twice. Texts are compared byte by byte.
use Prim.Native.Nat.{compare, Ordering}
use Prim.Native.String.{compare as compare_text}
use agent_governance_policie.Prelude.{ℕ, Bool, ◌&&◌, List, [], ◌∷◌, ◌==◌, if◌then◌else◌, String}
use text.Mathlib.Text.{◌==◌ as str_eq}

-- The order of the pairs.
unfoldable pub compare_entry : ℕ × String → ℕ × String → Ordering
compare_entry (a, k) (b, j) = elim (compare a b) [
  | Ordering.lt ↦ Ordering.lt
  | Ordering.eq ↦ compare_text k j
  | Ordering.gt ↦ Ordering.gt
]

unfoldable pub add_entry : ℕ × String → List (ℕ × String) → List (ℕ × String)
unfolding compare_entry
add_entry e [] = e ∷ []
add_entry e (f ∷ rest) = elim (compare_entry e f) [
  | Ordering.lt ↦ e ∷ f ∷ rest
  | Ordering.eq ↦ f ∷ rest
  | Ordering.gt ↦ f ∷ add_entry e rest
]

abbrev pub same_entry : ℕ × String → ℕ × String → Bool
same_entry (a, k) (b, j) = a == b && str_eq k j

unfoldable pub remove_entry : ℕ × String → List (ℕ × String) → List (ℕ × String)
remove_entry e [] = []
remove_entry e (f ∷ rest) =
    let kept = remove_entry e rest in if same_entry e f then kept else f ∷ kept
