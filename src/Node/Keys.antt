-- ===== src/Node/Keys.antt =====
-- The keys of a namespace, as a sweep lists them: aggregate-risk-gate/src/node_ledger.rs.
use Prim.Native.Char.{code}
use Prim.Native.String.{String, compare, len, slice}
use text.Mathlib.Text.{starts_with, find?, is_lt, is_le, ◌==◌ as str_eq}
use agent_governance_policie.Prelude.{
  ℕ, ◌+◌, Bool, true, false, ◌&&◌, ◌||◌, Option, none, some, List, [], ◌∷◌, leb, ◌==◌,
  if◌then◌else◌,
}

abbrev pub is_hex : ℕ → Bool
is_hex c = leb 48 c && leb c 57 || leb 65 c && leb c 70 || leb 97 c && leb c 102

unfoldable pub all_hex : String → Bool
all_hex String.[] = true
all_hex (String.◌∷◌ c s) = is_hex (code c) && all_hex s

-- A text of a given length, all of it hexadecimal digits.
unfoldable pub is_hex_text : ℕ → String → Bool
unfolding all_hex
is_hex_text n s = len s == n && all_hex s

-- The text after a prefix.
unfoldable pub after : String → String → Option String
after prefix s = if starts_with s prefix then some (slice s (len prefix) (len s)) else none

unfoldable pub hex_after : String → ℕ → String → Bool
unfolding after is_hex_text
hex_after prefix n s = elim (after prefix s) [ none ↦ false | some rest ↦ is_hex_text n rest ]

unfoldable pub is_ledger_suffix : String → Bool
unfolding hex_after
is_ledger_suffix s =
    str_eq s "n" || str_eq s "m" || str_eq s "sweep" || hex_after "s:" 64 s || hex_after "c:" 32 s

unfoldable pub is_foreign_ledger_key : String → String → Bool
unfolding is_hex_text is_ledger_suffix
is_foreign_ledger_key key own_prefix =
    if starts_with key own_prefix then false else (elim (find? key "/") [
      | none ↦ false
      | some at ↦ is_hex_text 16 (slice key 0 at) && is_ledger_suffix (slice key (at + 1) (len key))
    ])

unfoldable pub any_foreign : String → List String → Bool
unfolding is_foreign_ledger_key
any_foreign prefix [] = false
any_foreign prefix (k ∷ ks) = is_foreign_ledger_key k prefix || any_foreign prefix ks

-- The keys of scopes and markers.
unfoldable pub swept_keys : String → String → List String → List String
swept_keys scopes markers [] = []
swept_keys scopes markers (k ∷ ks) =
    let rest = swept_keys scopes markers ks in
    if starts_with k scopes || starts_with k markers then k ∷ rest else rest

unfoldable pub insert_sorted : String → List String → List String
insert_sorted k [] = k ∷ []
insert_sorted k (j ∷ js) =
    let rest = insert_sorted k js in if is_le (compare k j) then k ∷ j ∷ js else j ∷ rest

unfoldable pub sort : List String → List String
unfolding insert_sorted
sort [] = []
sort (k ∷ ks) = insert_sorted k (sort ks)

-- The keys after the cursor of a sweep that stopped.
unfoldable pub past_cursor : Option String → List String → List String
past_cursor none ks = ks
past_cursor (some cursor) [] = []
past_cursor (some cursor) (k ∷ ks) =
    let rest = past_cursor (some cursor) ks in if is_lt (compare cursor k) then k ∷ rest else rest
