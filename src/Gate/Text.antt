-- ===== src/Gate/Text.antt =====
-- Texts put together as `format!` does it: a number is shown in decimal.
use Prim.Native.Nat.{ℕ, zero, suc, ◌+◌, ◌/◌, ◌%◌}
use Prim.Native.String.{String, ◌++◌, slice}
use text.Mathlib.Text.{find?}
use mathlib.Core.Bool.{Bool, true, false}
use mathlib.Core.Option.{none, some}
use mathlib.Core.List.{List, [], ◌∷◌}
use agent_governance_policie.Prelude.{ltb, if◌then◌else◌}

unfoldable pub concat : List String → String
concat [] = ""
concat (s ∷ ss) = s ++ concat ss

abbrev pub digit : ℕ → String
digit n = slice "0123456789" n (n + 1)

-- The last digits of a number, at most the given number of them.
unfoldable pub digits : ℕ → ℕ → String
digits zero n = ""
digits (suc k) n =
    let rest = digits k (n / 10) in if ltb n 10 then digit n else rest ++ digit (n % 10)

-- `{}` of a `u64`, which has at most 20 digits.
unfoldable pub show : ℕ → String
unfolding digits
show n = digits 20 n

-- `text.contains(part)`.
unfoldable pub contains : String → String → Bool
contains text part = elim (find? text part) [ none ↦ false | some _ ↦ true ]
