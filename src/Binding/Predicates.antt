-- ===== src/Binding/Predicates.antt =====
-- The predicates and the set of those that an operator requires: `Predicate` and `PredicateSet` of
-- approval-execution-binding/src/lib.rs.
use agent_governance_policie.Prelude.{
  ◌≡◌, refl, Bool, true, Option, none, some, List, [], ◌∷◌, String, string_discrete, ite,
  if◌then◌else◌,
}

pub data Predicate : Type 0 where
  p1 p2 p4 p5 p6 : Predicate

abbrev pub all : List Predicate
all = Predicate.p1 ∷ Predicate.p2 ∷ Predicate.p4 ∷ Predicate.p5 ∷ Predicate.p6 ∷ []

unfoldable pub as_str : Predicate → String
as_str Predicate.p1 = "P1"
as_str Predicate.p2 = "P2"
as_str Predicate.p4 = "P4"
as_str Predicate.p5 = "P5"
as_str Predicate.p6 = "P6"

unfoldable pub find_named : String → List Predicate → Option Predicate
unfolding as_str
find_named value [] = none
find_named value (p ∷ ps) = ite (string_discrete (as_str p) value) (some p) (find_named value ps)

unfoldable pub parse : String → Option Predicate
unfolding find_named
parse value = find_named value all

-- The array of five flags, by the predicate that `index` gives each place to.
pub record PredicateSet : Type 0 where
  pub at_p1 : Bool
  pub at_p2 : Bool
  pub at_p4 : Bool
  pub at_p5 : Bool
  pub at_p6 : Bool

unfoldable pub insert : PredicateSet → Predicate → PredicateSet
insert set Predicate.p1 = record set { at_p1 = true }
insert set Predicate.p2 = record set { at_p2 = true }
insert set Predicate.p4 = record set { at_p4 = true }
insert set Predicate.p5 = record set { at_p5 = true }
insert set Predicate.p6 = record set { at_p6 = true }

unfoldable pub contains : PredicateSet → Predicate → Bool
contains set Predicate.p1 = set.at_p1
contains set Predicate.p2 = set.at_p2
contains set Predicate.p4 = set.at_p4
contains set Predicate.p5 = set.at_p5
contains set Predicate.p6 = set.at_p6

unfoldable pub first_of : PredicateSet → List Predicate → Option Predicate
unfolding contains
first_of set [] = none
first_of set (p ∷ ps) = if contains set p then some p else first_of set ps

unfoldable pub first : PredicateSet → Option Predicate
unfolding first_of
first set = first_of set all

-- `parse` reads each predicate back from the name that `as_str` gives it.
pub parse-as_str : (p : Predicate) → parse (as_str p) ≡ some p
unfolding parse find_named as_str string_discrete
parse-as_str Predicate.p1 = refl
parse-as_str Predicate.p2 = refl
parse-as_str Predicate.p4 = refl
parse-as_str Predicate.p5 = refl
parse-as_str Predicate.p6 = refl
