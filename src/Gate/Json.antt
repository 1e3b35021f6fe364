-- ===== src/Gate/Json.antt =====
-- A JSON document as `serde_json::Value` gives it to aggregate-risk-gate/src/lib.rs, and the questions
-- that the gate asks of one: the members of an object stand in the order of the document.
use agent_governance_policie.Prelude.{
  ℕ, Option, none, some, Bool, true, false, not, ◌&&◌, List, [], ◌∷◌, String, string_discrete, ite,
}

-- A number as `serde_json` keeps it: an unsigned one, minus an unsigned one, or the text of a float.
pub data Number : Type 0 where
  unsigned : ℕ → Number
  negative : ℕ → Number
  float : String → Number

mutual
  pub data Value : Type 0 where
    null : Value
    bool : Bool → Value
    number : Number → Value
    string : String → Value
    array : Items → Value
    object : Fields → Value

  pub data Items : Type 0 where
    nil : Items
    cons : Value → Items → Items

  pub data Fields : Type 0 where
    end : Fields
    field : String → Value → Fields → Fields

abbrev pub items_of : Items → List Value
items_of nil = []
items_of (cons v vs) = v ∷ items_of vs

abbrev pub array_of : List Value → Items
array_of [] = nil
array_of (v ∷ vs) = cons v (array_of vs)

-- The names of an object's members that follow a given one.
unfoldable pub member : String → Fields → Option Value
member key end = none
member key (field k v fs) = ite (string_discrete k key) (some v) (member key fs)

unfoldable pub contains_key : String → Fields → Bool
unfolding member
contains_key key fs = elim (member key fs) [ none ↦ false | some _ ↦ true ]

abbrev pub as_object : Value → Option Fields
as_object (object fs) = some fs
as_object _ = none

abbrev pub as_str : Value → Option String
as_str (string s) = some s
as_str _ = none

abbrev pub as_u64 : Value → Option ℕ
as_u64 (number (unsigned n)) = some n
as_u64 _ = none

-- `item.get(key)`.
unfoldable pub get_member : Value → String → Option Value
unfolding member
get_member v key = elim (as_object v) [ none ↦ none | some fs ↦ member key fs ]

unfoldable pub text_is : Option String → String → Bool
text_is none t = false
text_is (some s) t = ite (string_discrete s t) true false

-- `get(key).and_then(Value::as_str) == Some(text)`.
unfoldable pub member_is : Fields → String → String → Bool
unfolding member text_is
member_is fs key t = elim (member key fs) [ none ↦ false | some v ↦ text_is (as_str v) t ]

-- `NoDuplicateMembers`: no object of the document names a member twice.
unfoldable mutual
  unfolding contains_key

  pub no_duplicates : Value → Bool
  no_duplicates (array vs) = no_duplicate_items vs
  no_duplicates (object fs) = no_duplicate_fields fs
  no_duplicates _ = true

  pub no_duplicate_items : Items → Bool
  no_duplicate_items nil = true
  no_duplicate_items (cons v vs) = no_duplicates v && no_duplicate_items vs

  pub no_duplicate_fields : Fields → Bool
  no_duplicate_fields end = true
  no_duplicate_fields (field k v fs) =
      not (contains_key k fs) && no_duplicates v && no_duplicate_fields fs
