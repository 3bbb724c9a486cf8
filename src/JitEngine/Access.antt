-- ===== src/JitEngine/Access.antt =====
-- How the engine reads a JSON value: `contains`, `value`, `get` and the iteration of `nlohmann::json`.
use topo_llvm.Prelude.{
  Bool, false, Option, none, some, List, [], ◌∷◌, ◌>>=◌, if◌then◌else◌, is_some, Bytes, same,
}
use topo_llvm.Json.Value.{
  Value, null, boolean, text, array, object, Values, no_values, then_value, Members, no_members,
  then_member,
}

-- A function on each entry, as long as none fails.
abbrev pub each {ℓ κ} : {A : Type ℓ} {B : Type κ} → (A → Option B) → List A → Option (List B)
each f [] = some []
each f (x ∷ xs) = do y ← f x; ys ← each f xs; some (y ∷ ys)

module _ {Double : Type 0} where
  unfoldable pub find_member : Bytes → Members Double → Option (Value Double)
  find_member key no_members = none
  find_member key (then_member k v m) =
      let rest = find_member key m in if same k key then some v else rest

  unfoldable pub has_member : Bytes → Value Double → Bool
  unfolding find_member
  has_member key (object m) = is_some (find_member key m)
  has_member key v = false

  -- `get<std::string>()`
  abbrev pub get_text : Value Double → Option Bytes
  get_text (text s) = some s
  get_text v = none

  abbrev pub get_bool : Value Double → Option Bool
  get_bool (boolean b) = some b
  get_bool v = none

  -- `value(key, default)`, read by the given function.
  abbrev pub value_by {ℓ} :
      {A : Type ℓ} → (Value Double → Option A) → A → Option (Value Double) → Option A
  value_by read default none = some default
  value_by read default (some v) = read v

  unfoldable pub value_of {ℓ} :
      {A : Type ℓ} → (Value Double → Option A) → Bytes → A → Value Double → Option A
  unfolding find_member value_by
  value_of read key default (object m) = value_by read default (find_member key m)
  value_of read key default v = none

  abbrev pub list_values : Values Double → List (Value Double)
  list_values no_values = []
  list_values (then_value v vs) = v ∷ list_values vs

  abbrev pub member_values : Members Double → List (Value Double)
  member_values no_members = []
  member_values (then_member k v m) = v ∷ member_values m

  -- What a range-based `for` meets: a scalar is met once.
  abbrev pub elements : Value Double → List (Value Double)
  elements null = []
  elements (array vs) = list_values vs
  elements (object m) = member_values m
  elements v = v ∷ []

  -- The texts under a key, none where the key is not there.
  unfoldable pub texts_under : Bytes → Value Double → Option (List Bytes)
  unfolding find_member
  texts_under key (object m) = elim (find_member key m) [
    | none ↦ some []
    | some v ↦ each get_text (elements v)
  ]
  texts_under key v = some []

  -- The elements under a key.
  unfoldable pub elements_under : Bytes → Value Double → List (Value Double)
  unfolding find_member
  elements_under key (object m) = elim (find_member key m) [ none ↦ [] | some v ↦ elements v ]
  elements_under key v = []
