-- ===== src/Json/Value.antt =====
-- JSON values, as `nlohmann::json` holds them. `Double` stands for the type `double`. An object is the
-- list of its members, in the order of its iteration: by key in a `json`, as they were added in an
-- `ordered_json`.
use topo_llvm.Prelude.{Bool, true, false, List, [], ◌∷◌, if◌then◌else◌, Bytes, same, ltb}
use topo_llvm.Prelude.Int.{ℤ}

mutual
  pub data Value (Double : Type 0) : Type 0 where
    null : Value Double
    boolean : Bool → Value Double
    integer : ℤ → Value Double
    floating : Double → Value Double
    text : Bytes → Value Double
    array : Values Double → Value Double
    object : Members Double → Value Double

  pub data Values (Double : Type 0) : Type 0 where
    no_values : Values Double
    then_value : Value Double → Values Double → Values Double

  pub data Members (Double : Type 0) : Type 0 where
    no_members : Members Double
    then_member : Bytes → Value Double → Members Double → Members Double

-- `a < b` on strings.
unfoldable pub key_less : Bytes → Bytes → Bool
key_less [] [] = false
key_less [] (y ∷ ys) = true
key_less (x ∷ xs) [] = false
key_less (x ∷ xs) (y ∷ ys) = if ltb x y then true else if ltb y x then false else key_less xs ys

module _ {Double : Type 0} where
  -- `o[key] = v` on a `json`, whose members stand in the order of their keys.
  unfoldable pub set_sorted : Bytes → Value Double → Members Double → Members Double
  unfolding key_less
  set_sorted key v no_members = then_member key v no_members
  set_sorted key v (then_member k w m) =
      let rest = set_sorted key v m in
      if same k key
      then then_member k v m
      else if key_less key k
      then then_member key v (then_member k w m)
      else then_member k w rest

  -- `o[key] = v` on an `ordered_json`.
  unfoldable pub set_ordered : Bytes → Value Double → Members Double → Members Double
  set_ordered key v no_members = then_member key v no_members
  set_ordered key v (then_member k w m) =
      let rest = set_ordered key v m in
      if same k key then then_member k v m else then_member k w rest

  -- A `json` object of the given members, assigned one after the other.
  unfoldable pub assign_all : List (Bytes × Value Double) → Members Double → Members Double
  unfolding set_sorted
  assign_all [] m = m
  assign_all ((key, v) ∷ rest) m = assign_all rest (set_sorted key v m)

  unfoldable pub object_of : List (Bytes × Value Double) → Value Double
  unfolding assign_all
  object_of members = object (assign_all members no_members)

  abbrev pub values_of {ℓ} : {A : Type ℓ} → (A → Value Double) → List A → Values Double
  values_of f [] = no_values
  values_of f (x ∷ xs) = then_value (f x) (values_of f xs)

  unfoldable pub array_of {ℓ} : {A : Type ℓ} → (A → Value Double) → List A → Value Double
  array_of f xs = array (values_of f xs)
