-- ===== src/Sidecar/Sorting.antt =====
-- `sortKeys`: the members of every object of a value, in the order of their keys.
use topo_llvm.Prelude.{if◌then◌else◌, Bytes}
use topo_llvm.Json.Value.{
  Value, null, boolean, integer, floating, text, array, object, Values, no_values, then_value,
  Members, no_members, then_member, key_less, set_ordered,
}

module _ {Double : Type 0} where
  -- Among sorted members, by key.
  unfoldable pub insert_member : Bytes → Value Double → Members Double → Members Double
  unfolding key_less
  insert_member key v no_members = then_member key v no_members
  insert_member key v (then_member k w m) =
      let rest = insert_member key v m in
      if key_less k key then then_member k w rest else then_member key v (then_member k w m)

  -- The new object, to which the sorted members are assigned.
  unfoldable pub rebuild : Members Double → Members Double → Members Double
  unfolding set_ordered
  rebuild done no_members = done
  rebuild done (then_member k v m) = rebuild (set_ordered k v done) m

  unfoldable mutual
    unfolding insert_member rebuild

    pub sort_keys : Value Double → Value Double
    sort_keys null = null
    sort_keys (boolean b) = boolean b
    sort_keys (integer z) = integer z
    sort_keys (floating d) = floating d
    sort_keys (text s) = text s
    sort_keys (array vs) = array (sort_values vs)
    sort_keys (object m) = object (rebuild no_members (sort_members m))

    pub sort_values : Values Double → Values Double
    sort_values no_values = no_values
    sort_values (then_value v vs) = then_value (sort_keys v) (sort_values vs)

    pub sort_members : Members Double → Members Double
    sort_members no_members = no_members
    sort_members (then_member k v m) = insert_member k (sort_keys v) (sort_members m)
