-- ===== src/Json.antt =====
-- `serde_json::Value`. An object holds its members in the order of their keys.
pub mod Laws
use ferrum_edge_git_forge_op.Base.{
  Text, Bool, true, false, ◌&&◌, Option, none, some, text_eq, text_lt, ◌==◌, if◌then◌else◌,
}

-- A number stands for the text that it is printed as.
mutual
  pub data Value : Type 0 where
    null : Value
    bool : Bool → Value
    number : Text → Value
    string : Text → Value
    array : Items → Value
    object : Members → Value

  pub data Items : Type 0 where
    nil : Items
    item : Value → Items → Items

  pub data Members : Type 0 where
    end : Members
    member : Text → Value → Members → Members

abbrev same_bool : Bool → Bool → Bool
same_bool true b = b
same_bool false true = false
same_bool false false = true

unfoldable mutual
  pub same_value : Value → Value → Bool
  same_value null null = true
  same_value (bool a) (bool b) = same_bool a b
  same_value (number s) (number t) = s == t
  same_value (string s) (string t) = s == t
  same_value (array xs) (array ys) = same_items xs ys
  same_value (object m) (object n) = same_members m n
  same_value _ _ = false

  pub same_items : Items → Items → Bool
  same_items nil nil = true
  same_items (item x xs) (item y ys) = same_value x y && same_items xs ys
  same_items _ _ = false

  pub same_members : Members → Members → Bool
  same_members end end = true
  same_members (member k x m) (member j y n) = k == j && (same_value x y && same_members m n)
  same_members _ _ = false

-- `Map::get`
unfoldable pub member_of : Members → Text → Option Value
member_of end key = none
member_of (member k v m) key = if k == key then some v else member_of m key

-- `Map::insert`
unfoldable pub with_member : Members → Text → Value → Members
with_member end key v = member key v end
with_member (member k w m) key v =
    if k == key
    then member key v m
    else if text_lt key k
    then member key v (member k w m)
    else member k w (with_member m key v)

-- The members of the second object, put into the first.
unfoldable pub with_members : Members → Members → Members
unfolding with_member
with_members m end = m
with_members m (member k v n) = with_members (with_member m k v) n

-- `Value::get` by a key.
unfoldable pub value_at : Value → Text → Option Value
unfolding member_of
value_at (object m) key = member_of m key
value_at _ key = none

abbrev pub or_null : Option Value → Value
or_null none = null
or_null (some v) = v
