-- ===== src/Json/Laws.antt =====
-- Reads and writes of an object's members.
use ferrum_edge_git_forge_op.Base.{
  Text, ◌≡◌, refl, some, text_eq, text_lt, ◌==◌, ==_refl, if◌then◌else◌, arith, Bool-cases, inl,
  inr,
}
use ferrum_edge_git_forge_op.Json.{Value, Members, end, member, member_of, with_member}

pub member_of-with_member :
    (m : Members) (key j : Text) (v : Value)
    → member_of (with_member m key v) j ≡ (if key == j then some v else member_of m j)
unfolding member_of with_member
member_of-with_member end key j v = refl
member_of-with_member (member k w m) key j v = ground (arith, member_of-with_member m key j v)

-- A second write of a key replaces the first.
pub with_member-with_member :
    (m : Members) (key : Text) (v w : Value)
    → with_member (with_member m key v) key w ≡ with_member m key w
unfolding with_member
with_member-with_member end key v w = rw (==_refl key)
with_member-with_member (member k x m) key v w = elim (Bool-cases (k == key)) [
  | inl same ↦ rw (same, ==_refl key)
  | inr differ ↦ elim (Bool-cases (text_lt key k)) [
    | inl before ↦ rw (differ, before, ==_refl key)
    | inr after ↦ rw (differ, after, differ, after, with_member-with_member m key v w)
  ]
]
