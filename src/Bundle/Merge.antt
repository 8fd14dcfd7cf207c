-- ===== src/Bundle/Merge.antt =====
-- secrets/bundle.rs: the value of a slot in the merged bundle.
use ferrum_edge_git_forge_op.Base.{
  Text, [], ◌∷◌, ◌≡◌, refl, sym, ap, ◌∙◌, Bool, true, false, Option, none, some, text_eq, text_key,
  ◌==◌, eq→path, if◌then◌else◌,
}
use ferrum_edge_git_forge_op.Base.Map
use ferrum_edge_git_forge_op.Base.Map.{Map, get, get-insert}
use ferrum_edge_git_forge_op.Bundle.{
  CredentialBundle, Shards, merge_into, merge_shards, merge_bundles,
}

-- No slot stands in a bundle twice.
abbrev pub IsNodup : CredentialBundle → Type 0
IsNodup [] = Unit {0}
IsNodup ((slot, _) ∷ bundle) = (get bundle slot ≡ none) × IsNodup bundle

abbrev pub AreNodup : Shards → Type 0
AreNodup [] = Unit {0}
AreNodup ((_, bundle) ∷ shards) = IsNodup bundle × AreNodup shards

abbrev pub or_else : Option Text → Option Text → Option Text
or_else none fallback = fallback
or_else (some value) fallback = some value

-- The value of a slot in the last shard that holds it.
abbrev pub last_value : Shards → Text → Option Text
last_value [] slot = none
last_value ((_, bundle) ∷ shards) slot = or_else (last_value shards slot) (get bundle slot)

step :
    (same : Bool) (value : Text) (here before : Option Text)
    → (same ≡ true → here ≡ none)
    → or_else here (if same then some value else before)
      ≡ or_else (if same then some value else here) before
step true value here before absent = rw (absent refl)
step false value here before absent = refl

merge_into-get :
    (bundle merged : CredentialBundle) (slot : Text)
    → IsNodup bundle
    → get (merge_into bundle merged) slot ≡ or_else (get bundle slot) (get merged slot)
unfolding merge_into get
merge_into-get [] merged slot nodup = refl
merge_into-get ((key, value) ∷ bundle) merged slot (absent, nodup) =
    merge_into-get bundle (Map.insert merged key value) slot nodup
    ∙ ap (or_else (get bundle slot)) (get-insert merged key slot value)
    ∙ step (key == slot) value (get bundle slot) (get merged slot)
        (λ same. ap (get bundle) (sym (eq→path key slot same)) ∙ absent)

pub or_else_assoc : (a b c : Option Text) → or_else a (or_else b c) ≡ or_else (or_else a b) c
or_else_assoc none b c = refl
or_else_assoc (some v) b c = refl

merge_shards-get :
    (shards : Shards) (merged : CredentialBundle) (slot : Text)
    → AreNodup shards
    → get (merge_shards shards merged) slot ≡ or_else (last_value shards slot) (get merged slot)
unfolding merge_shards
merge_shards-get [] merged slot nodup = refl
merge_shards-get ((_, bundle) ∷ shards) merged slot (here, nodup) =
    merge_shards-get shards (merge_into bundle merged) slot nodup
    ∙ ap (or_else (last_value shards slot)) (merge_into-get bundle merged slot here)
    ∙ or_else_assoc (last_value shards slot) (get bundle slot) (get merged slot)

pub or_else-none : (a : Option Text) → or_else a none ≡ a
or_else-none none = refl
or_else-none (some v) = refl

-- If no slot stands twice in one shard, the merged bundle has for each slot the value of the last
-- shard that holds it, and no value if none does.
pub merge_bundles_lem :
    (shards : Shards) (slot : Text)
    → AreNodup shards
    → get (merge_bundles shards) slot ≡ last_value shards slot
unfolding merge_bundles get
merge_bundles_lem shards slot nodup =
    merge_shards-get shards [] slot nodup ∙ or_else-none (last_value shards slot)
