-- ===== src/Apply/Order/Keys.antt =====
-- apply/api_target.rs: the entries that an incremental apply moves are writes.
use ferrum_edge_git_forge_op.Base.{
  Text, List, [], ◌∷◌, ◌≡◌, refl, map, select, Bool, true, false, not, ◌&&◌, ◌||◌, Option, none,
  some, contains, contains-append, text_eq, ◌==◌, eq→path, path→eq, arith,
}
use ferrum_edge_git_forge_op.Base.HashMap
use ferrum_edge_git_forge_op.Base.HashMap.{any}
use ferrum_edge_git_forge_op.StateKey.{state_key, proxy, plugin_config}
use ferrum_edge_git_forge_op.Change.{DiffAction, add, modify, delete, ResourceDiff}
use ferrum_edge_git_forge_op.Diff.{row_eq}
use ferrum_edge_git_forge_op.Diff.Redact.{Serde}
use ferrum_edge_git_forge_op.Diff.Collection.{same_action}
use ferrum_edge_git_forge_op.Apply.Changes.{key_of, is_delete}
use ferrum_edge_git_forge_op.Apply.Index.{ResourceIndex, at}
use ferrum_edge_git_forge_op.Apply.Order.Cycles.{
  new_proxies, cyclic_keys, cyclic_create_diffs, diff_row, cycle_keys, scoped_to,
}
use ferrum_edge_git_forge_op.Apply.Order.Renames.{
  rename_unblocking_keys, unblocks, consumer_renames,
}

-- Whether a write has the state key.
abbrev pub writes_key : List ResourceDiff → Text → Bool
writes_key ds key = any (λ e. not (is_delete e) && key_of e == key) ds

pub writes_key-head :
    (d : ResourceDiff) (ds : List ResourceDiff) (key : Text)
    → is_delete d ≡ false
    → key_of d ≡ key
    → writes_key (d ∷ ds) key ≡ true
unfolding any
writes_key-head d ds key w e = ground (arith, path→eq (key_of d) key)

any-select :
    (p : ResourceDiff → Bool) (ds : List ResourceDiff) (key : Text)
    → contains (map key_of (select p ds)) key ≡ true
    → any (λ d. p d && key_of d == key) ds ≡ true
unfolding select any
any-select p [] key h = cc
any-select p (d ∷ ds) key h = ground (arith, any-select p ds key)

any_weaker :
    (p q : ResourceDiff → Bool) (ds : List ResourceDiff)
    → ((d : ResourceDiff) → p d ≡ true → q d ≡ true)
    → any p ds ≡ true
    → any q ds ≡ true
unfolding any
any_weaker p q [] w h = cc
any_weaker p q (d ∷ ds) w h = ground (arith, w d, any_weaker p q ds w)

change_is_write :
    (action : DiffAction) → same_action action add ≡ true → same_action action delete ≡ false
change_is_write DiffAction.add h = refl
change_is_write DiffAction.modify h = refl
change_is_write DiffAction.delete h = cc

same_row_key :
    (d : ResourceDiff) (ns id : Text)
    → (d.kind == proxy) ≡ true
    → (diff_row d == at ns id) ≡ true
    → key_of d ≡ state_key ns proxy id
same_row_key d ns id k r = cc (eq→path d.kind proxy k, eq→path (diff_row d) (at ns id) r)

new_proxies_lem :
    (ds : List ResourceDiff) (ns id : Text)
    → contains (new_proxies ds) (at ns id) ≡ true
    → writes_key ds (state_key ns proxy id) ≡ true
unfolding new_proxies select any
new_proxies_lem [] ns id h = cc
new_proxies_lem (d ∷ ds) ns id h = ground (
  arith,
  change_is_write d.action,
  same_row_key d ns id,
  path→eq (key_of d) (state_key ns proxy id),
  new_proxies_lem ds ns id,
)

cycle_keys_lem :
    (all : List ResourceDiff) (ns id : Text) (owner : Option Text) (key : Text)
    → contains (cycle_keys (new_proxies all) ns id owner) key ≡ true
    → (state_key ns plugin_config id == key || writes_key all key) ≡ true
cycle_keys_lem all ns id none key h = cc
cycle_keys_lem all ns id (some owner) key h = ground (arith, new_proxies_lem all ns owner)

cyclic_keys_lem :
    (index : ResourceIndex) (all ds : List ResourceDiff) (key : Text)
    → contains (cyclic_keys (new_proxies all) index ds) key ≡ true
    → (writes_key ds key || writes_key all key) ≡ true
unfolding cyclic_keys any
cyclic_keys_lem index all [] key h = cc
cyclic_keys_lem index all (d ∷ ds) key h =
    let found = scoped_to (HashMap.lookup index.plugin_configs (diff_row d)) in
    let keys = cycle_keys (new_proxies all) d.namespace d.id found in
    ground (
      arith,
      change_is_write d.action,
      contains-append keys (cyclic_keys (new_proxies all) index ds) key,
      cycle_keys_lem all d.namespace d.id found key,
      cyclic_keys_lem index all ds key,
    )

in_selection :
    (keys : List Text) (ds : List ResourceDiff) (key : Text)
    → contains (map key_of (select (λ d. contains keys (key_of d)) ds)) key ≡ true
    → contains keys key ≡ true
unfolding select
in_selection keys [] key h = cc
in_selection keys (d ∷ ds) key h = ground (arith, in_selection keys ds key)

pub cyclic_create_lem :
    (index : ResourceIndex) (ds : List ResourceDiff) (key : Text)
    → contains (map key_of (cyclic_create_diffs ds index)) key ≡ true
    → writes_key ds key ≡ true
unfolding cyclic_create_diffs
cyclic_create_lem index ds key h =
    let keys = cyclic_keys (new_proxies ds) index ds in
    ground (arith, in_selection keys ds key, cyclic_keys_lem index ds ds key)

modify_is_write :
    (action : DiffAction) → same_action action modify ≡ true → same_action action delete ≡ false
modify_is_write DiffAction.add h = cc
modify_is_write DiffAction.modify h = refl
modify_is_write DiffAction.delete h = cc

unblocks_write :
    (serde : Serde) (renames : List (Text × Text)) (index : ResourceIndex) (d : ResourceDiff)
    → unblocks serde renames index d ≡ true
    → is_delete d ≡ false
unfolding unblocks
unblocks_write serde renames index d h = ground (arith, modify_is_write d.action)

pub unblocking_lem :
    (serde : Serde) (index : ResourceIndex) (ds : List ResourceDiff) (key : Text)
    → contains (rename_unblocking_keys serde ds index) key ≡ true
    → writes_key ds key ≡ true
unfolding rename_unblocking_keys
unblocking_lem serde index ds key h =
    let waits = unblocks serde (consumer_renames serde ds) index in
    any_weaker (λ d. waits d && key_of d == key) (λ d. not (is_delete d) && key_of d == key) ds
      (λ d w. ground (arith, unblocks_write serde (consumer_renames serde ds) index d))
      (any-select waits ds key (ground arith))
