-- ===== src/Interface/Mutate.antt =====
-- The mutators of go/nl6/interface_state.go. The compare-and-swap of each loop succeeds in the
-- round that is modelled: a round that loses changes nothing and runs again, and `familyMu` keeps
-- the other slots of a family still.
pub mod Slots
pub mod Cascade
pub mod Written
pub mod Mirror
pub mod Branches
pub mod Admin
use nl.Prelude.{
  ℕ, zero, suc, ◌+◌, ◌-◌, Bool, true, false, ◌&&◌, ◌||◌, not, List, [], ◌∷◌, ◌++◌, ltb, leb, ◌==◌,
  if◌then◌else◌,
}
use nl.Interface.Word.{
  oper_up, oper_lower_layer_dn, admin_up, admin_testing, pack_state, unpack_state, normalise_slot,
  derive_child_oper, wall_rel_ns, last_change_abs,
}
use nl.Interface.State.{InterfaceState, out_of_range, load, store, leaves, parent_oper, children_of}

-- `StateLeafBits`, where one event names one leaf.
pub data Leaf : Type 0 where
  leaf_oper_status leaf_admin_status : Leaf

pub record StateChange : Type 0 where
  pub if_index : ℕ
  pub oper : ℕ
  pub prev_oper : ℕ
  pub admin : ℕ
  pub link : ℕ
  pub last_change : ℕ
  pub changed : Leaf
  pub time : ℕ

pub data LinkMutation : Type 0 where
  link_unchanged link_moved_masked link_moved_visible : LinkMutation

-- One child of the walk of `cascadeChildren`: its new state, and its event if it moved.
pub cascade_child : InterfaceState → ℕ → ℕ → ℕ → ℕ → ℕ → InterfaceState × List StateChange
cascade_child s c was_parent now_parent time rel =
    let (link, admin) = leaves (load s (c - 1)) in
    let was = derive_child_oper admin link was_parent in
    let now = derive_child_oper admin link now_parent in
    if was == now then (s, []) else (
      store s (c - 1) (pack_state link admin rel),
      record {
        if_index = c;
        oper = now;
        prev_oper = was;
        admin = admin;
        link = link;
        last_change = last_change_abs s.boot_time_unix_ns rel;
        changed = leaf_oper_status;
        time = time;
      }
          ∷ [],
    )

pub cascade : InterfaceState → List ℕ → ℕ → ℕ → ℕ → ℕ → InterfaceState × List StateChange
cascade s [] was_parent now_parent time rel = (s, [])
cascade s (c ∷ cs) was_parent now_parent time rel =
    let (s', own) = cascade_child s c was_parent now_parent time rel in
    let (s'', rest) = cascade s' cs was_parent now_parent time rel in (s'', own ++ rest)

unfoldable pub cascade_children :
    InterfaceState → ℕ → ℕ → ℕ → ℕ → ℕ → InterfaceState × List StateChange
unfolding cascade cascade_child
cascade_children s slot was_parent now_parent time rel =
    cascade s (children_of s slot) was_parent now_parent time rel

-- The round of `SetLinkState` on a slot in range with a valid link, at wall clock `now`.
pub move_link : InterfaceState → ℕ → ℕ → ℕ → InterfaceState × LinkMutation × List StateChange
move_link s if_index new_link now =
    let slot = if_index - 1 in
    let (cur_link, cur_admin) = leaves (load s slot) in
    let (_, _, cur_rel) = unpack_state (load s slot) in
    let p_oper = parent_oper s slot in
    let was_oper = derive_child_oper cur_admin cur_link p_oper in
    let now_oper = derive_child_oper cur_admin new_link p_oper in
    let rel = wall_rel_ns now s.boot_time_unix_ns in
    let (s', moved) =
      cascade_children (store s slot (pack_state new_link cur_admin rel)) slot was_oper now_oper now
        rel in
    if cur_link == new_link
    then (s, link_unchanged, [])
    else if was_oper == now_oper
    then (store s slot (pack_state new_link cur_admin cur_rel), link_moved_masked, [])
    else (
      s',
      link_moved_visible,
      record {
        if_index = if_index;
        oper = now_oper;
        prev_oper = was_oper;
        admin = cur_admin;
        link = new_link;
        last_change = last_change_abs s.boot_time_unix_ns rel;
        changed = leaf_oper_status;
        time = now;
      }
          ∷ moved,
    )

unfoldable pub set_link_state :
    InterfaceState → ℕ → ℕ → ℕ → InterfaceState × LinkMutation × List StateChange
unfolding move_link
set_link_state s if_index new_link now =
    if out_of_range s if_index
    then (s, link_unchanged, [])
    else if ltb new_link oper_up || ltb oper_lower_layer_dn new_link
    then (s, link_unchanged, [])
    else move_link s if_index new_link now

-- The round of `setAdminLeaf` on a slot in range with a valid target.
pub move_admin : InterfaceState → ℕ → ℕ → ℕ → InterfaceState × List StateChange
move_admin s if_index new_val now =
    let slot = if_index - 1 in
    let (cur_link, cur_admin) = leaves (load s slot) in
    let (_, _, cur_rel) = unpack_state (load s slot) in
    let p_oper = parent_oper s slot in
    let was_oper = derive_child_oper cur_admin cur_link p_oper in
    let now_oper = derive_child_oper new_val cur_link p_oper in
    let rel = if was_oper == now_oper then cur_rel else wall_rel_ns now s.boot_time_unix_ns in
    let stored = store s slot (pack_state cur_link new_val rel) in
    let (s', moved) = cascade_children stored slot was_oper now_oper now rel in
    let admin_event : StateChange = record {
      if_index = if_index;
      oper = now_oper;
      prev_oper = was_oper;
      admin = new_val;
      link = cur_link;
      last_change = last_change_abs s.boot_time_unix_ns rel;
      changed = leaf_admin_status;
      time = now;
    } in
    if cur_admin == new_val
    then (s, [])
    else if was_oper == now_oper
    then (stored, admin_event ∷ [])
    else (s', admin_event ∷ record admin_event { changed = leaf_oper_status } ∷ moved)

unfoldable pub set_admin_leaf : InterfaceState → ℕ → ℕ → ℕ → InterfaceState × List StateChange
unfolding move_admin
set_admin_leaf s if_index new_val now =
    if out_of_range s if_index
    then (s, [])
    else if ltb new_val admin_up || ltb admin_testing new_val
    then (s, [])
    else move_admin s if_index new_val now

abbrev pub apply_admin_status : InterfaceState → ℕ → ℕ → ℕ → InterfaceState × List StateChange
apply_admin_status = set_admin_leaf
