-- ===== src/Interface/State.antt =====
-- `InterfaceState` of go/nl6/interface_state.go and the methods that read it. An ifIndex is a
-- number from 1; the source's negative ones take the same branches as 0.
pub mod Family
pub mod Entries
pub mod Parents
use nl.Prelude.{
  ℕ, zero, suc, ◌+◌, ◌-◌, ◌*◌, ◌/◌, ◌%◌, ◌^◌, Bool, true, false, not, ◌&&◌, ◌||◌, List, [], ◌∷◌,
  ◌++◌, Option, none, some, ltb, leb, ◌==◌, if◌then◌else◌, length, get_or, set, replicate,
}
use nl.Interface.Word.{
  oper_up, oper_unknown, oper_lower_layer_dn, admin_up, admin_testing, last_change_mask,
  last_change_rewind_sentinel, pack_state, unpack_state, normalise_slot, derive_oper,
  derive_child_oper, last_change_abs,
}

-- The tables are `none` where the source leaves them nil.
pub record InterfaceState : Type 0 where
  pub slots : List ℕ
  pub max_if_index : ℕ
  pub boot_time_unix_ns : ℕ
  pub parent : Option (List ℕ)
  pub children : Option (List (List ℕ))
  pub loopback : Option (List Bool)
  pub stacked : Option (List Bool)

-- The clock's reading at construction is the boot time.
unfoldable pub new_interface_state : ℕ → ℕ → InterfaceState
new_interface_state max_if_index now = record {
  slots = replicate max_if_index 0;
  max_if_index = max_if_index;
  boot_time_unix_ns = now;
  parent = none;
  children = none;
  loopback = none;
  stacked = none;
}

-- `slot < 0 || slot >= s.maxIfIndex`
abbrev pub out_of_range : InterfaceState → ℕ → Bool
out_of_range s if_index = if_index == 0 || leb s.max_if_index (if_index - 1)

abbrev pub load : InterfaceState → ℕ → ℕ
load s slot = get_or s.slots slot 0

abbrev pub store : InterfaceState → ℕ → ℕ → InterfaceState
store s slot w = record s { slots = set s.slots slot w }

-- The link and admin of a slot, as `unpackState` and `normaliseSlot` give them.
unfoldable pub leaves : ℕ → ℕ × ℕ
unfolding unpack_state normalise_slot
leaves w = let (link, admin, _) = unpack_state w in normalise_slot link admin

unfoldable pub parent_of : InterfaceState → ℕ → ℕ
parent_of s slot = elim s.parent [ none ↦ 0 | some p ↦ get_or p slot 0 ]

unfoldable pub children_of : InterfaceState → ℕ → List ℕ
children_of s slot = elim s.children [ none ↦ [] | some c ↦ get_or c slot [] ]

pub parent : InterfaceState → ℕ → ℕ
parent s if_index = if out_of_range s if_index then 0 else parent_of s (if_index - 1)

unfoldable pub parent_oper : InterfaceState → ℕ → ℕ
parent_oper s slot =
    if parent_of s slot == 0
    then oper_up
    else (let (link, admin) = leaves (load s (parent_of s slot - 1)) in derive_oper admin link)

-- The oper-status of a slot in range.
unfoldable pub slot_oper : InterfaceState → ℕ → ℕ
slot_oper s slot =
    let (link, admin) = leaves (load s slot) in derive_child_oper admin link (parent_oper s slot)

unfoldable pub oper_status : InterfaceState → ℕ → ℕ
oper_status s if_index =
    if out_of_range s if_index then oper_unknown else slot_oper s (if_index - 1)

unfoldable pub link_state : InterfaceState → ℕ → ℕ
unfolding unpack_state
link_state s if_index =
    if out_of_range s if_index
    then oper_unknown
    else (let (link, _, _) = unpack_state (load s (if_index - 1)) in
        if link == 0 then oper_unknown else link)

unfoldable pub admin_status : InterfaceState → ℕ → ℕ
unfolding unpack_state
admin_status s if_index =
    if out_of_range s if_index
    then admin_up
    else (let (_, admin, _) = unpack_state (load s (if_index - 1)) in
        if admin == 0 then admin_up else admin)

unfoldable pub last_change_ns : InterfaceState → ℕ → ℕ
unfolding unpack_state
last_change_ns s if_index =
    if out_of_range s if_index
    then 0
    else (let (_, _, rel) = unpack_state (load s (if_index - 1)) in
        last_change_abs s.boot_time_unix_ns rel)

pub record StateSnapshot : Type 0 where
  pub oper : ℕ
  pub link : ℕ
  pub admin : ℕ
  pub last_change : ℕ
  pub found : Bool

unfoldable pub snapshot : InterfaceState → ℕ → StateSnapshot
unfolding unpack_state normalise_slot
snapshot s if_index =
    if out_of_range s if_index
    then record { oper = 0; link = 0; admin = 0; last_change = 0; found = false }
    else (let (raw_link, raw_admin, rel) = unpack_state (load s (if_index - 1)) in
        let (link, admin) = normalise_slot raw_link raw_admin in
        record {
          oper = derive_child_oper admin link (parent_oper s (if_index - 1));
          link = link;
          admin = admin;
          last_change = last_change_abs s.boot_time_unix_ns rel;
          found = true;
        })

unfoldable pub seed : InterfaceState → ℕ → ℕ → ℕ → InterfaceState
seed s if_index link admin =
    if out_of_range s if_index
    then s
    else if ltb link oper_up || ltb oper_lower_layer_dn link
    then s
    else if ltb admin admin_up || ltb admin_testing admin
    then s
    else store s (if_index - 1) (pack_state link admin 0)

-- The body of the loop over the sorted children of `setParents`.
pub add_parent : ℕ → List ℕ × List (List ℕ) → ℕ × ℕ → List ℕ × List (List ℕ)
add_parent top (parent, children) (c, p) =
    if c == 0 || ltb top c || p == 0 || ltb top p
    then (parent, children)
    else (set parent (c - 1) p, set children (p - 1) (get_or children (p - 1) [] ++ (c ∷ [])))

pub add_parents : ℕ → List ℕ × List (List ℕ) → List (ℕ × ℕ) → List ℕ × List (List ℕ)
add_parents top tables [] = tables
add_parents top tables (e ∷ rest) = add_parents top (add_parent top tables e) rest

-- The map is its entries (child, parent) in ascending order of the child.
unfoldable pub set_parents : InterfaceState → List (ℕ × ℕ) → InterfaceState
set_parents s [] = s
set_parents s (e ∷ rest) =
    let (parent, children) =
      add_parents s.max_if_index (replicate s.max_if_index 0, replicate s.max_if_index [])
        (e ∷ rest) in
    record s { parent = some parent; children = some children }

-- The loop of `setLoopbacks` and `setStacked` over the keys of the set.
pub mark : ℕ → List Bool → List ℕ → List Bool
mark top marks [] = marks
mark top marks (i ∷ rest) =
    mark top (if not (i == 0) && leb i top then set marks (i - 1) true else marks) rest

unfoldable pub set_loopbacks : InterfaceState → List ℕ → InterfaceState
set_loopbacks s [] = s
set_loopbacks s (i ∷ rest) = record s {
  loopback = some (mark s.max_if_index (replicate s.max_if_index false) (i ∷ rest));
}

unfoldable pub set_stacked : InterfaceState → List ℕ → InterfaceState
set_stacked s [] = s
set_stacked s (i ∷ rest) = record s {
  stacked = some (mark s.max_if_index (replicate s.max_if_index false) (i ∷ rest));
}

unfoldable pub named_subinterface : InterfaceState → ℕ → Bool
unfolding parent
named_subinterface s if_index =
    if parent s if_index == 0
    then false
    else elim s.stacked [ none ↦ true | some m ↦ not (get_or m (if_index - 1) false) ]

unfoldable pub linkless : InterfaceState → ℕ → Bool
unfolding parent
linkless s if_index = if not (parent s if_index == 0) then true else elim s.loopback [
  | none ↦ false
  | some m ↦ not (out_of_range s if_index) && get_or m (if_index - 1) false
]
