-- ===== src/Tests/Interface.antt =====
-- The interface engine of go/nl6/interface_state.go on a port with two sub-interfaces.
use nl.Prelude.{ℕ, ◌≡◌, refl, true, false, List, [], ◌∷◌, arith}
use nl.Interface.State.{InterfaceState, new_interface_state, set_parents, oper_status}
use nl.Interface.State.Family.{Family}
use nl.Interface.State.Entries.{has_parent, has_child}
use nl.Interface.State.Parents.{set_parents-Family}
use nl.Interface.Mutate.{StateChange, leaf_oper_status, set_link_state, set_admin_leaf}
use nl.Interface.Mutate.Cascade.{mirror}
use nl.Interface.Mutate.Mirror.{mirror-set_link_state, mirror-set_admin_leaf}
use nl.Interface.Mutate.Branches.{LinkOutcome, set_link_state-LinkOutcome}
use nl.Interface.Broadcast.{Fanout}

-- Sub-interfaces 2 and 3 of port 1, of four; entry 9 is out of range.
abbrev entries : List (ℕ × ℕ)
entries = (2, 1) ∷ (3, 1) ∷ (9, 1) ∷ []

abbrev device : InterfaceState
device = set_parents (new_interface_state 4 1000) entries

entries_flat : (p : ℕ) → has_parent entries p ≡ true → has_child entries p ≡ false
entries_flat p h = ground arith

set_parents-Family_example : Family (set_parents (new_interface_state 4 1000) entries)
unfolding new_interface_state
set_parents-Family_example =
    set_parents-Family (new_interface_state 4 1000) entries refl refl refl
      (refl, (refl, (refl, tt))) entries_flat

mirror-set_link_state_example :
    mirror (oper_status device) (set_link_state device 1 2 1500).2 2
    ≡ oper_status (set_link_state device 1 2 1500).0 2
mirror-set_link_state_example = mirror-set_link_state device set_parents-Family_example 1 2 1500 2

mirror-set_admin_leaf_example :
    mirror (oper_status device) (set_admin_leaf device 1 2 1500).1 3
    ≡ oper_status (set_admin_leaf device 1 2 1500).0 3
mirror-set_admin_leaf_example = mirror-set_admin_leaf device set_parents-Family_example 1 2 1500 3

device_ports : device.max_if_index ≡ 4
unfolding set_parents new_interface_state
device_ports = refl

set_link_state-LinkOutcome_example : LinkOutcome device 1 2 (set_link_state device 1 2 1500)
set_link_state-LinkOutcome_example =
    set_link_state-LinkOutcome device set_parents-Family_example 1 2 1500 (omega arith)
      (omega (arith, device_ports)) (omega arith) (omega arith)

abbrev event : ℕ → StateChange
event i = record {
  if_index = i;
  oper = 2;
  prev_oper = 1;
  admin = 1;
  link = 2;
  last_change = 1500;
  changed = leaf_oper_status;
  time = 1500;
}

-- A full listener and one with room.
abbrev fanout : Fanout
fanout = record {
  listeners =
      record { queue = event 1 ∷ []; capacity = 1; drops = 0 }
      ∷ record { queue = []; capacity = 2; drops = 0 }
      ∷ [];
  emitted = 1;
  dropped = 0;
}
