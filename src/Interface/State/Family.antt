-- ===== src/Interface/State/Family.antt =====
-- The tables of parents and children agree, and parents are top-level.
use nl.Prelude.{ℕ, ◌+◌, ◌-◌, ◌≤◌, ◌<◌, ◌≡◌, ◌≢◌, true, length, contains}
use nl.Interface.State.{InterfaceState, parent_of, children_of}

pub record Family (s : InterfaceState) : Type 0 where
  pub sized : length s.slots ≡ s.max_if_index
  -- A listed child has this parent.
  pub child_parent :
      (slot j : ℕ)
      → contains (children_of s slot) j ≡ true
      → (0 < j) × (j ≤ s.max_if_index) × (parent_of s (j - 1) ≡ slot + 1)
  -- An interface with a parent is listed there.
  pub parent_child :
      (slot : ℕ)
      → slot < s.max_if_index
      → parent_of s slot ≢ 0
      → contains (children_of s (parent_of s slot - 1)) (slot + 1) ≡ true
  -- A parent has no parent.
  pub one_level : (slot : ℕ) → parent_of s slot ≢ 0 → parent_of s (parent_of s slot - 1) ≡ 0
